-- ===== src/Lanhost/Client/Calls.antt =====
-- What `RPC` of internal/lanhost/client.go returns, over both attempts, and the endpoints it tries.
use peercontext.Common.{
  ◌≡◌, ℕ, ◌≢◌, refl, ap, ◌∙◌, subst, ◌⊎◌, inl, inr, not, Option, none, List, [], ◌∷◌, String, arith,
  select, any, count, Option-cases, ◌==◌, nat_eq, string_eq, ==_iff, ==_refl,
}
use peercontext.Common.Text.{Bytes}
use peercontext.Errors.{GoError, Result, ok}
use peercontext.Protocol.Platform.{Platform}
use peercontext.Lanhost.Wire.{RpcResult}
use peercontext.Lanhost.Client.{
  Answer, Client, Reading, Surroundings, try_endpoints, client_endpoints, rpc, first_attempt,
  last_attempt, rediscovered, prioritize_endpoint,
}
use peercontext.Lanhost.Client.Replies.{
  FromHost, SameHost, try_endpoints_ok, try_endpoints-SameHost,
}

any-select_other :
    (first other : String) (endpoints : List String)
    → other ≢ first
    → any (λ e. e == other) (select (λ e. not (e == first)) endpoints)
      ≡ any (λ e. e == other) endpoints
unfolding any select
any-select_other first other [] ne = refl
any-select_other first other (e ∷ es) ne =
    ground (arith, any-select_other first other es ne, ==_iff e other, ==_iff e first)

count-select-not :
    (first : String) (endpoints : List String)
    → count (λ e. e == first) (select (λ e. not (e == first)) endpoints) ≡ 0
unfolding count select
count-select-not first [] = refl
count-select-not first (e ∷ es) = ground (arith, count-select-not first es)

-- With an endpoint moved to the front, that one is tried once, and any other is tried if and only if
-- it was among the endpoints.
pub any-prioritize_endpoint :
    (first other : String) (endpoints : List String)
    → other ≢ first
    → (count (λ e. e == first) (prioritize_endpoint first endpoints) ≡ 1)
      × (any (λ e. e == other) (prioritize_endpoint first endpoints)
          ≡ any (λ e. e == other) endpoints)
unfolding prioritize_endpoint any count
any-prioritize_endpoint first other endpoints ne = (
  ground (arith, count-select-not first endpoints, ==_refl first),
  ground (arith, any-select_other first other endpoints ne, ==_iff first other),
)

-- An answer that the network gives in one of the two attempts.
abbrev pub IsFetched : Surroundings → Answer → Type 0
IsFetched around a =
    ((endpoint : String) × (n : ℕ) × (around.first endpoint n ≡ ok a))
    ⊎ ((endpoint : String) × (n : ℕ) × (around.second endpoint n ≡ ok a))

module _ (p : Platform) (reading : Reading) (around : Surroundings) (kind reply_to : String) where
  Tried : Client → (Result RpcResult ⊎ Option GoError) × Client → Type 0
  Tried c r =
      (result : RpcResult)
      → r.0 ≡ inl (ok result)
      → FromHost p reading (IsFetched around) c.host_public_key c.project_id kind reply_to result

  last_attempt_ok :
      (c : Client) (r : (Result RpcResult ⊎ Option GoError) × Client) (result : RpcResult)
      → Tried c r
      → (last_attempt p reading around kind reply_to r).0 ≡ ok result
      → FromHost p reading (IsFetched around) c.host_public_key c.project_id kind reply_to result
  unfolding last_attempt Tried
  last_attempt_ok c (inl r, d) result tried h = tried result (ap inl h)
  last_attempt_ok c (inr last, d) result tried h = absurd (ground arith)

  first_attempt_ok :
      (endpoints : List String) (c : Client) (r : (Result RpcResult ⊎ Option GoError) × Client)
      (result : RpcResult)
      → SameHost p reading c r.1
      → Tried c r
      → (first_attempt p reading around kind reply_to endpoints r).0 ≡ ok result
      → FromHost p reading (IsFetched around) c.host_public_key c.project_id kind reply_to result
  unfolding first_attempt Tried
  first_attempt_ok endpoints c (inl r, d) result same tried h = tried result (ap inl h)
  first_attempt_ok endpoints c (inr last, d) result same tried h =
      elim (Option-cases around.canceled_first) [
        | inr (x, e) ↦ absurd (ground (arith, e))
        | inl e ↦
            let (again, last') = rediscovered around.discovered endpoints last in
            let tried' : Tried d
                (try_endpoints p reading around.second kind reply_to again last' d) =
              λ q k.
                try_endpoints_ok p reading (IsFetched around) around.second kind reply_to again
                  last' d q (λ endpoint n a f. inr (endpoint, n, f)) k in
            let found = last_attempt_ok d _ result tried' (rw (e, first_attempt) at h) in
            subst
              (λ (k : Bytes).
                FromHost p reading (IsFetched around) k c.project_id kind reply_to result)
              same.key
              (subst
                (λ (q : String).
                  FromHost p reading (IsFetched around) d.host_public_key q kind reply_to result)
                same.project found)
      ]

  last_attempt-SameHost :
      (c : Client) (r : (Result RpcResult ⊎ Option GoError) × Client)
      → SameHost p reading c r.1
      → SameHost p reading c (last_attempt p reading around kind reply_to r).1
  unfolding last_attempt
  last_attempt-SameHost c (inl r, d) same = same
  last_attempt-SameHost c (inr last, d) same = same

  first_attempt-SameHost :
      (endpoints : List String) (c : Client) (r : (Result RpcResult ⊎ Option GoError) × Client)
      → SameHost p reading c r.1
      → SameHost p reading c (first_attempt p reading around kind reply_to endpoints r).1
  unfolding first_attempt
  first_attempt-SameHost endpoints c (inl r, d) same = same
  first_attempt-SameHost endpoints c (inr last, d) same =
      elim (Option-cases around.canceled_first) [
        | inr (x, e) ↦ rw (e, first_attempt) same
        | inl e ↦
            let (again, last') = rediscovered around.discovered endpoints last in
            let more = try_endpoints-SameHost p reading around.second kind reply_to again last' d in
            rw (e, first_attempt)
              (last_attempt-SameHost c _
                (record { project = more.project ∙ same.project; key = more.key ∙ same.key }))
      ]

  -- a call keeps the Project and the key of its host
  pub rpc-SameHost : (c : Client) → SameHost p reading c (rpc p reading around kind reply_to c).1
  unfolding rpc
  rpc-SameHost c =
      first_attempt-SameHost (client_endpoints c) c _
        (try_endpoints-SameHost p reading around.first kind reply_to (client_endpoints c) none c)

  -- What `RPC` returns as the result of a call, on whichever attempt and from whichever endpoint, is a
  -- success that an answer of the network in one of these attempts carries. The host of the client's
  -- Project has signed it at most two minutes from the time at which this answer is read, under the
  -- key that the client holds, on the route of calls, for this kind of call and in reply to its nonce.
  pub rpc_ok :
      (c : Client) (result : RpcResult)
      → (rpc p reading around kind reply_to c).0 ≡ ok result
      → FromHost p reading (IsFetched around) c.host_public_key c.project_id kind reply_to result
  unfolding rpc Tried
  rpc_ok c result h =
      first_attempt_ok (client_endpoints c) c _ result
        (try_endpoints-SameHost p reading around.first kind reply_to (client_endpoints c) none c)
        (λ q k.
          try_endpoints_ok p reading (IsFetched around) around.first kind reply_to
            (client_endpoints c) none c q (λ endpoint n a f. inl (endpoint, n, f)) k)
        h
