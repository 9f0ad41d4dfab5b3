-- ===== src/Lanhost/Client/Replies.antt =====
-- Which answers `RPC` of internal/lanhost/client.go takes for those of the host.
use peercontext.Common.{
  ℕ, ◌≡◌, refl, ap, ◌∙◌, subst, ◌⊎◌, inl, inr, true, Option, some, List, [], ◌∷◌, String, length,
  arith, Option-cases, nat_eq, string_eq, ==_iff,
}
use peercontext.Common.Text.{Bytes, concat}
use peercontext.Errors.{GoError, Result, ok, err, Result-cases}
use peercontext.Protocol.Time.{Time}
use peercontext.Protocol.Platform.{Platform}
use peercontext.Protocol.Model.{default_signature_max_age}
use peercontext.Protocol.Signing.{SignedMessage, verify_message}
use peercontext.Lanhost.Replay.{accept}
use peercontext.Lanhost.Wire.{RpcResult}
use peercontext.Lanhost.Server.Rpc.{decode_json, max_wire_message_bytes}
use peercontext.Lanhost.Client.{
  Answer, Client, Reading, Verdict, retry, refused, accepted, judge, decode_signed_response,
  require_direct_lan_endpoint, post_rpc, answered, noted, wrapped, unverified, try_endpoints,
  remember_endpoint,
}

module _ (p : Platform) (reading : Reading) where
  -- A message that an answer of the HTTP client carries and that the host signed within two minutes of
  -- the time at which the answer is read, on a route, in reply to a nonce, and the result that the
  -- message carries.
  pub record Replies (a : Answer) (key : Bytes) (path reply_to : String) (m : SignedMessage)
      (result : RpcResult) : Type 0 where
    pub read : decode_json reading.signed_message max_wire_message_bytes a.body ≡ some m
    pub signed : verify_message p m key a.at default_signature_max_age ≡ ok tt
    pub method : m.method ≡ "POST"
    pub same_path : m.path ≡ path
    pub reply : m.reply_to ≡ reply_to
    pub carried : reading.rpc_result m.payload ≡ some result

  wrapped_ok : (f : GoError → GoError) (r : Result (Unit {0})) → wrapped f r ≡ ok tt → r ≡ ok tt
  unfolding wrapped
  wrapped_ok f (ok _) h = refl
  wrapped_ok f (err e) h = absurd (ground arith)

  pub decode_signed_response_ok :
      (a : Answer) (key : Bytes) (path reply_to : String) (m : SignedMessage) (result : RpcResult)
      → decode_signed_response p reading a.body key "POST" path reply_to a.at ≡ ok (m, result)
      → Replies a key path reply_to m result
  unfolding decode_signed_response
  decode_signed_response_ok a key path reply_to m result h =
      elim (Option-cases (decode_json reading.signed_message max_wire_message_bytes a.body)) [
        | inl e ↦ absurd (ground (arith, e))
        | inr (n, e) ↦
            elim (Result-cases
              (wrapped unverified (verify_message p n key a.at default_signature_max_age))) [
                | inr (x, f) ↦ absurd (ground (arith, e, f))
                | inl (u, f) ↦ elim (Option-cases (reading.rpc_result n.payload)) [
                  | inl g ↦ absurd (ground (arith, e, f, g))
                  | inr (r, g) ↦
                      let same_message : n ≡ m = ground (arith, e, f, g) in
                      let same_result : r ≡ result = ground (arith, e, f, g) in
                      subst (λ (q : SignedMessage). Replies a key path reply_to q result)
                        same_message
                        (subst (λ (q : RpcResult). Replies a key path reply_to n q) same_result
                          (record {
                            read = e;
                            signed = wrapped_ok unverified _ f;
                            method = ground (arith, e, f, g, ==_iff n.method "POST");
                            same_path = ground (arith, e, f, g, ==_iff n.path path);
                            reply = ground (arith, e, f, g, ==_iff n.reply_to reply_to);
                            carried = g;
                          }))
                ]
              ]
      ]

  noted_ok :
      (later : Time) (c : Client) (m n : SignedMessage) (r result : RpcResult)
      → (noted p reading later c (ok (m, r))).0 ≡ ok (n, result)
      → (m ≡ n) × (r ≡ result) × ((accept c.replays m later).0 ≡ ok tt)
  unfolding noted wrapped
  noted_ok later c m n r result h = elim (Result-cases (accept c.replays m later).0) [
    | inl (u, e) ↦ (ground (arith, e), ground (arith, e), e)
    | inr (x, e) ↦ absurd (ground (arith, e))
  ]

  -- Such a message whose nonce was new.
  pub record IsAnswer (a : Answer) (c : Client) (reply_to : String) (m : SignedMessage)
      (result : RpcResult) : Type 0 where
    pub replies : Replies a c.host_public_key "/v2/rpc" reply_to m result
    pub fresh : (accept c.replays m a.later).0 ≡ ok tt

  answered_ok :
      (fetched : Result Answer) (reply_to : String) (c : Client) (m : SignedMessage)
      (result : RpcResult)
      → (answered p reading fetched reply_to c).0 ≡ ok (m, result)
      → (a : Answer) × (fetched ≡ ok a) × IsAnswer a c reply_to m result
  unfolding answered
  answered_ok (err e) reply_to c m result h = absurd (ground arith)
  answered_ok (ok a) reply_to c m result h =
      elim (Result-cases (
        decode_signed_response p reading a.body c.host_public_key "POST" "/v2/rpc" reply_to a.at)) [
          | inr (x, e) ↦ absurd (ground (arith, e))
          | inl ((n, r), e) ↦
              let (same_message, same_result, fresh) =
                noted_ok a.later c n m r result (rw (e, answered) at h) in
              (
                a,
                refl,
                record {
                  replies =
                      subst
                        (λ (q : SignedMessage).
                          Replies a c.host_public_key "/v2/rpc" reply_to q result)
                        same_message
                        (subst
                          (λ (q : RpcResult). Replies a c.host_public_key "/v2/rpc" reply_to n q)
                          same_result
                          (decode_signed_response_ok a c.host_public_key "/v2/rpc" reply_to n r e));
                  fresh =
                      subst (λ (q : SignedMessage). (accept c.replays q a.later).0 ≡ ok tt)
                        same_message fresh;
                },
              )
        ]

  post_rpc_ok :
      (endpoint : String) (fetched : Result Answer) (reply_to : String) (c : Client)
      (m : SignedMessage) (result : RpcResult)
      → (post_rpc p reading endpoint fetched reply_to c).0 ≡ ok (m, result)
      → (a : Answer) × (fetched ≡ ok a) × IsAnswer a c reply_to m result
  unfolding post_rpc
  post_rpc_ok endpoint fetched reply_to c m result h =
      elim (Result-cases (require_direct_lan_endpoint p reading endpoint)) [
        | inr (x, e) ↦ absurd (ground (arith, e))
        | inl (u, e) ↦ answered_ok fetched reply_to c m result (rw (e, post_rpc) at h)
      ]

  -- The keys that a call reads stay.
  pub record SameHost (c d : Client) : Type 0 where
    pub project : d.project_id ≡ c.project_id
    pub key : d.host_public_key ≡ c.host_public_key

  noted-SameHost :
      (later : Time) (c : Client) (r : Result (SignedMessage × RpcResult))
      → SameHost c (noted p reading later c r).1
  unfolding noted
  noted-SameHost later c (err e) = record { project = refl; key = refl }
  noted-SameHost later c (ok (m, r)) = record { project = refl; key = refl }

  answered-SameHost :
      (fetched : Result Answer) (reply_to : String) (c : Client)
      → SameHost c (answered p reading fetched reply_to c).1
  unfolding answered
  answered-SameHost (err e) reply_to c = record { project = refl; key = refl }
  answered-SameHost (ok a) reply_to c =
      elim (Result-cases (
        decode_signed_response p reading a.body c.host_public_key "POST" "/v2/rpc" reply_to a.at)) [
          | inr (x, e) ↦ rw (e, answered) (record { project = refl; key = refl })
          | inl (n, e) ↦ rw (e, answered) (noted-SameHost a.later c (ok n))
        ]

  post_rpc-SameHost :
      (endpoint : String) (fetched : Result Answer) (reply_to : String) (c : Client)
      → SameHost c (post_rpc p reading endpoint fetched reply_to c).1
  unfolding post_rpc
  post_rpc-SameHost endpoint fetched reply_to c =
      elim (Result-cases (require_direct_lan_endpoint p reading endpoint)) [
        | inr (x, e) ↦ rw (e, post_rpc) (record { project = refl; key = refl })
        | inl (u, e) ↦ rw (e, post_rpc) (answered-SameHost fetched reply_to c)
      ]

  -- The result is a success that the host of the Project signed, for this kind of call and this
  -- nonce, in one of the answers that were fetched.
  pub record FromHost (Fetched : Answer → Type 0) (key : Bytes) (project_id kind reply_to : String)
      (result : RpcResult) : Type 0 where
    pub answer : Answer
    pub fetched : Fetched answer
    pub message : SignedMessage
    pub replies : Replies answer key "/v2/rpc" reply_to message result
    pub project : message.project_id ≡ project_id
    pub same_kind : message.kind ≡ concat kind ".response"
    pub succeeded : result.ok ≡ true

  Verdict-cases :
      (v : Verdict)
      → ((e : GoError) × (v ≡ retry e))
        ⊎ (((e : GoError) × (v ≡ refused e)) ⊎ ((r : RpcResult) × (v ≡ accepted r)))
  Verdict-cases (retry e) = inl (e, refl)
  Verdict-cases (refused e) = inr (inl (e, refl))
  Verdict-cases (accepted r) = inr (inr (r, refl))

  judge_ok :
      (project_id kind : String) (r : Result (SignedMessage × RpcResult)) (result : RpcResult)
      → judge project_id kind r ≡ accepted result
      → (m : SignedMessage) × (r ≡ ok (m, result))
        × (m.project_id ≡ project_id)
        × (m.kind ≡ concat kind ".response")
        × (result.ok ≡ true)
  unfolding judge
  judge_ok project_id kind (err e) result h = absurd (ground arith)
  judge_ok project_id kind (ok (m, r)) result h =
      let same : r ≡ result = ground arith in
      (
        m,
        ap (λ (q : RpcResult). ok (m, q)) same,
        ground (arith, ==_iff m.project_id project_id),
        ground (arith, ==_iff m.kind (concat kind ".response")),
        ground arith,
      )

  pub try_endpoints_ok :
      (Fetched : Answer → Type 0) (fetch : String → ℕ → Result Answer) (kind reply_to : String)
      (endpoints : List String) (last : Option GoError) (c : Client) (result : RpcResult)
      → ((endpoint : String) (n : ℕ) (a : Answer) → fetch endpoint n ≡ ok a → Fetched a)
      → (try_endpoints p reading fetch kind reply_to endpoints last c).0 ≡ inl (ok result)
      → FromHost Fetched c.host_public_key c.project_id kind reply_to result
  unfolding try_endpoints
  try_endpoints_ok Fetched fetch kind reply_to [] last c result known h = absurd (ground arith)
  try_endpoints_ok Fetched fetch kind reply_to (endpoint ∷ more) last c result known h =
      let fetched = fetch endpoint (length more) in
      let answer = post_rpc p reading endpoint fetched reply_to c in
      elim (Verdict-cases (judge c.project_id kind answer.0)) [
        | inl (x, e) ↦
            let rest =
              try_endpoints_ok Fetched fetch kind reply_to more (some x) answer.1 result known
                (rw (e, try_endpoints) at h) in
            let same = post_rpc-SameHost endpoint fetched reply_to c in
            subst (λ (k : Bytes). FromHost Fetched k c.project_id kind reply_to result) same.key
              (subst
                (λ (q : String). FromHost Fetched answer.1.host_public_key q kind reply_to result)
                same.project rest)
        | inr (inl (x, e)) ↦ absurd (ground (arith, e))
        | inr (inr (r, e)) ↦
            let same : r ≡ result = ground (arith, e) in
            let (m, here, project, same_kind, succeeded) =
              judge_ok c.project_id kind answer.0 r e in
            let (a, got, is_answer) = post_rpc_ok endpoint fetched reply_to c m r here in
            subst
              (λ (q : RpcResult). FromHost Fetched c.host_public_key c.project_id kind reply_to q)
              same
              (record {
                answer = a;
                fetched = known endpoint (length more) a got;
                message = m;
                replies = is_answer.replies;
                project = project;
                same_kind = same_kind;
                succeeded = succeeded;
              })
      ]

  pub try_endpoints-SameHost :
      (fetch : String → ℕ → Result Answer) (kind reply_to : String) (endpoints : List String)
      (last : Option GoError) (c : Client)
      → SameHost c (try_endpoints p reading fetch kind reply_to endpoints last c).1
  unfolding try_endpoints remember_endpoint
  try_endpoints-SameHost fetch kind reply_to [] last c = record { project = refl; key = refl }
  try_endpoints-SameHost fetch kind reply_to (endpoint ∷ more) last c =
      let answer = post_rpc p reading endpoint (fetch endpoint (length more)) reply_to c in
      let same = post_rpc-SameHost endpoint (fetch endpoint (length more)) reply_to c in
      elim (Verdict-cases (judge c.project_id kind answer.0)) [
        | inl (x, e) ↦
            let rest = try_endpoints-SameHost fetch kind reply_to more (some x) answer.1 in
            rw (e, try_endpoints)
              (record { project = rest.project ∙ same.project; key = rest.key ∙ same.key })
        | inr (inl (x, e)) ↦ rw (e, try_endpoints) same
        | inr (inr (r, e)) ↦
            rw (e, try_endpoints) (record { project = same.project; key = same.key })
      ]
