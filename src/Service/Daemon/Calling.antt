-- ===== src/Service/Daemon/Calling.antt =====
-- What `currentClient` of internal/service/daemon.go and a call of its client return.
use peercontext.Common.{
  ◌≡◌, refl, ap, sym, ◌∙◌, subst, inl, inr, List, [], ◌∷◌, Option, String, arith,
}
use peercontext.Common.Text.{Bytes}
use peercontext.Errors.{Result, ok, Result-cases}
use peercontext.Lanhost.Client.{Client}
use peercontext.Lanhost.Client.Replies.{SameHost}
use peercontext.Lanhost.Client.Requests.Reported.{Reported, call-Reported, call-SameHost}
use peercontext.State.Model.{State, Profile}
use peercontext.State.Keys.{private_key}
use peercontext.State.Profiles.{current}
use peercontext.Service.Daemon.{
  Daemon, Act, Call, Setup, new_client, current_client, pure, rpc, call, on_machine, on_endpoints,
  ◌>>=◌,
}
use peercontext.Service.Daemon.Cases.{bind-cases}

module _ {A B : Type 0} where
  -- A block that succeeds passes through its first half.
  pub bind-ok :
      (act : Act A) (f : A → Act B) (d : Daemon) (b : B)
      → ((act >>= f) d).0 ≡ ok b
      → (a : A) × ((act d).0 ≡ ok a) × ((f a (act d).1).0 ≡ ok b)
  bind-ok act f d b h = elim (bind-cases act f d) [
    | inl (x, e, same) ↦ absurd (ground (arith, same))
    | inr (a, e, same) ↦ (a, e, ap (λ (r : Result B × Daemon). r.0) (sym same) ∙ h)
  ]

abbrev chosen : Client → Profile → Result (Client × Profile)
chosen c r = ok (c, r)

ok_profile : (c c' : Client) (r r' : Profile) → chosen c r ≡ chosen c' r' → r ≡ r'
ok_profile c c' r r' h = ground (arith, h)

ok_client : (c c' : Client) (r r' : Profile) → chosen c r ≡ chosen c' r' → c ≡ c'
ok_client c c' r r' h = ground (arith, h)

module _ (setup : Setup) where
  -- The Project in use, and the client of its host.
  pub record InUse (d : Daemon) (c : Client) (profile : Profile) : Type 0 where
    pub state : State
    pub read : (current setup.state_json setup.legacy d.machine).0 ≡ ok (state, profile)
    pub client : c ≡ new_client profile

  pub current_client-InUse :
      (d : Daemon) (c : Client) (profile : Profile)
      → (current_client setup d).0 ≡ ok (c, profile)
      → InUse d c profile
  unfolding current_client on_machine pure
  current_client-InUse d c profile h =
      let ((state, r), read, after) =
        bind-ok (on_machine (current setup.state_json setup.legacy)) _ d (c, profile) h in
      let (key, loaded, ended) =
        bind-ok (on_machine (private_key setup.platform setup.manager r.project_id))
          (λ _. pure (new_client r, r)) _ (c, profile) after in
      let same : r ≡ profile = ok_profile (new_client r) c r profile ended in
      let same_client : new_client r ≡ c = ok_client (new_client r) c r profile ended in
      record {
        state = state;
        read =
            subst
              (λ (q : Profile). (current setup.state_json setup.legacy d.machine).0 ≡ ok (state, q))
              same read;
        client = sym same_client ∙ ap new_client same;
      }

  on_endpoints-db :
      (c : Client) (endpoints : List String) (d : Daemon)
      → (on_endpoints setup c endpoints d).db ≡ d.db
  unfolding on_endpoints on_machine
  on_endpoints-db c [] d = refl
  on_endpoints-db c (endpoint ∷ before) d = on_endpoints-db c before d

  module _ {A : Type 0} (decode : Bytes → Option A) (before : A) (met : Call) (kind : String) where
    -- The data that the host has signed for one call of the daemon.
    abbrev pub Answered : Bytes → String → A → Type 0
    Answered = Reported decode before setup.platform setup.reading met.nonce met.around kind

    pub rpc-Answered :
        (c : Client) (d : Daemon) (a : A)
        → (rpc setup decode before met kind c d).0.0 ≡ ok a
        → Answered c.host_public_key c.project_id a
    unfolding rpc
    rpc-Answered c d a h =
        call-Reported decode before setup.platform setup.reading met.nonce met.around kind
          (record c { told = [] }) a h

    pub rpc-SameHost :
        (c : Client) (d : Daemon)
        → SameHost setup.platform setup.reading c (rpc setup decode before met kind c d).0.1
    unfolding rpc
    rpc-SameHost c d =
        let same =
          call-SameHost decode before setup.platform setup.reading met.nonce met.around kind
            (record c { told = [] }) in
        record { project = same.project; key = same.key }

    pub call-Answered :
        (c : Client) (d : Daemon) (a : A) (c' : Client)
        → (call setup decode before met kind c d).0 ≡ ok (a, c')
        → Answered c.host_public_key c.project_id a × SameHost setup.platform setup.reading c c'
    unfolding call
    call-Answered c d a c' h =
        let asked = rpc setup decode before met kind c d in
        elim (Result-cases asked.0.0) [
          | inr (x, e) ↦ absurd (ground (arith, e))
          | inl (b, e) ↦
              let same : b ≡ a = ground (arith, e) in
              let same_client : asked.0.1 ≡ c' = ground (arith, e) in
              let kept = rpc-SameHost c d in
              (
                subst (λ (q : A). Answered c.host_public_key c.project_id q) same
                    (rpc-Answered c d b e),
                subst (λ (q : Client). SameHost setup.platform setup.reading c q) same_client kept,
              )
        ]

    -- A call leaves the database to what the daemon does while it waits.
    pub call-db :
        (c : Client) (d : Daemon)
        → (call setup decode before met kind c d).1.db ≡ (met.meanwhile d).db
    unfolding call rpc
    call-db c d =
        on_endpoints-db c (rpc setup decode before met kind c d).0.1.told (met.meanwhile d)
