-- ===== src/Service/Daemon/Hosting.antt =====
-- For which Projects `hostIdentity` of internal/service/daemon.go gives an identity.
use peercontext.Common.{
  ◌≡◌, true, some, inl, inr, String, arith, Bool-cases, Option-cases, string_eq,
}
use peercontext.Common.Dict.{lookup}
use peercontext.Errors.{ok, Result-cases, or_error}
use peercontext.Lanhost.Wire.{HostIdentity}
use peercontext.State.Model.{Profile, State, StateJson}
use peercontext.State.Disk.{Machine, load, lift, decode_state}
use peercontext.State.Disk.Cases.{bind-cases}
use peercontext.State.Keys.{private_key}
use peercontext.State.Profiles.{profile, not_configured}
use peercontext.State.Profiles.Update.{load_lem}
use peercontext.Service.Daemon.{Setup, host_identity, identity_of}

profile_ok :
    (json : StateJson) (id : String) (m : Machine) (r : Profile)
    → (profile json id m).0 ≡ ok r
    → (s : State) × (decode_state json m.file ≡ ok s) × (lookup id s.profiles ≡ some r)
unfolding profile lift
profile_ok json id m r h =
    elim (bind-cases (load json) (λ s. lift (or_error (lookup id s.profiles) not_configured)) m) [
      | inl (x, e, same) ↦ absurd (ground (arith, same))
      | inr (s, e, same) ↦
          let reads = (load_lem json m).1 s e in
          elim (Option-cases (lookup id s.profiles)) [
            | inl f ↦ absurd (ground (arith, same, f))
            | inr (q, f) ↦
                let found : lookup id s.profiles ≡ some r = ground (arith, same, f) in
                (s, reads, found)
          ]
    ]

-- The identity is of a Project that the state file holds as hosted by this device, and its member is
-- the one of that Project.
pub record IsHosted (setup : Setup) (id : String) (m : Machine) (i : HostIdentity) : Type 0 where
  pub state : State
  pub profile : Profile
  pub reads : decode_state setup.state_json m.file ≡ ok state
  pub found : lookup id state.profiles ≡ some profile
  pub hosted : profile.hosted ≡ true
  pub member : i.member_id ≡ profile.member_id

-- `hostIdentity` gives an identity only for a Project that the state file holds as hosted by this
-- device, and the member of that Project with it.
pub host_identity-IsHosted :
    (setup : Setup) (id : String) (m : Machine) (i : HostIdentity)
    → (host_identity setup id m).0 ≡ ok i
    → IsHosted setup id m i
unfolding host_identity identity_of
host_identity-IsHosted setup id m i h = elim (Result-cases (profile setup.state_json id m).0) [
  | inr (x, e) ↦ absurd (ground (arith, e))
  | inl (r, e) ↦ elim (Bool-cases r.hosted) [
    | inr f ↦ absurd (ground (arith, e, f))
    | inl f ↦
        let m' = (profile setup.state_json id m).1 in
        let (s, reads, found) = profile_ok setup.state_json id m r e in
        elim (Result-cases (private_key setup.platform setup.manager id m').0) [
          | inr (x, g) ↦ absurd (ground (arith, e, f, g))
          | inl (key, g) ↦ record {
            state = s;
            profile = r;
            reads = reads;
            found = found;
            hosted = f;
            member = ground (arith, e, f, g);
          }
        ]
  ]
]
