-- ===== src/Discovery/Answered.antt =====
-- That what `handleIdentity` of internal/lanhost/server.go answers passes the check of
-- `validateCandidates` of internal/discovery/mdns.go.
use peercontext.Common.{
  ◌≡◌, ◌≢◌, ◌≤◌, ◌+◌, refl, sym, subst, ℕ, true, false, some, String, length, arith, Bool-cases,
  inl, inr, ◌==◌, nat_eq, string_eq, ==_iff, ==_refl,
}
use peercontext.Common.Text.{Bytes}
use peercontext.Errors.{ok, Result-cases}
use peercontext.Protocol.Time.{Time}
use peercontext.Protocol.Platform.{Platform}
use peercontext.Protocol.Model.{default_signature_max_age}
use peercontext.Protocol.Signing.{
  SignedMessage, new_signed_reply, public_key_size, private_key_size,
}
use peercontext.Protocol.Signing.Fresh.{signed_reply-verifies}
use peercontext.Lanhost.Wire.{HostIdentity, RpcResult}
use peercontext.Lanhost.Store.Projects.{project}
use peercontext.Lanhost.Server.Host.{
  Host, Json, World, signed_body, write_signed, sign_with, on_store,
}
use peercontext.Lanhost.Server.Join.{handle_identity, identity_reply}
use peercontext.Discovery.{is_identity, is_verified, check_candidate}

module _ (p : Platform) (json : Json) (w : World) (project_id challenge : String)
    (identity : HostIdentity) where
  -- The answer is a signed message of this host for the Project, in reply to the challenge.
  pub record IsAnswer (m : SignedMessage) : Type 0 where
    pub nonce : String
    pub drawn : w.nonce ≡ ok nonce
    pub payload : Bytes
    pub message :
        m
        ≡ new_signed_reply p project_id identity.member_id "identity.response" "GET" "/v2/identity"
            challenge nonce payload w.later identity.private_key

  sign_with-IsAnswer :
      (result : RpcResult) (status : ℕ) (m : SignedMessage)
      → sign_with p json w project_id "identity.response" "GET" "/v2/identity" challenge result 200
          identity
        ≡ signed_body status m
      → IsAnswer m
  unfolding sign_with
  sign_with-IsAnswer result status m h =
      elim (Bool-cases (length identity.private_key == private_key_size)) [
        | inr e ↦ absurd (ground (arith, e))
        | inl e ↦ elim (Result-cases w.nonce) [
          | inr (x, f) ↦ absurd (ground (arith, e, f))
          | inl (n, f) ↦ record {
            nonce = n;
            drawn = f;
            payload = json.marshal_result result;
            message = ground (arith, e, f);
          }
        ]
      ]

  handle_identity-IsAnswer :
      (s : Host) (status : ℕ) (m : SignedMessage)
      → w.host_identity project_id ≡ ok identity
      → (handle_identity p json w project_id challenge s).0 ≡ signed_body status m
      → IsAnswer m
  unfolding handle_identity identity_reply write_signed
  handle_identity-IsAnswer s status m known h = elim (Bool-cases (challenge == "")) [
    | inl e ↦ absurd (ground (arith, e))
    | inr e ↦ elim (Result-cases (on_store (project p project_id) s).0) [
      | inr (x, f) ↦ absurd (ground (arith, e, f))
      | inl (found, f) ↦
          sign_with-IsAnswer _ status m
            (rw (e, handle_identity, f, identity_reply, write_signed, known) at h)
    ]
  ]

  reply-is_identity :
      (nonce : String) (payload : Bytes)
      → is_identity project_id challenge (
          new_signed_reply p project_id identity.member_id "identity.response" "GET" "/v2/identity"
            challenge nonce payload w.later identity.private_key)
        ≡ true
  unfolding is_identity new_signed_reply
  reply-is_identity nonce payload = ground (arith, ==_refl project_id, ==_refl challenge)

  -- A signed answer of `handleIdentity` passes the check of a candidate, under the public key of the
  -- identity that the host has for the Project, given that signatures of its key verify, that the
  -- public key has 32 bytes, that the Project, the member and the nonce have a name, and that the
  -- clocks are at most two minutes apart.
  pub check_candidate-handle_identity :
      (s : Host) (status : ℕ) (m : SignedMessage) (at : Time)
      → w.host_identity project_id ≡ ok identity
      → ((data_ : Bytes)
          → p.verify (p.public_key identity.private_key) data_ (p.sign identity.private_key data_)
            ≡ true)
      → length (p.public_key identity.private_key) ≡ public_key_size
      → project_id ≢ ""
      → identity.member_id ≢ ""
      → w.nonce ≢ ok ""
      → at ≤ w.later + default_signature_max_age
      → w.later ≤ at + default_signature_max_age
      → (handle_identity p json w project_id challenge s).0 ≡ signed_body status m
      → check_candidate p project_id
          (p.public_key identity.private_key)
          (record { challenge = some challenge; answer = λ _. ok m; at = at })
        ≡ true
  unfolding check_candidate is_verified
  check_candidate-handle_identity s status m at known signs size has_project has_member has_nonce
        not_old not_early h =
      let a = handle_identity-IsAnswer s status m known h in
      let named : (a.nonce == "") ≡ false = elim (Bool-cases (a.nonce == "")) [
        | inl e ↦ absurd (ground (arith, e, a.drawn, has_nonce, ==_iff a.nonce ""))
        | inr e ↦ e
      ] in
      subst
        (λ (x : SignedMessage).
          check_candidate p project_id (p.public_key identity.private_key)
            (record { challenge = some challenge; answer = λ _. ok x; at = at })
          ≡ true)
        (sym a.message)
        (rw
          (
            check_candidate,
            reply-is_identity a.nonce a.payload,
            signed_reply-verifies p project_id identity.member_id "identity.response" "GET"
                "/v2/identity" challenge a.nonce a.payload w.later at identity.private_key signs
                size (ground (arith, named, ==_iff project_id "", ==_iff identity.member_id ""))
                not_old not_early,
          )
          refl)
