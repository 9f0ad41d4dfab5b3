-- ===== src/Lanhost/Server/Auth.antt =====
-- `authenticate` of internal/lanhost/server.go.
pub mod Once
use peercontext.Common.{ℕ, ◌≡◌, Bool, not, ◌||◌, String, ◌==◌, string_eq, if◌then◌else◌}
use peercontext.Errors.{GoError, plain, Result, ok, err, fail_if}
use peercontext.Errors
use peercontext.Protocol.Time.{Time}
use peercontext.Protocol.Platform.{Platform}
use peercontext.Protocol.Model.{Member, default_signature_max_age}
use peercontext.Protocol.Signing.{SignedMessage, verify_message}
use peercontext.Lanhost.Store.Members.{member}
use peercontext.Lanhost.Replay.{accept}
use peercontext.Lanhost.Remote.{checked_public_key}
use peercontext.Lanhost.Server.Host.{Host, on_store}

module _ (p : Platform) where
  -- the checks between the store and the nonces
  unfoldable pub check_message : SignedMessage → String → String → Time → Member → Result (Unit {0})
  unfolding checked_public_key
  check_message m method path now sender =
      Errors.◌>>◌
        (fail_if (not (m.method == method) || not (m.path == path))
          (plain "signed message route does not match HTTP request"))
        (Errors.◌>>=◌ (checked_public_key sender.public_key)
          (λ key. verify_message p m key now default_signature_max_age))

  unfoldable pub note_nonce : SignedMessage → Time → Member → Host → Result Member × Host
  note_nonce m now sender s =
      let (r, replays) = accept s.replays m now in
      (Errors.◌>>=◌ r (λ _. ok sender), record s { replays = replays })

  unfoldable pub admit :
      SignedMessage → String → String → Time → Member → Host → Result Member × Host
  unfolding note_nonce check_message
  admit m method path now sender s = elim (check_message m method path now sender) [
    | err e ↦ (err e, s)
    | ok _ ↦ note_nonce m now sender s
  ]

  unfoldable pub admit_found :
      SignedMessage → String → String → Time → Result Member → Host → Result Member × Host
  unfolding admit
  admit_found m method path now (err e) s = (err e, s)
  admit_found m method path now (ok sender) s = admit m method path now sender s

  -- authenticate, at the time `now` that it reads
  unfoldable pub authenticate : SignedMessage → String → String → Time → Host → Result Member × Host
  unfolding admit_found on_store
  authenticate m method path now s =
      let (found, s') = on_store (member p m.project_id m.sender_id) s in
      admit_found m method path now found s'
