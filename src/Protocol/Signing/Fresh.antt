-- ===== src/Protocol/Signing/Fresh.antt =====
-- What `Verify` of pkg/protocol/v2/signing.go accepts, and that signed messages pass it.
use peercontext.Common.{
  ◌+◌, ◌≤◌, ◌≡◌, true, false, ◌||◌, String, length, arith, ◌==◌, nat_eq, string_eq,
}
use peercontext.Common.Text.{Bytes}
use peercontext.Errors.{Result, ok}
use peercontext.Protocol.Time.{Time, within_age, age_within}
use peercontext.Protocol.Platform.{Platform}
use peercontext.Protocol.Model.{default_signature_max_age}
use peercontext.Protocol.Signing.{
  SignedMessage, incomplete, signing_bytes, verify_message, new_signed_reply, public_key_size,
}

module _ (p : Platform) (m : SignedMessage) (key : Bytes) (now : Time) where
  -- `Verify` with the two minutes that its callers give
  abbrev verified : Result (Unit {0})
  verified = verify_message p m key now default_signature_max_age

  -- A message that verifies was complete, under a key of the right size, signed by that key, and
  -- its time and the clock are at most two minutes apart.
  pub record IsVerified : Type 0 where
    pub complete : incomplete p m ≡ false
    pub key_size : length key ≡ public_key_size
    pub not_old : now ≤ m.timestamp + default_signature_max_age
    pub not_early : m.timestamp ≤ now + default_signature_max_age
    pub genuine : p.verify key (signing_bytes p m) m.signature ≡ true

  -- A message that `Verify` accepts under a key at a time, with the age of two minutes, is complete,
  -- its key has 32 bytes, its time and that time are at most two minutes apart, and its signature is
  -- one of the key over its signed bytes.
  pub verify_message-IsVerified : verified ≡ ok tt → IsVerified
  unfolding verify_message
  verify_message-IsVerified h = record {
    complete = ground arith;
    key_size = ground arith;
    not_old = (within_age now m.timestamp default_signature_max_age (omega arith) (ground arith)).0;
    not_early =
        (within_age now m.timestamp default_signature_max_age (omega arith) (ground arith)).1;
    genuine = ground arith;
  }

  pub IsVerified-verify_message : IsVerified → verified ≡ ok tt
  unfolding verify_message
  IsVerified-verify_message v = ground (
    arith,
    v.complete,
    v.key_size,
    v.genuine,
    age_within now m.timestamp default_signature_max_age (omega arith) v.not_old v.not_early,
  )

-- A reply that is signed by a key whose signatures the public key verifies is accepted at any time
-- within two minutes of its own, when it names a project, a sender, a kind, a route and a nonce.
pub signed_reply-verifies :
    (p : Platform) (project_id sender_id kind method path reply_to nonce : String) (payload : Bytes)
    (timestamp now : Time) (private_key : Bytes)
    → ((data_ : Bytes)
        → p.verify (p.public_key private_key) data_ (p.sign private_key data_) ≡ true)
    → length (p.public_key private_key) ≡ public_key_size
    → ((project_id == "")
        || (sender_id == "")
        || (kind == "")
        || (method == "")
        || (path == "")
        || (nonce == ""))
      ≡ false
    → now ≤ timestamp + default_signature_max_age
    → timestamp ≤ now + default_signature_max_age
    → verify_message p
        (new_signed_reply p project_id sender_id kind method path reply_to nonce payload timestamp
          private_key)
        (p.public_key private_key)
        now
        default_signature_max_age
      ≡ ok tt
unfolding new_signed_reply signing_bytes
signed_reply-verifies p project_id sender_id kind method path reply_to nonce payload timestamp now
      private_key signs size named not_old not_early =
    IsVerified-verify_message p _ _ now (record {
      complete = named;
      key_size = size;
      not_old = not_old;
      not_early = not_early;
      genuine = signs _;
    })
