-- ===== src/Protocol/Signing.antt =====
-- pkg/protocol/v2/signing.go: signed messages. `Signing/` proves that a signature fixes every field.
pub mod Lines
pub mod Fresh
pub mod Binding
use peercontext.Common.{
  ℕ, ◌+◌, ◌≡◌, Bool, not, ◌||◌, List, [], ◌∷◌, ◌++◌, String, length, ◌==◌, nat_eq, string_eq,
}
use peercontext.Common.Text.{Bytes, codes, concat}
use peercontext.Errors.{
  GoError, sentinel, plain, wrap, clock_skew, signature_invalid, Result, ok, err, ◌>>◌, fail_if,
}
use peercontext.Protocol.Time.{Time, sub, exceeds}
use peercontext.Protocol.Platform.{Platform}
use peercontext.Protocol.Model.{schema_version, body_sha256}
use Lines.{lines}

-- ed25519.PublicKeySize, ed25519.PrivateKeySize
abbrev pub public_key_size : ℕ
public_key_size = 32

abbrev pub private_key_size : ℕ
private_key_size = 64

pub record SignedMessage : Type 0 where
  pub schema_version : ℕ
  pub project_id : String
  pub sender_id : String
  pub kind : String
  pub method : String
  pub path : String
  pub reply_to : String
  pub nonce : String
  pub timestamp : Time
  pub payload : Bytes
  pub signature : Bytes

module _ (p : Platform) where
  -- the fields that `fmt.Sprintf` sets one to a line
  abbrev pub signed_fields : SignedMessage → List Bytes
  signed_fields m =
      codes "peerctx-message-v2"
      ∷ codes m.project_id
      ∷ codes m.sender_id
      ∷ codes m.kind
      ∷ codes m.method
      ∷ codes m.path
      ∷ codes m.reply_to
      ∷ codes m.nonce
      ∷ codes (p.format_time m.timestamp)
      ∷ codes (body_sha256 p m.payload)
      ∷ []

  unfoldable pub signing_bytes : SignedMessage → Bytes
  signing_bytes m = lines (signed_fields m)

  signed : SignedMessage → Bytes → SignedMessage
  signed m key = record m { signature = p.sign key (signing_bytes m) }

  -- NewSignedReply
  unfoldable pub new_signed_reply :
      (project_id sender_id kind method path reply_to nonce : String) (payload : Bytes)
      (timestamp : Time) (private_key : Bytes)
      → SignedMessage
  unfolding signed
  new_signed_reply project_id sender_id kind method path reply_to nonce payload timestamp
        private_key =
      signed
        (record {
          schema_version = 2;
          project_id = project_id;
          sender_id = sender_id;
          kind = kind;
          method = method;
          path = path;
          reply_to = reply_to;
          nonce = nonce;
          timestamp = timestamp;
          payload = payload;
          signature = [];
        })
        private_key

  -- NewSignedHTTPMessage
  unfoldable pub new_signed_http_message :
      (project_id sender_id kind method path nonce : String) (payload : Bytes) (timestamp : Time)
      (private_key : Bytes)
      → SignedMessage
  unfolding signed
  new_signed_http_message project_id sender_id kind method path nonce payload timestamp
        private_key =
      signed
        (record {
          schema_version = 2;
          project_id = project_id;
          sender_id = sender_id;
          kind = kind;
          method = method;
          path = path;
          reply_to = "";
          nonce = nonce;
          timestamp = timestamp;
          payload = payload;
          signature = [];
        })
        private_key

  -- NewSignedMessage
  unfoldable pub new_signed_message :
      (project_id sender_id kind nonce : String) (payload : Bytes) (timestamp : Time)
      (private_key : Bytes)
      → SignedMessage
  unfolding new_signed_http_message
  new_signed_message project_id sender_id kind nonce payload timestamp private_key =
      new_signed_http_message project_id sender_id kind "INTERNAL" (concat "/" kind) nonce payload
        timestamp private_key

  -- some field that must be there is empty, or the version is another
  abbrev pub incomplete : SignedMessage → Bool
  incomplete m =
      not (m.schema_version == schema_version)
      || m.project_id == ""
      || m.sender_id == ""
      || m.kind == ""
      || m.method == ""
      || m.path == ""
      || m.nonce == ""

  -- (m SignedMessage) Verify(publicKey, now, maxAge)
  unfoldable pub verify_message : SignedMessage → Bytes → Time → ℕ → Result (Unit {0})
  verify_message m key now max_age = do
    fail_if (incomplete m) (plain "signed message is incomplete")
    fail_if (not (length key == public_key_size)) (plain "public key is invalid")
    fail_if (exceeds (sub now m.timestamp) max_age)
        (wrap (sentinel clock_skew) "signed message exceeds limit")
    fail_if (not (p.verify key (signing_bytes m) m.signature))
        (wrap (sentinel signature_invalid) "signed message")
    ok tt

  -- PublicKeyString
  unfoldable pub public_key_string : Bytes → String
  public_key_string key = p.base64 key
