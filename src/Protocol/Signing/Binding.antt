-- ===== src/Protocol/Signing/Binding.antt =====
-- What a signature of pkg/protocol/v2/signing.go fixes: the signed bytes determine the fields.
use peercontext.Common.{◌≡◌, All}
use peercontext.Protocol.Platform.{Platform}
use peercontext.Protocol.Model.{body_sha256}
use peercontext.Protocol.Signing.Lines.{IsLine, lines_inj, codes_inj}
use peercontext.Protocol.Signing.{SignedMessage, signed_fields, signing_bytes}

-- No field of the message holds a newline.
abbrev pub IsPlain : Platform → SignedMessage → Type 0
IsPlain p m = All IsLine (signed_fields p m)

-- Two messages agree on everything that is signed; of the payload it is the digest.
pub record SameSigned (p : Platform) (m n : SignedMessage) : Type 0 where
  pub project_id : m.project_id ≡ n.project_id
  pub sender_id : m.sender_id ≡ n.sender_id
  pub kind : m.kind ≡ n.kind
  pub method : m.method ≡ n.method
  pub path : m.path ≡ n.path
  pub reply_to : m.reply_to ≡ n.reply_to
  pub nonce : m.nonce ≡ n.nonce
  pub timestamp : p.format_time m.timestamp ≡ p.format_time n.timestamp
  pub payload : body_sha256 p m.payload ≡ body_sha256 p n.payload

signed_fields_inj :
    (p : Platform) (m n : SignedMessage) → signed_fields p m ≡ signed_fields p n → SameSigned p m n
signed_fields_inj p m n e = record {
  project_id = codes_inj m.project_id n.project_id (cc);
  sender_id = codes_inj m.sender_id n.sender_id (cc);
  kind = codes_inj m.kind n.kind (cc);
  method = codes_inj m.method n.method (cc);
  path = codes_inj m.path n.path (cc);
  reply_to = codes_inj m.reply_to n.reply_to (cc);
  nonce = codes_inj m.nonce n.nonce (cc);
  timestamp = codes_inj (p.format_time m.timestamp) (p.format_time n.timestamp) (cc);
  payload = codes_inj (body_sha256 p m.payload) (body_sha256 p n.payload) (cc);
}

-- Messages whose fields hold no newline have the same signed bytes only if they agree on every
-- signed field.
pub signing_bytes_inj :
    (p : Platform) (m n : SignedMessage)
    → IsPlain p m
    → IsPlain p n
    → signing_bytes p m ≡ signing_bytes p n
    → SameSigned p m n
unfolding signing_bytes
signing_bytes_inj p m n hm hn e =
    signed_fields_inj p m n
      (lines_inj (signed_fields p m) (signed_fields p n) hm hn (λ h. cc) (λ h. cc) e)
