-- ===== src/Protocol/Invitation.antt =====
-- pkg/protocol/v2/invitation.go: invitations, their text form, and signed requests to join.
pub mod RoundTrip
use Prim.Native.String
use text.Mathlib.Text.{starts_with}
use peercontext.Common.{
  ℕ, ◌+◌, ◌≡◌, Bool, not, ◌||◌, Option, none, some, List, [], ◌∷◌, ◌++◌, String, length, ltb, ◌==◌,
  nat_eq, string_eq, if◌then◌else◌,
}
use peercontext.Common.Text.{Bytes, codes, concat, trim_space}
use peercontext.Errors.{
  GoError, sentinel, plain, wrap, invalid_invitation, invitation_expired, clock_skew,
  signature_invalid, Result, ok, err, ◌>>◌, ◌>>=◌, fail_if, or_error,
}
use peercontext.Protocol.Time.{Time, sub, exceeds}
use peercontext.Protocol.Platform.{Platform, Codec}
use peercontext.Protocol.Model.{schema_version, protocol_version, invitation_prefix}
use peercontext.Protocol.Signing.Lines.{lines}
use peercontext.Protocol.Signing.{public_key_size, private_key_size}

pub record Invitation : Type 0 where
  pub schema_version : ℕ
  pub protocol_version : String
  pub project_id : String
  pub project_name : String
  pub endpoints : List String
  pub host_public_key : Bytes
  pub invite_id : String
  pub invite_private_key : Bytes
  pub expires_at : Time

-- fmt.Errorf("%w: text", ErrInvalidInvitation)
abbrev pub invalid : String → GoError
invalid text = wrap (sentinel invalid_invitation) text

-- (i Invitation) Validate(now)
unfoldable pub validate_invitation : Invitation → Time → Result (Unit {0})
validate_invitation i now = do
  fail_if (not (i.schema_version == schema_version) || not (i.protocol_version == protocol_version))
      (invalid "unsupported version")
  fail_if (i.project_id == "" || trim_space i.project_name == "" || i.invite_id == "")
      (invalid "identity is incomplete")
  fail_if (length i.endpoints == 0) (invalid "no LAN endpoint")
  fail_if
      (not (length i.host_public_key == public_key_size)
        || not (length i.invite_private_key == private_key_size))
      (invalid "key material is invalid")
  fail_if (not (ltb now i.expires_at)) (wrap (sentinel invitation_expired) "invitation has expired")
  ok tt

-- strings.TrimPrefix(value, prefix), where the prefix is there
unfoldable pub trim_prefix : String → String → String
trim_prefix value prefix = String.slice value (String.len prefix) (String.len value)

module _ (p : Platform) (json : Codec Invitation) where
  -- EncodeInvitation, with the time that it reads from the clock
  unfoldable pub encode_invitation : Invitation → Time → Result String
  encode_invitation invitation now = do
    validate_invitation invitation now
    bytes ← or_error (json.marshal invitation) (plain "json")
    ok (concat invitation_prefix (p.base64 bytes))

  -- DecodeInvitation
  unfoldable pub decode_invitation : String → Time → Result Invitation
  decode_invitation value now = do
    fail_if (not (starts_with value invitation_prefix)) (invalid "invalid prefix")
    bytes ←
        or_error (p.base64_decode (trim_prefix value invitation_prefix))
          (invalid "decode invitation")
    invitation ← or_error (json.unmarshal bytes) (invalid "parse invitation")
    validate_invitation invitation now
    ok invitation

pub record JoinRequest : Type 0 where
  pub schema_version : ℕ
  pub project_id : String
  pub invite_id : String
  pub member_name : String
  pub member_public_key : Bytes
  pub method : String
  pub path : String
  pub nonce : String
  pub timestamp : Time
  pub signature : Bytes

module _ (p : Platform) where
  unfoldable pub join_signing_bytes : JoinRequest → Bytes
  join_signing_bytes j = lines (
      codes "peerctx-join-v2"
      ∷ codes j.project_id
      ∷ codes j.invite_id
      ∷ codes j.member_name
      ∷ codes (p.base64 j.member_public_key)
      ∷ codes j.method
      ∷ codes j.path
      ∷ codes j.nonce
      ∷ codes (p.format_time j.timestamp)
      ∷ [])

  -- (j *JoinRequest) Sign(privateKey)
  unfoldable pub sign_join : JoinRequest → Bytes → JoinRequest
  unfolding join_signing_bytes
  sign_join j key = record j { signature = p.sign key (join_signing_bytes j) }

  -- (j JoinRequest) Verify(publicKey, now, maxAge)
  unfoldable pub verify_join : JoinRequest → Bytes → Time → ℕ → Result (Unit {0})
  verify_join j key now max_age = do
    fail_if
        (not (j.schema_version == schema_version)
          || j.project_id == ""
          || j.invite_id == ""
          || trim_space j.member_name == ""
          || j.method == ""
          || j.path == ""
          || j.nonce == "")
        (plain "join request is incomplete")
    fail_if (not (length j.member_public_key == public_key_size))
        (plain "member public key is invalid")
    fail_if (exceeds (sub now j.timestamp) max_age)
        (wrap (sentinel clock_skew) "join request exceeds limit")
    fail_if (not (p.verify key (join_signing_bytes j) j.signature))
        (wrap (sentinel signature_invalid) "join request")
    ok tt
