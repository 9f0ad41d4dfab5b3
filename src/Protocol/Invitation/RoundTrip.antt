-- ===== src/Protocol/Invitation/RoundTrip.antt =====
-- Invitations come back from their text, `EncodeInvitation` and `DecodeInvitation`.
use text.Mathlib.TextPositions.{starts_with-append, slice-append_right, len-append}
use peercontext.Common.{◌≡◌, some, String, arith, Option-cases, inl, inr, subst}
use peercontext.Common.Text.{Bytes, concat}
use peercontext.Errors.{ok}
use peercontext.Protocol.Time.{Time}
use peercontext.Protocol.Platform.{Platform, Codec}
use peercontext.Protocol.Model.{invitation_prefix}
use peercontext.Protocol.Invitation.{
  Invitation, validate_invitation, trim_prefix, encode_invitation, decode_invitation,
}

trim_prefix-concat : (prefix rest : String) → trim_prefix (concat prefix rest) prefix ≡ rest
unfolding trim_prefix
trim_prefix-concat prefix rest = rw (len-append prefix rest) (slice-append_right prefix rest)

module _ (p : Platform) (json : Codec Invitation) where
  -- What `EncodeInvitation` writes, `DecodeInvitation` reads back as the same invitation as long as
  -- it is still valid, provided that base64 reads back what it writes, and JSON the
  -- text of this invitation.
  pub decode-encode :
      ((b : Bytes) → p.base64_decode (p.base64 b) ≡ some b)
      → (i : Invitation) → ((b : Bytes) → json.marshal i ≡ some b → json.unmarshal b ≡ some i)
      → (text : String) (written read : Time) → encode_invitation p json i written ≡ ok text
      → validate_invitation i read ≡ ok tt
      → decode_invitation p json text read ≡ ok i
  unfolding encode_invitation decode_invitation
  decode-encode base64_reads i json_reads text written read e v =
      elim (Option-cases (json.marshal i)) [
        | inl h ↦ ground arith
        | inr (b, h) ↦
            let written_text : concat invitation_prefix (p.base64 b) ≡ text = ground (arith, h) in
            subst (λ t. decode_invitation p json t read ≡ ok i) written_text
              (rw
                (
                  starts_with-append invitation_prefix (p.base64 b),
                  trim_prefix-concat invitation_prefix (p.base64 b),
                  base64_reads b,
                  json_reads b h,
                )
                (ground (arith, v)))
      ]

  -- Whatever text `DecodeInvitation` accepts at a time, the invitation that it returns is valid then.
  pub decode-valid :
      (text : String) (now : Time) (i : Invitation)
      → decode_invitation p json text now ≡ ok i
      → validate_invitation i now ≡ ok tt
  unfolding decode_invitation
  decode-valid text now i e = ground arith
