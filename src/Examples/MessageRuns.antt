-- ===== src/Examples/MessageRuns.antt =====
-- The theorems on messages, invitations and errors, at small values.
use peercontext.Common.{
  ◌≡◌, ◌<◌, ◌≤◌, ◌+◌, refl, false, some, List, [], ◌∷◌, String, arith, any, All, ==_iff, length,
  ◌==◌, nat_eq, string_eq, bytes_eq,
}
use peercontext.Common.Text.{Bytes, codes, trim_space, trim_left, trim_right, is_space}
use peercontext.Errors.{ok, wrap, sentinel, not_found, errors_is, message}
use peercontext.Failure.{normalize, as_structured, new}
use peercontext.Failure.Crossing.{received, normalize-received}
use peercontext.Protocol.Time.{hour}
use peercontext.Protocol.Platform.{Codec}
use peercontext.Protocol.Model.{body_sha256, default_signature_max_age}
use peercontext.Protocol.Signing.{
  new_signed_reply, signing_bytes, verify_message, public_key_size, signed_fields, SignedMessage,
}
use peercontext.Protocol.Signing.Lines.{IsLine}
use peercontext.Protocol.Signing.Binding.{IsPlain, SameSigned, signing_bytes_inj}
use peercontext.Protocol.Signing.Fresh.{
  IsVerified, verify_message-IsVerified, signed_reply-verifies,
}
use peercontext.Protocol.Invitation.{
  Invitation, validate_invitation, encode_invitation, decode_invitation,
}
use peercontext.Protocol.Invitation.RoundTrip.{decode-encode, decode-valid}
use peercontext.Lanhost.Server.Invite.{invite_ttl, add_duration}
use peercontext.Lanhost.Server.Invite.Ttl.{add_duration-invite_ttl, add_duration-invite_ttl_wraps}
use peercontext.Common.Int.{pos}
use peercontext.Examples.Toy.{toy, tallies, tally, marks, zeros, first_32, toy-reads, toy-signs}
use peercontext.Examples.Household.{greeting, guest_key, owner_key}

pub guest_key_size : length (toy.public_key guest_key) ≡ public_key_size
unfolding first_32 zeros
guest_key_size = refl

signed_reply-verifies_example :
    verify_message toy greeting (toy.public_key guest_key) 6 default_signature_max_age ≡ ok tt
signed_reply-verifies_example =
    signed_reply-verifies toy "p" "guest" "members.list" "POST" "/v2/rpc" "" "n1" [] 5 6 guest_key
      (toy-signs guest_key) guest_key_size refl (omega arith) (omega arith)

greeting_verified :
    verify_message toy greeting (toy.public_key guest_key) 6 default_signature_max_age ≡ ok tt
greeting_verified =
    signed_reply-verifies toy "p" "guest" "members.list" "POST" "/v2/rpc" "" "n1" [] 5 6 guest_key
      (toy-signs guest_key) guest_key_size refl (omega arith) (omega arith)

verify_message-IsVerified_example : IsVerified toy greeting (toy.public_key guest_key) 6
verify_message-IsVerified_example =
    verify_message-IsVerified toy greeting (toy.public_key guest_key) 6 greeting_verified

no_newline : (b : Bytes) → any (λ c. c == 10) b ≡ false → IsLine b
unfolding any
no_newline [] h = tt
no_newline (c ∷ b) h = (λ e. ground (arith, ==_iff c 10), no_newline b (ground arith))

all_plain : (bs : List Bytes) → any (λ b. any (λ c. c == 10) b) bs ≡ false → All IsLine bs
unfolding any
all_plain [] h = tt
all_plain (b ∷ bs) h = (no_newline b (ground arith), all_plain bs (ground arith))

greeting-IsPlain : IsPlain toy greeting
unfolding any codes tally marks body_sha256 new_signed_reply tallies
greeting-IsPlain = all_plain (signed_fields toy greeting) refl

-- the signature is not signed
abbrev unsigned : SignedMessage
unsigned = record greeting { signature = [] }

unsigned-IsPlain : IsPlain toy unsigned
unfolding any codes tally marks body_sha256 new_signed_reply tallies
unsigned-IsPlain = all_plain (signed_fields toy unsigned) refl

same_bytes : signing_bytes toy greeting ≡ signing_bytes toy unsigned
unfolding signing_bytes
same_bytes = refl

signing_bytes_inj_example : SameSigned toy greeting unsigned
signing_bytes_inj_example =
    signing_bytes_inj toy greeting unsigned greeting-IsPlain unsigned-IsPlain same_bytes

abbrev invitation : Invitation
invitation = record {
  schema_version = 2;
  protocol_version = "v2";
  project_id = "p";
  project_name = "Garden";
  endpoints = "http://10.0.0.2:7777" ∷ [];
  host_public_key = toy.public_key owner_key;
  invite_id = "inv_1";
  invite_private_key = zeros 64;
  expires_at = 9;
}

abbrev letters : Codec Invitation
letters = record { marshal = λ _. some (7 ∷ []); unmarshal = λ _. some invitation }

abbrev text : String
text = "peerctx2_11111110"

encoded : encode_invitation toy letters invitation 5 ≡ ok text
unfolding encode_invitation validate_invitation trim_space trim_left trim_right is_space first_32
    zeros tallies marks
encoded = refl

valid : validate_invitation invitation 6 ≡ ok tt
unfolding validate_invitation trim_space trim_left trim_right is_space first_32 zeros
valid = refl

decode-encode_example : decode_invitation toy letters text 6 ≡ ok invitation
decode-encode_example =
    decode-encode toy letters toy-reads invitation (λ b h. refl) text 5 6 encoded valid

decoded_text : decode_invitation toy letters text 6 ≡ ok invitation
decoded_text = decode-encode toy letters toy-reads invitation (λ b h. refl) text 5 6 encoded valid

decode-valid_example : validate_invitation invitation 6 ≡ ok tt
decode-valid_example = decode-valid toy letters text 6 invitation decoded_text

add_duration-invite_ttl_example : add_duration 5 (invite_ttl (pos 60)) ≤ 5 + hour
add_duration-invite_ttl_example = add_duration-invite_ttl (pos 60) 5

add_duration-invite_ttl_wraps_example : add_duration 5 (invite_ttl (pos 10_000_000_000)) < 5
add_duration-invite_ttl_wraps_example =
    add_duration-invite_ttl_wraps 10_000_000_000 5 (omega arith) (omega arith) (omega arith)

made :
    normalize (some (wrap (sentinel not_found) "p"))
    ≡ some (new "peerctx_error" "not found: p" false)
unfolding normalize errors_is as_structured new message
made = refl

normalize-received_example :
    normalize (some (received (new "peerctx_error" "not found: p" false)))
    ≡ normalize (some (wrap (sentinel not_found) "p"))
normalize-received_example =
    normalize-received (some (wrap (sentinel not_found) "p"))
      (new "peerctx_error" "not found: p" false) made
