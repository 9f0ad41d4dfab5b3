-- ===== src/Examples/BrokerRuns.antt =====
-- The theorems on the broker, for a guest's Agent that is asked once.
use peercontext.Common.{
  ℕ, ◌≡◌, refl, none, some, [], ◌∷◌, String, arith, bytes_beq, nat_eq, string_eq, ==_iff, bytes_eq,
}
use peercontext.Common.Dict.{lookup, insert}
use peercontext.Common.Text.{codes}
use peercontext.Errors.{Result, ok, err, plain}
use peercontext.Protocol.Time.{exceeds, sub}
use peercontext.Protocol.Platform.{Codec}
use peercontext.Protocol.Model.{
  Request, ProviderPayload, ProviderMessageType, body_sha256, succeeded,
}
use peercontext.Protocol.Signing.{
  SignedMessage, new_signed_reply, new_signed_http_message, signing_bytes, verify_message,
}
use peercontext.Protocol.Signing.Lines.{lines}
use peercontext.Lanhost.Wire.{HostIdentity}
use peercontext.Lanhost.Broker.{
  Broker, Provider, Pending, Started, new_broker, key_of, provider_key, attach, detach,
  start_dispatch, deliver, receive, check_provider_message, sanitize, good_response, match_pending,
  try_send,
}
use peercontext.Lanhost.Broker.Detach.{Woken, detach-attach, detach-Woken}
use peercontext.Lanhost.Broker.Delivery.{
  FromProvider, Delivered, PassedOn, receive_ok, receive_err, deliver-start_dispatch,
}
use peercontext.Examples.Toy.{toy, tallies, tally, marks, zeros, first_32}
use peercontext.Examples.Household.{greeting, guest_key, owner_key}

abbrev connection : ℕ → Provider
connection address = record {
  address = address;
  project_id = "p";
  agent_id = "a1";
  member_id = "guest";
  key = toy.public_key guest_key;
}

abbrev first : Provider
first = connection 1

abbrev attached : Broker
attached = (attach new_broker first).1

detach-attach_example :
    detach (attach attached (connection 2)).1 first ≡ (attach attached (connection 2)).1
detach-attach_example = detach-attach attached first (connection 2) refl (λ e. ground arith)

abbrev question : Request
question = record {
  schema_version = 2;
  id = "r1";
  project_id = "p";
  requester_id = "owner";
  agent_id = "a1";
  body = 104 ∷ 105 ∷ [];
  body_sha256 = "";
  created_at = 4;
}

abbrev reply_payload : ProviderPayload
reply_payload = record {
  schema_version = 2;
  type = ProviderMessageType.response;
  agent_id = "a1";
  request_id = "r1";
  request = none;
  response =
      some (record { schema_version = 2; request_id = "r1"; status = succeeded; answer = 7 ∷ [] });
  failure = none;
}

abbrev payloads : Codec ProviderPayload
payloads = record { marshal = λ _. some (1 ∷ []); unmarshal = λ _. some reply_payload }

abbrev identity : HostIdentity
identity = record { member_id = "owner"; private_key = owner_key }

abbrev asked : Result Started × Broker
asked = start_dispatch toy payloads attached question identity (ok "n9") 5

abbrev started : Started
started = record {
  provider = first;
  channel = 0;
  message =
      new_signed_http_message toy "p" "owner" "request" "WS" "/v2/provider" "n9" (1 ∷ []) 5
        owner_key;
}

abbrev reply : SignedMessage
reply =
    new_signed_reply toy "p" "guest" "response" "WS" "/v2/provider" "n9" "n10" (2 ∷ []) 6 guest_key

has_started : asked.0 ≡ ok started
unfolding start_dispatch attach lookup insert provider_key
has_started = refl

reply_to : reply.reply_to ≡ "n9"
unfolding new_signed_reply
reply_to = refl

empty_channel : lookup attached.next_channel attached.channels ≡ none
unfolding attach lookup
empty_channel = refl

deliver-start_dispatch_example :
    ((deliver asked.1 reply reply_payload).0 ≡ ok tt)
    × (lookup started.channel (deliver asked.1 reply reply_payload).1.channels ≡ some reply_payload)
deliver-start_dispatch_example =
    deliver-start_dispatch toy payloads attached question identity "n9" 5 started reply
      reply_payload has_started empty_channel refl reply_to
      (λ e. ground (arith, ==_iff {A = String} "n9" ""))

taken : (receive toy payloads asked.1 reply first 6).0 ≡ ok tt
unfolding receive check_provider_message sanitize good_response match_pending deliver start_dispatch
    attach lookup insert new_signed_reply verify_message exceeds sub bytes_beq signing_bytes lines
    codes tally marks tallies first_32 zeros body_sha256 try_send provider_key
taken = refl

receive_ok_example :
    FromProvider toy reply first 6
    × ((got : ProviderPayload) × (payload : ProviderPayload) × (payloads.unmarshal reply.payload
          ≡ some got)
        × PassedOn got payload
        × Delivered asked.1 reply payload (receive toy payloads asked.1 reply first 6).1)
receive_ok_example = receive_ok toy payloads asked.1 reply first 6 taken

refused :
    (receive toy payloads asked.1 greeting first 6).0
    ≡ err (plain "provider message route does not match connection")
unfolding receive check_provider_message new_signed_reply
refused = refl

receive_err_example : (receive toy payloads asked.1 greeting first 6).1 ≡ asked.1
receive_err_example =
    receive_err toy payloads asked.1 greeting first 6
      (plain "provider message route does not match connection") refused

abbrev waiting : Pending
waiting = record { provider = provider_key "p" "a1"; reply_to = "n9"; result = some 0 }

still_attached : lookup (key_of first) asked.1.providers ≡ some first
unfolding start_dispatch attach lookup insert provider_key
still_attached = refl

waits : lookup "r1" asked.1.pending ≡ some waiting
unfolding start_dispatch attach lookup insert provider_key
waits = refl

detach-Woken_example : Woken (detach asked.1 first).channels 0
detach-Woken_example = detach-Woken asked.1 first "r1" waiting 0 still_attached waits refl refl
