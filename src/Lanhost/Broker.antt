-- ===== src/Lanhost/Broker.antt =====
-- internal/lanhost/broker.go: the providers that are connected, and the requests that wait for them.
-- Each function holds the lock of the source for its whole run; `dispatch` of the source, which
-- lets go of it while it waits, is `start_dispatch`, what others do, and `finish_dispatch`.
pub mod Detach
pub mod Delivery
use Prim.Native.String
use peercontext.Common.{
  ℕ, suc, ◌≡◌, Bool, true, false, not, ◌&&◌, ◌||◌, Option, none, some, List, [], ◌∷◌, String,
  length, ltb, ◌==◌, nat_eq, string_eq, if◌then◌else◌,
}
use peercontext.Common.Text.{Bytes, concat}
use peercontext.Common.Dict.{Dict, lookup, insert, delete}
use peercontext.Errors.{GoError, sentinel, plain, agent_offline, Result, ok, err, or_error, fail_if}
use peercontext.Errors
use peercontext.Protocol.Time.{Time}
use peercontext.Protocol.Platform.{Platform, Codec}
use peercontext.Protocol.Model.{
  Request, Response, RequestFailure, ProviderPayload, ProviderMessageType, max_response_body_bytes,
  default_signature_max_age,
}
use peercontext.Protocol.Signing.{SignedMessage, verify_message, new_signed_http_message}
use peercontext.Lanhost.Replay.{zero_byte}
use peercontext.Lanhost.Wire.{HostIdentity}

-- a *providerConnection; `address` tells pointers apart
pub record Provider : Type 0 where
  pub address : ℕ
  pub project_id : String
  pub agent_id : String
  pub member_id : String
  pub key : Bytes

-- `result` is the channel's number, none for a nil channel
pub record Pending : Type 0 where
  pub provider : String
  pub reply_to : String
  pub result : Option ℕ

-- A channel has room for one value: the entry of `channels`, if it was sent and not yet received.
pub record Broker : Type 0 where
  pub providers : Dict String Provider
  pub pending : Dict String Pending
  pub channels : Dict ℕ ProviderPayload
  pub next_channel : ℕ

-- newBroker
abbrev pub new_broker : Broker
new_broker = record { providers = []; pending = []; channels = []; next_channel = 0 }

-- providerKey
unfoldable pub provider_key : String → String → String
provider_key project_id agent_id = concat project_id (concat zero_byte agent_id)

abbrev pub key_of : Provider → String
key_of p = provider_key p.project_id p.agent_id

-- attach, with the provider that it replaces
unfoldable pub attach : Broker → Provider → Option Provider × Broker
attach b provider = (
  lookup (key_of provider) b.providers,
  record b { providers = insert (key_of provider) provider b.providers },
)

-- select { case result <- payload: default: }
unfoldable pub try_send :
    Option ℕ → ProviderPayload → Dict ℕ ProviderPayload → Dict ℕ ProviderPayload
try_send none payload channels = channels
try_send (some c) payload channels = elim (lookup c channels) [
  | some _ ↦ channels
  | none ↦ insert c payload channels
]

unfoldable pub disconnected : String → String → ProviderPayload
disconnected agent_id request_id = record {
  schema_version = 2;
  type = ProviderMessageType.failure;
  agent_id = agent_id;
  request_id = request_id;
  request = none;
  response = none;
  failure = some (record {
    schema_version = 2;
    request_id = request_id;
    code = "agent_offline";
    message = "Agent disconnected while handling the request";
    retryable = true;
  });
}

-- for requestID, pending := range b.pending { if pending.provider == key { … } }
unfoldable pub fail_pending :
    String → String → Dict String Pending → Dict ℕ ProviderPayload → Dict ℕ ProviderPayload
unfolding try_send disconnected
fail_pending key agent_id [] channels = channels
fail_pending key agent_id ((request_id, pending) ∷ rest) channels = fail_pending key agent_id rest (
    if pending.provider == key
    then try_send pending.result (disconnected agent_id request_id) channels
    else channels)

abbrev is_attached : Broker → Provider → Bool
is_attached b provider = elim (lookup (key_of provider) b.providers) [
  | none ↦ false
  | some q ↦ q.address == provider.address
]

-- detach
unfoldable pub detach : Broker → Provider → Broker
unfolding fail_pending
detach b provider =
    if is_attached b provider
    then record b {
      providers = delete (key_of provider) b.providers;
      channels = fail_pending (key_of provider) provider.agent_id b.pending b.channels;
    }
    else b

-- What `dispatch` has in hand when it lets go of the lock: the connection, the channel to wait on,
-- and the message that it writes.
pub record Started : Type 0 where
  pub provider : Provider
  pub channel : ℕ
  pub message : SignedMessage

request_payload : Request → ProviderPayload
request_payload r = record {
  schema_version = 2;
  type = ProviderMessageType.request;
  agent_id = r.agent_id;
  request_id = r.id;
  request = some r;
  response = none;
  failure = none;
}

-- the deferred delete(b.pending, request.ID)
unfoldable pub finish_dispatch : Broker → String → Broker
finish_dispatch b request_id = record b { pending = delete request_id b.pending }

module _ (p : Platform) (json : Codec ProviderPayload) where
  -- the part of `dispatch` up to the write. `nonce` is what newNonce returns.
  unfoldable pub start_dispatch :
      Broker → Request → HostIdentity → Result String → Time → Result Started × Broker
  unfolding request_payload new_signed_http_message
  start_dispatch b r identity nonce now =
      elim (lookup (provider_key r.project_id r.agent_id) b.providers) [
        | none ↦ (err (sentinel agent_offline), b)
        | some provider ↦ elim (json.marshal (request_payload r)) [
          | none ↦ (err (plain "json"), b)
          | some payload ↦ elim nonce [
            | err e ↦ (err e, b)
            | ok n ↦ (
              ok (record {
                provider = provider;
                channel = b.next_channel;
                message =
                    new_signed_http_message p r.project_id identity.member_id "request" "WS"
                      "/v2/provider" n payload now identity.private_key;
              }),
              record b {
                pending =
                    insert r.id
                      (record {
                        provider = provider_key r.project_id r.agent_id;
                        reply_to = n;
                        result = some b.next_channel;
                      })
                      b.pending;
                next_channel = suc b.next_channel;
              },
            )
          ]
        ]
      ]

  -- the checks of `receive` before it looks for the request
  unfoldable pub check_provider_message : SignedMessage → Provider → Time → Result ProviderPayload
  check_provider_message m provider now =
      Errors.◌>>◌
        (fail_if
          (not (m.project_id == provider.project_id) || not (m.sender_id == provider.member_id))
          (plain "provider identity does not match connection"))
        (Errors.◌>>◌
          (fail_if (not (m.method == "WS") || not (m.path == "/v2/provider"))
            (plain "provider message route does not match connection"))
          (Errors.◌>>◌ (verify_message p m provider.key now default_signature_max_age)
            (or_error (json.unmarshal m.payload) (plain "json"))))

-- A response is good if it is there, answers the request that it names, and is not too long.
unfoldable pub good_response : ProviderPayload → Bool
good_response payload = elim payload.response [
  | none ↦ false
  | some r ↦
      r.request_id == payload.request_id && not (ltb max_response_body_bytes (length r.answer))
]

unfoldable pub invalid_response : ProviderPayload → ProviderPayload
invalid_response payload = record payload {
  type = ProviderMessageType.failure;
  response = none;
  failure = some (record {
    schema_version = 2;
    request_id = payload.request_id;
    code = "provider_protocol_error";
    message = "provider response is invalid";
    retryable = false;
  });
}

-- The payload that is passed on: only responses and failures, and a bad response as a failure.
unfoldable pub sanitize : ProviderMessageType → ProviderPayload → Result ProviderPayload
unfolding good_response invalid_response
sanitize ProviderMessageType.response payload =
    ok (if good_response payload then payload else invalid_response payload)
sanitize ProviderMessageType.failure payload = ok payload
sanitize _ payload = err (plain "unexpected provider message")

-- the request that waits, if the message answers it
unfoldable pub match_pending : Option Pending → SignedMessage → Result (Option ℕ)
match_pending none m = err (plain "provider response does not match the active request")
match_pending (some pending) m =
    if pending.reply_to == "" || not (m.reply_to == pending.reply_to)
    then err (plain "provider response does not match the active request")
    else ok pending.result

unfoldable pub deliver : Broker → SignedMessage → ProviderPayload → Result (Unit {0}) × Broker
unfolding match_pending try_send
deliver b m payload = elim (match_pending (lookup payload.request_id b.pending) m) [
  | err e ↦ (err e, b)
  | ok channel ↦ (ok tt, record b { channels = try_send channel payload b.channels })
]

deliver_if_ok : Broker → SignedMessage → Result ProviderPayload → Result (Unit {0}) × Broker
unfolding deliver
deliver_if_ok b m (err e) = (err e, b)
deliver_if_ok b m (ok payload) = deliver b m payload

module _ (p : Platform) (json : Codec ProviderPayload) where
  -- receive
  unfoldable pub receive : Broker → SignedMessage → Provider → Time → Result (Unit {0}) × Broker
  unfolding check_provider_message sanitize deliver_if_ok
  receive b m provider now = deliver_if_ok b m (
      Errors.◌>>=◌ (check_provider_message p json m provider now)
        (λ payload. sanitize payload.type payload))
