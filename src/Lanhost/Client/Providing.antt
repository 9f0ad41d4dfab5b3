-- ===== src/Lanhost/Client/Providing.antt =====
-- The loop of `runProviderEndpoint` of internal/lanhost/client.go, in which an Agent's owner answers
-- the host's requests. `Connecting` is what comes before it.
pub mod Answers
pub mod Connecting
use Prim.Native.String
use peercontext.Common.{
  ℕ, inl, inr, Bool, true, false, not, ◌||◌, Option, none, some, List, [], ◌∷◌, String, length, ltb,
  ◌==◌, nat_eq, string_eq, if◌then◌else◌,
}
use peercontext.Common.Text.{Bytes}
use peercontext.Errors.{
  GoError, sentinel, plain, agent_offline, Result, ok, err, ◌>>=◌, ◌>>◌, fail_if, or_error,
}
use peercontext.Protocol.Time.{Time}
use peercontext.Protocol.Platform.{Platform, Codec}
use peercontext.Protocol.Model.{
  Request, Response, RequestFailure, ProviderPayload, ProviderMessageType, schema_version,
  max_response_body_bytes, default_signature_max_age,
}
use peercontext.Protocol.Signing.{
  SignedMessage, verify_message, new_signed_reply, new_signed_http_message,
}
use peercontext.Lanhost.Replay.{accept}
use peercontext.Lanhost.Wire.{kind_provider_connect}
use peercontext.Lanhost.Client.{
  Client, Reading, client_endpoints, remember_endpoint, require_direct_lan_endpoint,
}

-- What the handler of a request returns.
abbrev pub Answered : Type 0
Answered = Response × Option RequestFailure

-- One round of the loop: what is read, the clock at its three readings, the handler, the nonce that
-- is drawn, and the error of the write.
pub record Frame : Type 0 where
  pub read : Result SignedMessage
  pub verified_at : Time
  pub accepted_at : Time
  pub signed_at : Time
  pub handler : Request → Answered
  pub nonce : Result String
  pub write_error : Option GoError

abbrev pub too_large : String → RequestFailure
too_large request_id = record {
  schema_version = schema_version;
  request_id = request_id;
  code = "response_too_large";
  message = "Agent response exceeds 2 MiB";
  retryable = false;
}

-- an answer that is too long is a failure
unfoldable pub failure_of : String → Answered → Option RequestFailure
failure_of request_id (response, some failure) = some failure
failure_of request_id (response, none) =
    if ltb max_response_body_bytes (length response.answer)
    then some (too_large request_id)
    else none

payload_of : String → String → Response → Option RequestFailure → ProviderPayload
payload_of agent_id request_id response (some failure) = record {
  schema_version = schema_version;
  type = ProviderMessageType.failure;
  agent_id = agent_id;
  request_id = request_id;
  request = none;
  response = none;
  failure = some failure;
}
payload_of agent_id request_id response none = record {
  schema_version = schema_version;
  type = ProviderMessageType.response;
  agent_id = agent_id;
  request_id = request_id;
  request = none;
  response = some response;
  failure = none;
}

-- the payload that goes out for an answer
unfoldable pub outgoing : String → String → Answered → ProviderPayload
unfolding payload_of failure_of
outgoing agent_id request_id answered =
    payload_of agent_id request_id answered.0 (failure_of request_id answered)

-- string(outgoing.Type), of the two types that go out
unfoldable pub outgoing_type : ProviderMessageType → String
outgoing_type ProviderMessageType.failure = "failure"
outgoing_type _ = "response"

-- the request of a payload, if its type is that of requests
unfoldable pub request_of : ProviderPayload → Option Request
request_of payload = elim payload.type [ ProviderMessageType.request ↦ payload.request | _ ↦ none ]

abbrev pub or_empty_bytes : Option Bytes → Bytes
or_empty_bytes none = []
or_empty_bytes (some b) = b

module _ (p : Platform) (json : Codec ProviderPayload) (member_id agent_id : String)
    (private_key : Bytes) where
  -- the request of a verified message
  incoming_request : SignedMessage → Result (ProviderPayload × Request)
  unfolding request_of
  incoming_request m = do
    incoming ← or_error (json.unmarshal m.payload) (plain "invalid request from Project host")
    request ← or_error (request_of incoming) (plain "invalid request from Project host")
    ok (incoming, request)

  -- the signed answer
  unfoldable pub signed_answer :
      String → Frame → SignedMessage → ProviderPayload → Request → Result SignedMessage
  unfolding outgoing outgoing_type new_signed_reply
  signed_answer project_id frame message incoming request = do
    nonce ← frame.nonce
    let payload = outgoing agent_id incoming.request_id (frame.handler request)
    ok (
        new_signed_reply p project_id member_id (outgoing_type payload.type) "WS" "/v2/provider"
          message.nonce nonce (or_empty_bytes (json.marshal payload)) frame.signed_at private_key)

  written : Option GoError → SignedMessage → Result SignedMessage
  written none signed = ok signed
  written (some e) signed = err e

  answer_frame : String → Frame → SignedMessage → Result SignedMessage
  unfolding incoming_request signed_answer written
  answer_frame project_id frame message = do
    (incoming, request) ← incoming_request message
    signed ← signed_answer project_id frame message incoming request
    written frame.write_error signed

  -- a message that is read, up to the memory of nonces
  checked_frame : Bytes → Frame → Result SignedMessage
  unfolding verify_message
  checked_frame host_public_key frame = do
    message ← frame.read
    verify_message p message host_public_key frame.verified_at default_signature_max_age
    fail_if (not (message.method == "WS") || not (message.path == "/v2/provider"))
        (plain "Project host frame route is invalid")
    ok message

  -- one round of the loop
  unfoldable pub serve_frame : Frame → Client → Result SignedMessage × Client
  unfolding checked_frame answer_frame
  serve_frame frame c = elim (checked_frame c.host_public_key frame) [
    | err e ↦ (err e, c)
    | ok message ↦
        let (r, replays) = accept c.replays message frame.accepted_at in
        (r >> answer_frame c.project_id frame message, record c { replays = replays })
  ]

  -- The loop over the frames: the error that ends it, none while the connection is open, and the
  -- answers that were written.
  unfoldable pub serve_frames : List Frame → Client → Option GoError × Client × List SignedMessage
  unfolding serve_frame
  serve_frames [] c = (none, c, [])
  serve_frames (frame ∷ more) c =
      let (r, c') = serve_frame frame c in
      elim r [
        | err e ↦ (some e, c', [])
        | ok signed ↦ let (e, c'', sent) = serve_frames more c' in (e, c'', signed ∷ sent)
      ]
