-- ===== src/Examples/JoinRuns.antt =====
-- A newcomer joins a Project, and the owner of an Agent answers a request.
use peercontext.Common.{
  zero, suc, ◌≡◌, ◌≢◌, refl, Option, none, some, true, false, [], ◌∷◌, String, length, arith,
  bytes_beq, nat_eq, string_eq, bytes_eq, ==_iff,
}
use peercontext.Common.Dict.{lookup, insert, delete_if}
use peercontext.Common.Text.{Bytes, codes, trim_space}
use peercontext.Errors.{ok, err, plain}
use peercontext.Protocol.Time.{exceeds, sub}
use peercontext.Protocol.Platform.{Codec}
use peercontext.Protocol.Model.{
  Project, Member, Request, Response, RequestStatus, ProviderPayload, ProviderMessageType,
  body_sha256, default_signature_max_age,
}
use peercontext.Protocol.Signing.{SignedMessage, new_signed_reply, signing_bytes, verify_message}
use peercontext.Protocol.Signing.Lines.{lines}
use peercontext.Protocol.Invitation.{Invitation, validate_invitation, verify_join}
use peercontext.Lanhost.Remote.{is_direct_lan_remote, trim_brackets}
use peercontext.Lanhost.Replay.{new_replay_guard, accept, replay_key}
use peercontext.Lanhost.Wire.{JoinResult}
use peercontext.Lanhost.Broker.{check_provider_message}
use peercontext.Lanhost.Server.Rpc.{decode_json, limited}
use peercontext.Lanhost.Client.{
  Client, Reading, Surroundings, decode_signed_response, require_direct_lan_endpoint,
  prioritize_endpoint, terminal_endpoint_error,
}
use peercontext.Lanhost.Client.Joining.{
  ClientProfile, join_request, post_join, join_endpoints, join_attempts,
}
use peercontext.Lanhost.Client.Joining.Admission.{verify_join-join_request}
use peercontext.Lanhost.Client.Providing.{
  Frame, outgoing, request_of, serve_frame, serve_frames, signed_answer,
}
use peercontext.Lanhost.Client.Providing.Answers.{
  AreReplies, serve_frames-AreReplies, check_provider_message-signed_answer,
}
use peercontext.Examples.Toy.{toy, tallies, tally, marks, zeros, first_32, toy-signs}
use peercontext.Examples.Household.{owner_key, guest_key, invite_key, newcomer_key}
use peercontext.Examples.ClientRuns.{wire}
use peercontext.Examples.MessageRuns.{guest_key_size}
use peercontext.Examples.ProviderRuns.{provider}

abbrev pub invitation : Invitation
invitation = record {
  schema_version = 2;
  protocol_version = "v2";
  project_id = "p";
  project_name = "Garden";
  endpoints = "http://10.0.0.2" ∷ [];
  host_public_key = toy.public_key owner_key;
  invite_id = "inv_1";
  invite_private_key = invite_key;
  expires_at = 9;
}

newcomer_key_size : length (toy.public_key newcomer_key) ≡ 32
unfolding first_32 zeros
newcomer_key_size = refl

invitation_valid : validate_invitation invitation 6 ≡ ok tt
unfolding validate_invitation trim_space first_32 zeros
invitation_valid = refl

is_named : trim_space "Cy" ≢ ""
unfolding trim_space
is_named h = ground (arith, ==_iff {A = String} "Cy" "")

verify_join-join_request_example :
    verify_join toy
      (join_request toy invitation "Cy" newcomer_key "n2" 6)
      (toy.public_key invite_key)
      7
      default_signature_max_age
    ≡ ok tt
verify_join-join_request_example =
    verify_join-join_request toy invitation "Cy" newcomer_key "n2" 6 7 6 (toy-signs invite_key)
      newcomer_key_size invitation_valid is_named (λ h. ground (arith, ==_iff {A = String} "n2" ""))
      (omega arith) (omega arith)

abbrev garden : Project
garden = record {
  schema_version = 2;
  id = "p";
  name = "Garden";
  host_public_key = toy.public_key owner_key;
  created_at = 1;
}

abbrev newcomer : Member
newcomer = record {
  schema_version = 2;
  id = "cy";
  project_id = "p";
  name = "Cy";
  public_key = toy.public_key newcomer_key;
  owner = false;
  created_at = 6;
}

abbrev welcome : SignedMessage
welcome =
    new_signed_reply toy "p" "owner" "join.response" "POST" "/v2/join" "n2" "n3" (1 ∷ []) 6
      owner_key

abbrev pub texts : Reading
texts = record {
  signed_message = λ _. some welcome;
  rpc_result = λ _. some (record { ok = true; body = 1 ∷ []; error = none });
  network = wire;
  scheme = λ _. some "http";
  hostname = λ s. s;
  port = λ _. "";
  join_host_port = λ host _. host;
}

abbrev read_join : Bytes → Option JoinResult
read_join _ = some (record { project = garden; member = newcomer })

abbrev pub around : Surroundings
around = record {
  first = λ endpoint n. ok (record { status = 200; body = []; at = 7; later = 7 });
  second = λ endpoint n. err (plain "connection refused");
  canceled_first = none;
  canceled_second = none;
  discovered = none;
}

abbrev profile : ClientProfile
profile = record {
  project_id = "p";
  project_name = "Garden";
  member_id = "cy";
  member_name = "Cy";
  host_public_key = toy.public_key owner_key;
  endpoints = "http://10.0.0.2" ∷ [];
  project = garden;
  member = newcomer;
}

joined : join_attempts toy texts read_join around invitation "n2" ≡ ok profile
unfolding join_attempts join_endpoints post_join require_direct_lan_endpoint decode_signed_response
    decode_json limited terminal_endpoint_error is_direct_lan_remote trim_brackets new_signed_reply
    signing_bytes lines codes verify_message exceeds sub bytes_beq tally marks tallies first_32
    zeros body_sha256 prioritize_endpoint
joined = refl

abbrev question : Request
question = record {
  schema_version = 2;
  id = "r1";
  project_id = "p";
  requester_id = "owner";
  agent_id = "a1";
  body = [];
  body_sha256 = "";
  created_at = 5;
}

abbrev asking : ProviderPayload
asking = record {
  schema_version = 2;
  type = ProviderMessageType.request;
  agent_id = "a1";
  request_id = "r1";
  request = some question;
  response = none;
  failure = none;
}

abbrev reply : Response
reply = record {
  schema_version = 2;
  request_id = "r1";
  status = RequestStatus.succeeded;
  answer = 4 ∷ 2 ∷ [];
}

-- JSON that knows the request, and the answer that goes out
read_payload : Bytes → Option ProviderPayload
read_payload (suc zero ∷ []) = some asking
read_payload _ = some (outgoing "a1" "r1" (reply, none))

abbrev payloads : Codec ProviderPayload
payloads = record { marshal = λ _. some (7 ∷ []); unmarshal = read_payload }

abbrev asked : SignedMessage
asked = new_signed_reply toy "p" "owner" "request" "WS" "/v2/provider" "" "n5" (1 ∷ []) 6 owner_key

abbrev frame : Frame
frame = record {
  read = ok asked;
  verified_at = 7;
  accepted_at = 7;
  signed_at = 7;
  handler = λ _. (reply, none);
  nonce = ok "n6";
  write_error = none;
}

abbrev owner_of_agent : Client
owner_of_agent = record {
  project_id = "p";
  host_public_key = toy.public_key owner_key;
  endpoints = [];
  replays = new_replay_guard default_signature_max_age;
  endpoint = "";
  told = [];
}

one_answer :
    length (serve_frames toy payloads "guest" "a1" guest_key (frame ∷ []) owner_of_agent).2 ≡ 1
unfolding serve_frames serve_frame signed_answer request_of read_payload new_signed_reply
    signing_bytes lines codes verify_message exceeds sub bytes_beq tally marks tallies first_32
    zeros body_sha256 accept new_replay_guard replay_key delete_if lookup insert
one_answer = refl

serve_frames-AreReplies_example :
    AreReplies toy payloads "guest" "a1" guest_key
      (toy.public_key owner_key)
      (frame ∷ [])
      owner_of_agent.replays
      (serve_frames toy payloads "guest" "a1" guest_key (frame ∷ []) owner_of_agent).2
serve_frames-AreReplies_example =
    serve_frames-AreReplies toy payloads "guest" "a1" guest_key (frame ∷ []) owner_of_agent

read_back : read_payload (7 ∷ []) ≡ some (outgoing "a1" "r1" (reply, none))
unfolding read_payload
read_back = refl

check_provider_message-signed_answer_example :
    (m : SignedMessage) × (signed_answer toy payloads "guest" "a1" guest_key "p" frame asked asking
        question
      ≡ ok m)
    × (check_provider_message toy payloads m provider 8 ≡ ok (outgoing "a1" "r1" (reply, none)))
check_provider_message-signed_answer_example =
    check_provider_message-signed_answer toy payloads "guest" "a1" guest_key "p" "n6" frame asked
      asking question provider 8 refl refl refl refl (toy-signs guest_key) guest_key_size refl
      (omega arith) (omega arith) read_back
