-- ===== src/Examples/ClientRuns.antt =====
-- The theorems on the client, for one call that the second endpoint answers.
use peercontext.Common.{
  ℕ, ◌≡◌, refl, true, false, if◌then◌else◌, none, some, List, [], ◌∷◌, String, bytes_beq, ◌==◌,
  nat_eq, string_eq, bytes_eq,
}
use peercontext.Common.Dict.{lookup, insert, delete_if}
use peercontext.Common.Text.{codes}
use peercontext.Errors.{Result, ok, err, plain}
use peercontext.Protocol.Time.{exceeds, sub}
use peercontext.Protocol.Model.{body_sha256, default_signature_max_age}
use peercontext.Protocol.Signing.{SignedMessage, new_signed_reply, signing_bytes, verify_message}
use peercontext.Protocol.Signing.Lines.{lines}
use peercontext.Lanhost.Replay.{accept, new_replay_guard, replay_key}
use peercontext.Lanhost.Remote.{Network, is_direct_lan_remote, trim_brackets}
use peercontext.Lanhost.Wire.{RpcResult}
use peercontext.Lanhost.Server.Rpc.{decode_json, limited}
use peercontext.Lanhost.Client.{
  Answer, Client, Reading, Surroundings, decode_signed_response, require_direct_lan_endpoint,
  post_rpc, judge, try_endpoints, client_endpoints, remember_endpoint, terminal_endpoint_error, rpc,
}
use peercontext.Lanhost.Client.Replies.{FromHost}
use peercontext.Lanhost.Client.Calls.{IsFetched, rpc_ok}
use peercontext.Examples.Toy.{toy, tallies, tally, marks, zeros, first_32}
use peercontext.Examples.Household.{owner_key}

abbrev pair : List String
pair = "a" ∷ "b" ∷ []

abbrev pub wire : Network
wire = record {
  IpAddress = Unit {0};
  Subnet = Unit {0};
  split_host_port = λ s. some s;
  parse_ip = λ _. some tt;
  is_loopback = λ _. true;
  contains = λ _ _. false;
  interfaces = none;
  to_lower = λ c. c;
}

abbrev response : SignedMessage
response =
    new_signed_reply toy "p" "owner" "members.list.response" "POST" "/v2/rpc" "n1" "n2" (1 ∷ []) 5
      owner_key

abbrev success : RpcResult
success = record { ok = true; body = 1 ∷ []; error = none }

abbrev texts : Reading
texts = record {
  signed_message = λ _. some response;
  rpc_result = λ _. some success;
  network = wire;
  scheme = λ _. some "http";
  hostname = λ s. s;
  port = λ _. "";
  join_host_port = λ host _. host;
}

abbrev client : Client
client = record {
  project_id = "p";
  host_public_key = toy.public_key owner_key;
  endpoints = "http://10.0.0.2" ∷ "http://10.0.0.3" ∷ [];
  replays = new_replay_guard default_signature_max_age;
  endpoint = "";
  told = [];
}

-- the first endpoint does not answer
fetch : String → ℕ → Result Answer
fetch endpoint n =
    if endpoint == "http://10.0.0.2"
    then err (plain "connection refused")
    else ok (record { status = 200; body = []; at = 6; later = 6 })

abbrev around : Surroundings
around = record {
  first = fetch;
  second = fetch;
  canceled_first = none;
  canceled_second = none;
  discovered = none;
}

called : (rpc toy texts around "members.list" "n1" client).0 ≡ ok success
unfolding rpc client_endpoints try_endpoints post_rpc require_direct_lan_endpoint
    decode_signed_response decode_json limited judge terminal_endpoint_error remember_endpoint
    is_direct_lan_remote trim_brackets accept new_replay_guard replay_key delete_if lookup insert
    new_signed_reply signing_bytes lines codes verify_message exceeds sub bytes_beq tally marks
    tallies first_32 zeros body_sha256 fetch
called = refl

rpc_ok_example :
    FromHost toy texts (IsFetched around) (toy.public_key owner_key) "p" "members.list" "n1" success
rpc_ok_example = rpc_ok toy texts around "members.list" "n1" client success called
