-- ===== src/Examples/RegistrationRuns.antt =====
-- A daemon registers a repository, and the Agent comes online.
use peercontext.Common.{
  ℕ, ◌+◌, ◌*◌, ◌≡◌, refl, none, some, true, false, Option, [], ◌∷◌, String, arith, nat_eq,
  string_eq, bytes_beq,
}
use peercontext.Common.Text.{Bytes, codes}
use peercontext.Errors.{Result, ok, err, plain}
use peercontext.Protocol.Model.{Agent, body_sha256}
use peercontext.Protocol.Signing.{SignedMessage, new_signed_reply, verify_message, signing_bytes}
use peercontext.Lanhost.Wire.{JoinResult}
use peercontext.Lanhost.Client.{
  judge, post_rpc, try_endpoints, client_endpoints, prioritize_endpoint, remember_endpoint,
  terminal_endpoint_error, rpc,
}
use peercontext.State.Disk.{Machine, load, save, remove_temporary, write_temporary, rename}
use peercontext.State.Model.{Profile, State, as_decoded, empty_state}
use peercontext.Service.Control.{AgentRegisterInput, Reply, control_do}
use peercontext.Service.Daemon.{Daemon, Call, Setup, new_daemon, current_client, call}
use peercontext.Service.Agents.{
  Answers, Round, Registration, registered, register_agent, start_and_wait,
}
use peercontext.Service.Agents.Waiting.{IsOnline, register_agent-IsOnline, pause}
use peercontext.Service.Requests.{ControlJson, Turn, Value, registered_value, write_reply}
use peercontext.Service.Requests.Replies.{IsReported, control_do-write_reply}
use peercontext.Lanhost.Store.Tables.{empty}
use peercontext.Examples.Toy.{toy, tallies, tally, zeros, first_32, read_tallies}
use peercontext.Examples.Household.{owner_key}
use peercontext.Examples.ProviderRuns.{manifest}
use peercontext.Examples.JoinRuns.{texts, invitation}
use peercontext.Examples.DaemonRuns.{setup, garden, creation}
use peercontext.Common.Dict.{lookup, delete_if, insert}
use peercontext.State.Keys.{load_private_key, key_name}
use peercontext.Lanhost.Client.Requests
use peercontext.Lanhost.Remote.{is_direct_lan_remote}
use peercontext.Protocol.Time.{exceeds, sub}
use peercontext.Lanhost.Replay.{accept, new_replay_guard, replay_key, outdated}
use peercontext.Lanhost.Server.Rpc.{decode_json, limited}
use peercontext.Protocol.Signing.Lines.{lines}
use peercontext.State.Agents.{put_agent}

abbrev garden_here : Profile
garden_here = record garden {
  host_public_key = toy.public_key owner_key;
  endpoints = "http://10.0.0.2" ∷ [];
}

abbrev in_garden : State
in_garden = record empty_state { current_project_id = "p"; profiles = ("p", garden_here) ∷ [] }

abbrev home : Machine
home = record {
  file = some (5 ∷ []);
  keys = ("p", tallies owner_key) ∷ [];
  temporary = false;
  faults = [];
}

-- what the host says to the first and to the second call
abbrev told : String → String → String → SignedMessage
told kind asked nonce =
    new_signed_reply toy "p" "owner" kind "POST" "/v2/rpc" asked nonce (1 ∷ []) 5 owner_key

abbrev said : Bytes → SignedMessage
said [] = told "agent.register.response" "n1" "n5"
said (b ∷ bs) = told "agent.get.response" "n2" "n6"

abbrev at_home : Setup
at_home = record setup {
  state_json = record {
    marshal = λ _. some (5 ∷ []);
    unmarshal = λ _. some (as_decoded in_garden);
  };
  reading = record texts {
    signed_message = λ b. some (said b);
    rpc_result = λ _. some (record { ok = true; body = 1 ∷ []; error = none });
  };
}

abbrev archivist : Agent
archivist = record {
  schema_version = 2;
  id = "a1";
  project_id = "p";
  owner_member_id = "owner";
  manifest = manifest;
  online = true;
  updated_at = 5;
}

abbrev answers : Answers
answers = record {
  agent = λ _. some archivist;
  agents = λ _. none;
  members = λ _. none;
  removed = λ _. none;
  payload = λ _. none;
}

-- one call, answered with this body
abbrev asking : String → Bytes → Call
asking nonce body = record {
  nonce = ok nonce;
  around = record {
    first = λ endpoint n. ok (record { status = 200; body = body; at = 6; later = 6 });
    second = λ endpoint n. err (plain "connection refused");
    canceled_first = none;
    canceled_second = none;
    discovered = none;
  };
  meanwhile = λ d. d;
}

abbrev round : ℕ → Round
round n = record { now = 10 + pause * n; asked = λ _. asking "n2" (1 ∷ []); canceled = none }

abbrev garden_repository : Registration
garden_repository = record {
  is_directory = true;
  has_git = true;
  in_worktree = true;
  runtime = none;
  runtime_again = none;
  base_name = λ s. s;
  absolute = λ s. ok s;
  agent_uuid = "1";
  register = λ _. asking "n1" [];
  registered_at = 10;
  rounds = round;
}

abbrev wish : AgentRegisterInput
wish = record {
  repository = "/home/ada/garden";
  name = "Archivist";
  summary = "";
  tags = [];
  capabilities = [];
}

abbrev waiting : Daemon
waiting = new_daemon home (record { tables = empty; faults = [] })

came_online :
    (register_agent at_home answers garden_repository wish waiting).0 ≡ ok (registered archivist)
unfolding register_agent peercontext.Service.Daemon.◌>>=◌ current_client load new_daemon lookup
    load_private_key key_name read_tallies tallies zeros call Requests.call is_direct_lan_remote
    verify_message new_signed_reply first_32 exceeds sub codes signing_bytes accept new_replay_guard
    replay_key delete_if insert decode_json limited judge post_rpc try_endpoints client_endpoints
    prioritize_endpoint remember_endpoint terminal_endpoint_error rpc bytes_beq lines tally
    body_sha256 put_agent save remove_temporary write_temporary rename start_and_wait outdated
came_online = refl

register_agent-IsOnline_example :
    IsOnline at_home answers garden_repository wish waiting (registered archivist)
register_agent-IsOnline_example =
    register_agent-IsOnline at_home answers garden_repository wish waiting (registered archivist)
      (λ k. omega arith) (omega arith) came_online

abbrev json : ControlJson
json = record {
  command = λ _. none;
  project_create = λ _. none;
  project_join = λ _. none;
  project_use = λ _. none;
  member_remove = λ _. none;
  agent_register = λ _. none;
  agent_selector = λ _. none;
  ask = λ _. none;
  marshal = λ _. some (1 ∷ []);
  quote = λ s. s;
}

abbrev turn : Turn
turn = record {
  listen = ":8787";
  mdns = true;
  now = 10;
  plain_call = asking "n1" [];
  call_with = λ _. asking "n1" [];
  second_call_with = λ _. asking "n2" (1 ∷ []);
  creation = creation;
  drawn = record { private_key = ok owner_key; nonce = ok "n1"; now = 10 };
  joining = (asking "n1" []).around;
  registration = garden_repository;
  asking = record {
    request_uuid = "3";
    now = 10;
    find = λ _. asking "n1" [];
    send = λ _ _. asking "n2" (1 ∷ []);
  };
}

abbrev no_joins : Bytes → Option JoinResult
no_joins _ = none

abbrev online_reply : Result Value
online_reply = ok (registered_value (registered archivist))

abbrev read_reply : Bytes → Option Reply
read_reply _ = some (write_reply at_home answers no_joins json invitation turn online_reply)

control_do-write_reply_example :
    IsReported at_home answers no_joins json invitation turn online_reply
      (control_do read_reply (ok (1 ∷ [])))
control_do-write_reply_example =
    control_do-write_reply at_home answers no_joins json invitation turn read_reply online_reply
      (1 ∷ []) refl
