-- ===== src/Service/Requests.antt =====
-- `handleControl`, `dispatchControl` and `writeReply` of internal/service/daemon.go.
pub mod Replies
use Prim.Native.String
use peercontext.Common.{
  ℕ, ◌+◌, ◌*◌, Bool, true, false, not, ◌||◌, Option, none, some, List, [], ◌∷◌, String, length,
  count, ◌==◌, nat_eq, string_eq, if◌then◌else◌,
}
use peercontext.Common.Dict.{Dict}
use peercontext.Common.Int.{ℤ, sub_ℕ}
use peercontext.Common.Text.{Bytes, concat}
use peercontext.Errors.{GoError, plain, Result, ok, err, or_error}
use peercontext.Failure.{Failure, normalize}
use peercontext.Protocol.Time.{Time}
use peercontext.Protocol.Platform.{Platform}
use peercontext.Protocol.Model.{Member, Agent, Response, max_request_body_bytes}
use peercontext.Protocol.Invitation.{Invitation, encode_invitation}
use peercontext.Lanhost.Wire.{
  JoinResult, AgentSelectorInput, MemberRemoveInput, kind_invite_create, kind_members_list,
  kind_member_remove, kind_agents_list, kind_agent_get,
}
use peercontext.Lanhost.Client.{Surroundings}
use peercontext.Lanhost.Client.Joining.{Drawn}
use peercontext.Lanhost.Server.Rpc.{decode_json}
use peercontext.State.Model.{Profile, State}
use peercontext.State.Disk.{load}
use peercontext.State.Profiles.{profiles, use_project, values}
use peercontext.Service.Control.{
  Command, Reply, Action, action_text, ProjectCreateInput, ProjectCreateResult, ProjectJoinInput,
  ProjectJoinResult, ProjectUseInput, AgentRegisterInput, AskInput,
}
use peercontext.Service.Control
use peercontext.Service.Daemon.{
  Daemon, Act, Call, Setup, pure, lift, on_machine, current_client, call, ◌>>=◌, ◌>>◌,
}
use peercontext.Service.Projects.{Creation, create_project, join_project}
use peercontext.Service.Agents.{
  Answers, Registration, Registered, no_agent, register_agent, remove_agent,
}
use peercontext.Service.Asking.{Asking, ask}

-- The fields of the answer to a status command.
pub record Status : Type 0 where
  pub listen : String
  pub mdns : Bool
  pub projects : ℕ
  pub hosted_projects : ℕ
  pub local_agents : ℕ
  pub online : ℕ
  pub offline : ℤ

-- What a command answers.
pub data Value : Type 0 where
  status_value : Status → Value
  created_value : ProjectCreateResult → Value
  joined_value : ProjectJoinResult → Value
  projects_value : String → List Profile → Value
  used_value : String → Value
  invitation_value : String → Time → Value
  members_value : List Member → Value
  removed_value : Dict String Bool → Value
  registered_value : Registered → Value
  agents_value : List Agent → Value
  agent_value : Agent → Value
  response_value : Response → Value

-- encoding/json at the commands, their inputs and their answers
pub record ControlJson : Type 0 where
  pub command : Bytes → Option Command
  pub project_create : Bytes → Option ProjectCreateInput
  pub project_join : Bytes → Option ProjectJoinInput
  pub project_use : Bytes → Option ProjectUseInput
  pub member_remove : Bytes → Option MemberRemoveInput
  pub agent_register : Bytes → Option AgentRegisterInput
  pub agent_selector : Bytes → Option AgentSelectorInput
  pub ask : Bytes → Option AskInput
  pub marshal : Value → Option Bytes
  -- the verb %q of fmt
  pub quote : String → String

-- What the commands draw, read and call: the address and mDNS of the status, a call of each kind, and
-- what the larger commands take.
pub record Turn : Type 0 where
  pub listen : String
  pub mdns : Bool
  pub now : Time
  pub plain_call : Call
  pub call_with : String → Call
  pub second_call_with : String → Call
  pub creation : Creation
  pub drawn : Drawn
  pub joining : Surroundings
  pub registration : Registration
  pub asking : Asking

abbrev is_online : String × Bool → Bool
is_online e = e.1

module _ (setup : Setup) (answers : Answers) (read_join : Bytes → Option JoinResult)
    (json : ControlJson) (empty_invitation : Invitation) (turn : Turn) where
  status_of : State → Daemon → Status
  unfolding count
  status_of s d = record {
    listen = turn.listen;
    mdns = turn.mdns;
    projects = length s.profiles;
    hosted_projects = count (λ r. r.hosted) (values s.profiles);
    local_agents = length s.agents;
    online = count is_online d.connected;
    offline = sub_ℕ (length s.agents) (count is_online d.connected);
  }

  -- json.Unmarshal(command.Payload, &input)
  abbrev input_of : {A : Type 0} → (Bytes → Option A) → Command → Act A
  input_of read command = lift (or_error (read command.payload) (plain "json"))

  -- status
  unfoldable pub show_status : Act Value
  unfolding status_of
  show_status = do
    s ← on_machine (load setup.state_json)
    (λ d. (ok (status_value (status_of s d)), d))

  -- project.list
  unfoldable pub list_projects : Act Value
  list_projects = do
    s ← on_machine (load setup.state_json)
    found ← on_machine (profiles setup.state_json)
    pure (projects_value s.current_project_id found)

  -- invitation.create
  unfoldable pub create_invitation : Act Value
  create_invitation = do
    (c, profile) ← current_client setup
    (invitation, c') ←
        call setup setup.invitation.unmarshal empty_invitation turn.plain_call kind_invite_create c
    encoded ← lift (encode_invitation setup.platform setup.invitation invitation turn.now)
    pure (invitation_value encoded invitation.expires_at)

  -- member.list
  unfoldable pub list_members : Act Value
  list_members = do
    (c, profile) ← current_client setup
    (found, c') ← call setup answers.members [] turn.plain_call kind_members_list c
    pure (members_value found)

  -- member.remove
  unfoldable pub remove_member : String → Act Value
  remove_member member_id = do
    (c, profile) ← current_client setup
    (result, c') ← call setup answers.removed [] (turn.call_with member_id) kind_member_remove c
    pure (removed_value result)

  -- agent.list
  unfoldable pub list_agents : Act Value
  list_agents = do
    (c, profile) ← current_client setup
    (found, c') ← call setup answers.agents [] turn.plain_call kind_agents_list c
    pure (agents_value found)

  -- agent.get
  unfoldable pub get_agent : String → Act Value
  get_agent selector = do
    (c, profile) ← current_client setup
    (found, c') ← call setup answers.agent no_agent (turn.call_with selector) kind_agent_get c
    pure (agent_value found)

  -- one case of the switch
  unfoldable pub serve : Action → Command → Act Value
  unfolding show_status list_projects create_invitation list_members remove_member list_agents
      get_agent create_project join_project register_agent remove_agent ask use_project
  serve Action.status command = show_status
  serve Action.project_create command = do
    input ← input_of json.project_create command
    result ← create_project setup turn.creation empty_invitation input
    pure (created_value result)
  serve Action.project_join command = do
    input ← input_of json.project_join command
    result ← join_project setup turn.drawn turn.joining read_join turn.now input
    pure (joined_value result)
  serve Action.project_list command = list_projects
  serve Action.project_use command = do
    input ← input_of json.project_use command
    on_machine (use_project setup.state_json input.project_id)
    pure (used_value input.project_id)
  serve Action.invite_create command = create_invitation
  serve Action.member_list command = list_members
  serve Action.member_remove command = do
    input ← input_of json.member_remove command
    remove_member input.member_id
  serve Action.agent_register command = do
    input ← input_of json.agent_register command
    result ← register_agent setup answers turn.registration input
    pure (registered_value result)
  serve Action.agent_list command = list_agents
  serve Action.agent_get command = do
    input ← input_of json.agent_selector command
    get_agent input.agent
  serve Action.agent_remove command = do
    input ← input_of json.agent_selector command
    result ← remove_agent setup answers turn.call_with turn.second_call_with input.agent
    pure (removed_value result)
  serve Action.ask command = do
    input ← input_of json.ask command
    result ← ask setup answers turn.asking input
    pure (response_value result)

  -- the action with a text, among some of them
  unfoldable pub find_action : String → List Action → Option Action
  unfolding action_text
  find_action text [] = none
  find_action text (a ∷ as_) =
      let rest = find_action text as_ in if action_text a == text then some a else rest

  abbrev all_actions : List Action
  all_actions =
      Action.status ∷ Action.project_create ∷ Action.project_join ∷ Action.project_list
      ∷ Action.project_use ∷ Action.invite_create ∷ Action.member_list ∷ Action.member_remove
      ∷ Action.agent_register ∷ Action.agent_list ∷ Action.agent_get ∷ Action.agent_remove
      ∷ Action.ask ∷ []

  -- dispatchControl
  unfoldable pub dispatch_control : Command → Act Value
  unfolding find_action serve
  dispatch_control command = elim (find_action command.action all_actions) [
    | none ↦ lift (err (plain (concat "unknown local service action " (json.quote command.action))))
    | some a ↦ serve a command
  ]

  -- writeReply
  unfoldable pub write_reply : Result Value → Reply
  write_reply (err e) = record { succeeded = false; body = []; error = normalize (some e) }
  write_reply (ok value) = elim (json.marshal value) [
    | none ↦ record { succeeded = false; body = []; error = normalize (some (plain "json")) }
    | some bytes ↦ record { succeeded = true; body = bytes; error = none }
  ]

  -- handleControl: none where the request is not found
  unfoldable pub handle_control : String → String → Bytes → Daemon → Option Reply × Daemon
  unfolding write_reply dispatch_control decode_json
  handle_control method path body d =
      if not (method == "POST") || not (path == "/control")
      then (none, d)
      else elim (decode_json json.command (max_request_body_bytes + 128 * 1024) body) [
        | none ↦ (some (write_reply (err (plain "json"))), d)
        | some command ↦ let (r, d') = dispatch_control command d in (some (write_reply r), d')
      ]
