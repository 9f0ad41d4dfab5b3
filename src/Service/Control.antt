-- ===== src/Service/Control.antt =====
-- internal/service/control.go: the commands of the local socket, their inputs and the replies; and
-- `Do` of internal/service/client.go, which sends one.
use peercontext.Common.{
  Bool, false, not, Option, none, some, List, String, length, ◌==◌, nat_eq, if◌then◌else◌,
}
use peercontext.Common.Int.{ℤ}
use peercontext.Common.Text.{Bytes}
use peercontext.Errors.{GoError, plain, structured, Result, ok, ◌>>=◌, ◌>>◌, or_error, fail_if}
use peercontext.Failure.{Failure}
use peercontext.Protocol.Model.{Project, Member}

pub record Command : Type 0 where
  pub action : String
  pub payload : Bytes

-- the field OK of the source is `succeeded`
pub record Reply : Type 0 where
  pub succeeded : Bool
  pub body : Bytes
  pub error : Option Failure

pub record ProjectCreateInput : Type 0 where
  pub name : String
  pub member_name : String

pub record ProjectCreateResult : Type 0 where
  pub project : Project
  pub member : Member
  pub invitation : String

pub record ProjectJoinInput : Type 0 where
  pub invitation : String
  pub member_name : String

pub record ProjectJoinResult : Type 0 where
  pub project : Project
  pub member : Member

pub record ProjectUseInput : Type 0 where
  pub project_id : String

pub record AgentRegisterInput : Type 0 where
  pub repository : String
  pub name : String
  pub summary : String
  pub tags : List String
  pub capabilities : List String

pub record AskInput : Type 0 where
  pub agent : String
  pub request_id : String
  pub body : Bytes
  pub timeout_ms : ℤ

-- The actions, by name.
pub data Action : Type 0 where
  status project_create project_join project_list project_use : Action
  invite_create : Action
  member_list member_remove : Action
  agent_register agent_list agent_get agent_remove : Action
  ask : Action

unfoldable pub action_text : Action → String
action_text status = "status"
action_text project_create = "project.create"
action_text project_join = "project.join"
action_text project_list = "project.list"
action_text project_use = "project.use"
action_text invite_create = "invitation.create"
action_text member_list = "member.list"
action_text member_remove = "member.remove"
action_text agent_register = "agent.register"
action_text agent_list = "agent.list"
action_text agent_get = "agent.get"
action_text agent_remove = "agent.remove"
action_text ask = "ask"

-- the error of a reply
reply_error : Option Failure → GoError
reply_error none = structured "peerctx_error" "PeerContext service rejected the command." false
reply_error (some f) = structured f.code f.message f.retryable

-- (c *ControlClient) Do, given what the HTTP client returns: the body that is decoded into the
-- output, none where nothing is.
unfoldable pub control_do : (Bytes → Option Reply) → Result Bytes → Result (Option Bytes)
unfolding reply_error
control_do read_reply fetched = do
  body ← fetched
  reply ← or_error (read_reply body) (plain "json")
  fail_if (not reply.succeeded) (reply_error reply.error)
  ok (if length reply.body == 0 then none else some reply.body)
