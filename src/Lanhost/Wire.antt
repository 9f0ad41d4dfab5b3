-- ===== src/Lanhost/Wire.antt =====
-- internal/lanhost/wire.go: the records of the RPC protocol.
use peercontext.Common.{Bool, Option, String}
use peercontext.Common.Int.{ℤ}
use peercontext.Common.Text.{Bytes}
use peercontext.Protocol.Model.{Project, Member, AgentManifest}

pub record HostIdentity : Type 0 where
  pub member_id : String
  pub private_key : Bytes

pub record JoinResult : Type 0 where
  pub project : Project
  pub member : Member

pub record RpcError : Type 0 where
  pub code : String
  pub message : String
  pub retryable : Bool

pub record RpcResult : Type 0 where
  pub ok : Bool
  pub body : Bytes
  pub error : Option RpcError

pub record InviteCreateInput : Type 0 where
  pub ttl_seconds : ℤ

pub record MemberRemoveInput : Type 0 where
  pub member_id : String

pub record AgentRegisterInput : Type 0 where
  pub agent_id : String
  pub manifest : AgentManifest

pub record AgentSelectorInput : Type 0 where
  pub agent : String

pub record ProviderConnectInput : Type 0 where
  pub agent_id : String

abbrev pub kind_invite_create : String
kind_invite_create = "invitation.create"

abbrev pub kind_members_list : String
kind_members_list = "members.list"

abbrev pub kind_member_remove : String
kind_member_remove = "member.remove"

abbrev pub kind_agent_register : String
kind_agent_register = "agent.register"

abbrev pub kind_agents_list : String
kind_agents_list = "agents.list"

abbrev pub kind_agent_get : String
kind_agent_get = "agent.get"

abbrev pub kind_agent_remove : String
kind_agent_remove = "agent.remove"

abbrev pub kind_request_ask : String
kind_request_ask = "request.ask"

abbrev pub kind_provider_connect : String
kind_provider_connect = "provider.connect"
