-- ===== src/Lanhost/Server/Host.antt =====
-- The state of `Server` in internal/lanhost/server.go and what it takes from outside, `writeSigned`
-- and `decodeJSON`.
use peercontext.Common.{ℕ, Bool, not, Option, List, String, length, ◌==◌, nat_eq, if◌then◌else◌}
use peercontext.Common.Text.{Bytes}
use peercontext.Errors.{Result, ok, err}
use peercontext.Protocol.Time.{Time}
use peercontext.Protocol.Platform.{Platform, Codec}
use peercontext.Protocol.Model.{
  Project, Member, Agent, AgentManifest, Request, ProviderPayload, default_signature_max_age,
}
use peercontext.Protocol.Signing.{SignedMessage, new_signed_reply, private_key_size}
use peercontext.Protocol.Invitation.{Invitation, JoinRequest}
use peercontext.Lanhost.Replay.{ReplayGuard, new_replay_guard}
use peercontext.Lanhost.Broker.{Broker, new_broker}
use peercontext.Lanhost.Store.Tables.{HostDb, StoreM}
use peercontext.Lanhost.Wire.{
  HostIdentity, JoinResult, RpcResult, InviteCreateInput, MemberRemoveInput, AgentRegisterInput,
  AgentSelectorInput, ProviderConnectInput,
}

-- What a handler changes: the database, the nonces and the broker.
pub record Host : Type 0 where
  pub db : HostDb
  pub replays : ReplayGuard
  pub broker : Broker

-- NewServer, over an open store
unfoldable pub new_server : HostDb → Host
unfolding new_replay_guard
new_server db = record {
  db = db;
  replays = new_replay_guard default_signature_max_age;
  broker = new_broker;
}

-- a call of the store
unfoldable pub on_store : {A : Type 0} → StoreM A → Host → Result A × Host
on_store m s = let (r, db) = m s.db in (r, record s { db = db })

-- What a handler answers with as data.
pub data Value : Type 0 where
  project_value : Project → Value
  join_value : JoinResult → Value
  invitation_value : Invitation → Value
  members_value : List Member → Value
  agents_value : List Agent → Value
  agent_value : Agent → Value
  removed_value : Bool → Value
  payload_value : ProviderPayload → Value

-- encoding/json at the types of the service
pub record Json : Type 0 where
  pub manifest : Codec AgentManifest
  pub payload : Codec ProviderPayload
  pub marshal : Value → Option Bytes
  pub marshal_result : RpcResult → Bytes
  pub marshal_connect : ProviderConnectInput → Bytes
  pub invite_create : Bytes → Option InviteCreateInput
  pub member_remove : Bytes → Option MemberRemoveInput
  pub agent_register : Bytes → Option AgentRegisterInput
  pub agent_selector : Bytes → Option AgentSelectorInput
  pub provider_connect : Bytes → Option ProviderConnectInput
  pub request : Bytes → Option Request
  pub signed_message : Bytes → Option SignedMessage
  pub join_request : Bytes → Option JoinRequest

-- The readings of the outside world that one call of a handler makes: the clock when the message is
-- authenticated and when it is served, the fields `HostIdentity` and `Endpoints` of the server,
-- the nonces and the identifier that are drawn, and the key pair of an invitation.
pub record World : Type 0 where
  pub now : Time
  pub later : Time
  pub host_identity : String → Result HostIdentity
  pub endpoints : List String
  pub nonce : Result String
  pub broker_nonce : Result String
  pub new_id : String
  pub new_key : Result Bytes

pub data HttpResponse : Type 0 where
  -- http.Error and http.NotFound
  http_error : ℕ → String → HttpResponse
  -- a signed body
  signed_body : ℕ → SignedMessage → HttpResponse

module _ (p : Platform) (json : Json) (w : World) where
  unfoldable pub sign_with :
      String → String → String → String → String → RpcResult → ℕ → HostIdentity → HttpResponse
  unfolding new_signed_reply
  sign_with project_id kind method path reply_to result status identity =
      if not (length identity.private_key == private_key_size)
      then http_error 503 "host identity unavailable"
      else elim w.nonce [
        | err e ↦ http_error 500 "host signing failed"
        | ok nonce ↦ signed_body status (
            new_signed_reply p project_id identity.member_id kind method path reply_to nonce
              (json.marshal_result result) w.later identity.private_key)
      ]

  -- writeSigned
  unfoldable pub write_signed :
      String → String → String → String → String → RpcResult → ℕ → HttpResponse
  unfolding sign_with
  write_signed project_id kind method path reply_to result status =
      elim (w.host_identity project_id) [
        | err e ↦ http_error 503 "host identity unavailable"
        | ok identity ↦ sign_with project_id kind method path reply_to result status identity
      ]
