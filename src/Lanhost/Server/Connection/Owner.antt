-- ===== src/Lanhost/Server/Connection/Owner.antt =====
-- Who may connect as a provider: `handleProvider` of internal/lanhost/server.go.
use peercontext.Common.{ℕ, ◌≡◌, find, Bool, some, String, string_eq}
use peercontext.Common.Dict.{lookup}
use peercontext.Common.Text.{Bytes}
use peercontext.Errors
use peercontext.Errors.{Result, ok}
use peercontext.Protocol.Platform.{Platform}
use peercontext.Protocol.Model.{Member, Agent}
use peercontext.Protocol.Signing.{SignedMessage}
use peercontext.Lanhost.Broker.{Provider, key_of}
use peercontext.Lanhost.Wire.{ProviderConnectInput, kind_provider_connect}
use peercontext.Lanhost.Server.Host.{Host, Json, World}
use peercontext.Protocol.Time.{Time}
use peercontext.Lanhost.Store.Tables.{AgentRow, Tables}
use peercontext.Lanhost.Store.Agents.{selected, scan_agent, agent}
use peercontext.Lanhost.Server.Auth.{authenticate}

-- The connection is the broker's connection of the Agent, which its member owns.
pub record IsOwn (sender : Member) (target : Agent) (project_id : String) (provider : Provider)
    (after : Host) : Type 0 where
  pub project : provider.project_id ≡ project_id
  pub agent : provider.agent_id ≡ target.id
  pub member : provider.member_id ≡ sender.id
  pub key : provider.key ≡ sender.public_key
  pub attached : lookup (key_of provider) after.broker.providers ≡ some provider

module _ (p : Platform) (json : Json) (w : World) (upgraded : Bool) (address : ℕ) where
  -- The first row that the Agent of the message selects in its Project, which is of the sender, and the
  -- connection for this Agent.
  pub record Found (sender : Member) (m : SignedMessage) (provider : Provider) (before after : Host)
      : Type 0 where
    pub input : ProviderConnectInput
    pub carried : json.provider_connect m.payload ≡ some input
    pub row : AgentRow
    pub chosen : find (selected m.project_id input.agent_id) before.db.tables.agents ≡ some row
    pub target : Agent
    pub scanned : scan_agent p json.manifest row ≡ ok target
    pub same_agent : target.id ≡ row.id
    pub owner : row.owner_member_id ≡ sender.id
    pub own : IsOwn sender target m.project_id provider after

  -- An Agent of the sender, and the connection for it.
  record Connects (sender : Member) (m : SignedMessage) (r : Result Agent) (provider : Provider)
      (after : Host) : Type 0 where
    target : Agent
    given : r ≡ ok target
    owner : target.owner_member_id ≡ sender.id
    own : IsOwn sender target m.project_id provider after

  -- The message of the header, and the member that it authenticated for the connection.
  pub record Admitted (header : String) (m : SignedMessage) (s : Host) (provider : Provider)
      (after : Host) : Type 0 where
    pub bytes : Bytes
    pub decoded : p.base64_decode header ≡ some bytes
    pub read : json.signed_message bytes ≡ some m
    pub sender : Member
    pub kind : m.kind ≡ kind_provider_connect
    pub passed : (authenticate p m "GET" "/v2/provider" w.now s).0 ≡ ok sender
    pub found : Found sender m provider s after
