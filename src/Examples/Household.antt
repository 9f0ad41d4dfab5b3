-- ===== src/Examples/Household.antt =====
-- A host with one Project, its owner, a guest with an Agent, and an invitation.
use peercontext.Common.{none, some, [], ◌∷◌, String}
use peercontext.Common.Text.{Bytes}
use peercontext.Protocol.Platform.{Codec}
use peercontext.Protocol.Model.{AgentManifest, default_signature_max_age}
use peercontext.Protocol.Signing.{SignedMessage, new_signed_reply}
use peercontext.Protocol.Invitation.{JoinRequest, sign_join}
use peercontext.Lanhost.Replay.{ReplayGuard, new_replay_guard}
use peercontext.Lanhost.Broker.{new_broker}
use peercontext.Lanhost.Store.Tables.{
  ProjectRow, MemberRow, InvitationRow, AgentRow, Tables, HostDb,
}
use peercontext.Lanhost.Server.Host.{Host}
use peercontext.Examples.Toy.{toy, tallies, tally, zeros}

-- the keys: of 64 bytes, of which the first 32 are the public key
abbrev pub owner_key : Bytes
owner_key = zeros 64

abbrev pub guest_key : Bytes
guest_key = 1 ∷ zeros 63

abbrev pub invite_key : Bytes
invite_key = 2 ∷ zeros 63

abbrev pub newcomer_key : Bytes
newcomer_key = 3 ∷ zeros 63

abbrev public_text : Bytes → String
public_text key = tallies (toy.public_key key)

abbrev pub project_row : ProjectRow
project_row = record {
  id = "p";
  name = "Garden";
  host_member_id = "owner";
  host_public_key = public_text owner_key;
  created_at = tally 1;
}

abbrev pub owner_row : MemberRow
owner_row = record {
  project_id = "p";
  id = "owner";
  name = "Ada";
  public_key = public_text owner_key;
  created_at = tally 1;
}

abbrev pub guest_row : MemberRow
guest_row = record {
  project_id = "p";
  id = "guest";
  name = "Bo";
  public_key = public_text guest_key;
  created_at = tally 2;
}

abbrev pub invitation_row : InvitationRow
invitation_row = record {
  project_id = "p";
  id = "inv_1";
  public_key = public_text invite_key;
  expires_at = tally 9;
  consumed_at = none;
}

abbrev pub agent_row : AgentRow
agent_row = record {
  project_id = "p";
  id = "a1";
  owner_member_id = "guest";
  name = "Archivist";
  manifest_json = [];
  online = 1;
  last_seen_at = none;
  created_at = tally 3;
}

abbrev pub household : Tables
household = record {
  projects = project_row ∷ [];
  members = owner_row ∷ guest_row ∷ [];
  invitations = invitation_row ∷ [];
  agents = agent_row ∷ [];
  requests = [];
}

abbrev pub database : HostDb
database = record { tables = household; faults = [] }

abbrev pub nonces : ReplayGuard
nonces = new_replay_guard default_signature_max_age

abbrev pub host : Host
host = record { db = database; replays = nonces; broker = new_broker }

abbrev pub greeting : SignedMessage
greeting = new_signed_reply toy "p" "guest" "members.list" "POST" "/v2/rpc" "" "n1" [] 5 guest_key

abbrev pub manifests : Codec AgentManifest
manifests = record { marshal = λ _. some []; unmarshal = λ _. none }

abbrev pub join : JoinRequest
join =
    sign_join toy
      (record {
        schema_version = 2;
        project_id = "p";
        invite_id = "inv_1";
        member_name = "Cy";
        member_public_key = toy.public_key newcomer_key;
        method = "POST";
        path = "/v2/join";
        nonce = "n2";
        timestamp = 6;
        signature = [];
      })
      invite_key
