-- ===== src/Examples/ProviderRuns.antt =====
-- The guest's Agent connects to the host of the household.
use peercontext.Common.{none, some, [], nat_eq, string_eq, bytes_eq}
use peercontext.Errors.{ok, err, plain}
use peercontext.Protocol.Model.{AgentManifest}
use peercontext.Protocol.Signing.{SignedMessage, new_signed_reply}
use peercontext.Lanhost.Sql
use peercontext.Lanhost.Broker.{Provider}
use peercontext.Lanhost.Server.Host.{Json, World}
use peercontext.Examples.Toy.{toy}
use peercontext.Examples.Household.{guest_key, owner_key}

abbrev pub manifest : AgentManifest
manifest = record {
  schema_version = 2;
  name = "Archivist";
  summary = "";
  tags = [];
  capabilities = [];
}

abbrev pub hello : SignedMessage
hello =
    new_signed_reply toy "p" "guest" "provider.connect" "GET" "/v2/provider" "" "n3" [] 5 guest_key

abbrev pub texts : Json
texts = record {
  manifest = record { marshal = λ _. some []; unmarshal = λ _. some manifest };
  payload = record { marshal = λ _. none; unmarshal = λ _. none };
  marshal = λ _. some [];
  marshal_result = λ _. [];
  marshal_connect = λ _. [];
  invite_create = λ _. none;
  member_remove = λ _. none;
  agent_register = λ _. none;
  agent_selector = λ _. none;
  provider_connect = λ _. some (record { agent_id = "a1" });
  request = λ _. none;
  signed_message = λ _. some hello;
  join_request = λ _. none;
}

abbrev pub world : World
world = record {
  now = 6;
  later = 6;
  host_identity = λ _. ok (record { member_id = "owner"; private_key = owner_key });
  endpoints = [];
  nonce = ok "n4";
  broker_nonce = ok "n5";
  new_id = "";
  new_key = err (plain "no key");
}

abbrev pub provider : Provider
provider = record {
  address = 1;
  project_id = "p";
  agent_id = "a1";
  member_id = "guest";
  key = toy.public_key guest_key;
}

abbrev greeted : SignedMessage
greeted =
    new_signed_reply toy "p" "owner" "provider.connected" "GET" "/v2/provider" "n3" "n4" [] 6
      owner_key
