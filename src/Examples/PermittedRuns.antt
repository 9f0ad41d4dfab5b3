-- ===== src/Examples/PermittedRuns.antt =====
-- The owner of the household removes a member by a signed message.
use peercontext.Common.{refl, ◌⊎◌, ◌≡◌, ℕ, none, some, true, []}
use peercontext.Protocol.Model.{Member}
use peercontext.Protocol.Signing.{SignedMessage, new_signed_http_message}
use peercontext.Lanhost.Operations.{Operation}
use peercontext.Lanhost.Operations.Keys.{HasKeys}
use peercontext.Lanhost.Operations.Runs.{Runs, done}
use peercontext.Lanhost.Server.Host.{Json}
use peercontext.Lanhost.Server.Ask.{Wait}
use peercontext.Lanhost.Server.Rpc.{dispatch_rpc}
use peercontext.Lanhost.Server.Permitted.{Permitted}
use peercontext.Lanhost.Server.Permitted.Dispatched.{dispatch_rpc-Runs}
use peercontext.Examples.Toy.{toy}
use peercontext.Examples.Household.{household, host, owner_key}
use peercontext.Examples.HostRuns.{household-HasKeys}
use peercontext.Examples.ProviderRuns.{texts, world}

abbrev reading : Json
reading = record texts { member_remove = λ _. some (record { member_id = "guest" }) }

abbrev owner : Member
owner = record {
  schema_version = 2;
  id = "owner";
  project_id = "p";
  name = "Ada";
  public_key = toy.public_key owner_key;
  owner = true;
  created_at = 1;
}

abbrev removal : SignedMessage
removal =
    new_signed_http_message toy "p" "owner" "member.remove" "POST" "/v2/rpc" "n1" [] 5 owner_key

abbrev quietly : Wait
quietly = record { write_error = none; others = λ s. s; done = none }

abbrev Nothing : Operation → Type 0
Nothing _ = ◌≡◌ {A = ℕ} 0 1

dispatch_rpc-Runs_example :
    Runs toy reading.manifest
      (λ o. Permitted owner removal o ⊎ Nothing o)
      household
      (dispatch_rpc toy reading world quietly owner removal host).1.db.tables
    × HasKeys (dispatch_rpc toy reading world quietly owner removal host).1.db.tables
dispatch_rpc-Runs_example =
    dispatch_rpc-Runs toy reading world quietly owner removal Nothing host (λ t. done _ _ refl)
      household-HasKeys
