-- ===== src/Lanhost/Operations/Keys/Kept.antt =====
-- The keys of the schema hold after any calls of internal/lanhost/store.go.
use peercontext.Common.{List, [], ◌∷◌, String, All}
use peercontext.Protocol.Platform.{Platform, Codec}
use peercontext.Protocol.Model.{AgentManifest}
use peercontext.Lanhost.Store.Tables.{HostDb}
use peercontext.Lanhost.Operations.{Operation, deleting, perform_all}
use peercontext.Lanhost.Operations.Invariant.{Preserved, Allowed, perform_all-Preserved}
use peercontext.Lanhost.Operations.Keys.{HasKeys}
use peercontext.Lanhost.Operations.Keys.Inserts.{
  insert_project-HasKeys, insert_member-HasKeys, insert_invitation-HasKeys, insert_request-HasKeys,
}
use peercontext.Lanhost.Operations.Keys.Upsert.{upsert_agent-HasKeys}
use peercontext.Lanhost.Operations.Keys.Statements.{
  delete_requests-HasKeys, delete_agents-HasKeys, delete_invitations-HasKeys,
  delete_members-HasKeys, delete_project_row-HasKeys, delete_agents_of-HasKeys,
  delete_member-HasKeys, delete_agent-HasKeys, mark_consumed-HasKeys, update_online-HasKeys,
  update_status-HasKeys,
}

-- any Project may be deleted
abbrev AnyProject : String → Type 0
AnyProject id = Unit

HasKeys-Preserved : Preserved HasKeys AnyProject
HasKeys-Preserved = record {
  insert_project = λ row t a t' k h. insert_project-HasKeys t a t' k row h;
  insert_member = λ row t a t' k h. insert_member-HasKeys t a t' k row h;
  insert_invitation = λ row t a t' k h. insert_invitation-HasKeys t a t' k row h;
  insert_request = λ row t a t' k h. insert_request-HasKeys t a t' k row h;
  upsert_agent = λ row t n t' k h. upsert_agent-HasKeys t n t' k row h;
  delete_requests = λ id may t a t' k h. delete_requests-HasKeys t k id a t' h;
  delete_agents = λ id may t a t' k h. delete_agents-HasKeys t k id a t' h;
  delete_invitations = λ id may t a t' k h. delete_invitations-HasKeys t k id a t' h;
  delete_members = λ id may t a t' k h. delete_members-HasKeys t k id a t' h;
  delete_project_row = λ id may t a t' k h. delete_project_row-HasKeys t k id a t' h;
  delete_agents_of = λ project_id id t a t' k h. delete_agents_of-HasKeys t k project_id id a t' h;
  delete_member = λ project_id id t n t' k h. delete_member-HasKeys t k project_id id n t' h;
  delete_agent = λ project_id id t a t' k h. delete_agent-HasKeys t k project_id id a t' h;
  mark_consumed = λ project_id id at t n t' k h. mark_consumed-HasKeys t k project_id id at n t' h;
  update_online = λ project_id id member_id online at t n t' k h.
      update_online-HasKeys t k project_id id member_id online at n t' h;
  update_status = λ project_id id status at t a t' k h.
      update_status-HasKeys t k project_id id status at a t' h;
}

AnyProject-Allowed : (os : List Operation) → All (Allowed AnyProject) os
AnyProject-Allowed [] = tt
AnyProject-Allowed (deleting id ∷ os) = (tt, AnyProject-Allowed os)
AnyProject-Allowed (_ ∷ os) = (tt, AnyProject-Allowed os)

-- From a database whose tables have their keys, calls of the store lead to such databases only,
-- whatever fails on the way: no two members of a Project with an identifier or a public key in common, no two
-- agents with an identifier or a name, no two Projects, invitations or requests with an identifier.
pub perform_all-HasKeys :
    (p : Platform) (json : Codec AgentManifest) (os : List Operation) (db : HostDb)
    → HasKeys db.tables
    → HasKeys (perform_all p json os db).tables
perform_all-HasKeys p json os db k =
    perform_all-Preserved HasKeys-Preserved p json os db (AnyProject-Allowed os) k
