-- ===== src/Lanhost/Operations/Keys/Statements.antt =====
-- The deletes and updates of internal/lanhost/store.go keep the keys.
use peercontext.Common.{ℕ, ◌≡◌, refl, Bool, String, arith, subst, string_eq}
use peercontext.Common.Unique.{Unique-select}
use peercontext.Errors.{Result, ok}
use peercontext.Protocol.Model.{RequestStatus, running}
use peercontext.Lanhost.Sql.Keys.{update_where-Unique}
use peercontext.Lanhost.Store.Tables.{RequestRow, Tables, request_at}
use peercontext.Lanhost.Store.Projects.{
  delete_requests, delete_agents, delete_invitations, delete_members, delete_project_row,
}
use peercontext.Lanhost.Store.Members.{delete_agents_of, delete_member}
use peercontext.Lanhost.Store.Invitations.{mark_consumed}
use peercontext.Lanhost.Store.Agents.{update_online, delete_agent}
use peercontext.Lanhost.Store.Requests.{update_status, set_status}
use peercontext.Lanhost.Operations.Keys.{
  HasKeys, same_project, same_member, same_member_key, same_invitation, same_agent, same_agent_name,
  same_request, with_projects, with_members, with_invitations, with_agents, with_requests,
}

-- The tables that a statement which cannot fail leaves.
moved :
    {A : Type 0} (t t' : Tables) (a b : A)
    → HasKeys t
    → ◌≡◌ {A = Result (A × Tables)} (ok (a, t)) (ok (b, t'))
    → HasKeys t'
moved t t' a b k h = let q : t ≡ t' = ground arith in subst HasKeys q k

set_status_key :
    (status : RequestStatus) (at : String) (r : RequestRow)
    → ((set_status status at r).project_id ≡ r.project_id) × ((set_status status at r).id ≡ r.id)
unfolding set_status
set_status_key running at r = (refl, refl)
set_status_key _ at r = (refl, refl)

module _ (t : Tables) (k : HasKeys t) where
  pub delete_requests-HasKeys :
      (id : String) (a : Unit {0}) (t' : Tables) → delete_requests id t ≡ ok (a, t') → HasKeys t'
  unfolding delete_requests
  delete_requests-HasKeys id a t' h =
      moved _ t' tt a (with_requests k _ (Unique-select same_request _ t.requests k.requests)) h

  pub delete_agents-HasKeys :
      (id : String) (a : Unit {0}) (t' : Tables) → delete_agents id t ≡ ok (a, t') → HasKeys t'
  unfolding delete_agents
  delete_agents-HasKeys id a t' h =
      moved _ t' tt a
        (with_agents k _ (Unique-select same_agent _ t.agents k.agents)
          (Unique-select same_agent_name _ t.agents k.agent_names))
        h

  pub delete_invitations-HasKeys :
      (id : String) (a : Unit {0}) (t' : Tables) → delete_invitations id t ≡ ok (a, t') → HasKeys t'
  unfolding delete_invitations
  delete_invitations-HasKeys id a t' h =
      moved _ t' tt a
        (with_invitations k _ (Unique-select same_invitation _ t.invitations k.invitations)) h

  pub delete_members-HasKeys :
      (id : String) (a : Unit {0}) (t' : Tables) → delete_members id t ≡ ok (a, t') → HasKeys t'
  unfolding delete_members
  delete_members-HasKeys id a t' h =
      moved _ t' tt a
        (with_members k _ (Unique-select same_member _ t.members k.members)
          (Unique-select same_member_key _ t.members k.member_keys))
        h

  pub delete_project_row-HasKeys :
      (id : String) (a : Unit {0}) (t' : Tables) → delete_project_row id t ≡ ok (a, t') → HasKeys t'
  unfolding delete_project_row
  delete_project_row-HasKeys id a t' h =
      moved _ t' tt a (with_projects k _ (Unique-select same_project _ t.projects k.projects)) h

  pub delete_agents_of-HasKeys :
      (project_id id : String) (a : Unit {0}) (t' : Tables)
      → delete_agents_of project_id id t ≡ ok (a, t')
      → HasKeys t'
  unfolding delete_agents_of
  delete_agents_of-HasKeys project_id id a t' h =
      moved _ t' tt a
        (with_agents k _ (Unique-select same_agent _ t.agents k.agents)
          (Unique-select same_agent_name _ t.agents k.agent_names))
        h

  pub delete_member-HasKeys :
      (project_id id : String) (n : ℕ) (t' : Tables)
      → delete_member project_id id t ≡ ok (n, t')
      → HasKeys t'
  unfolding delete_member
  delete_member-HasKeys project_id id n t' h =
      moved _ t' _ n
        (with_members k _ (Unique-select same_member _ t.members k.members)
          (Unique-select same_member_key _ t.members k.member_keys))
        h

  pub delete_agent-HasKeys :
      (project_id id : String) (a : Unit {0}) (t' : Tables)
      → delete_agent project_id id t ≡ ok (a, t')
      → HasKeys t'
  unfolding delete_agent
  delete_agent-HasKeys project_id id a t' h =
      moved _ t' tt a
        (with_agents k _ (Unique-select same_agent _ t.agents k.agents)
          (Unique-select same_agent_name _ t.agents k.agent_names))
        h

  pub mark_consumed-HasKeys :
      (project_id id at : String) (n : ℕ) (t' : Tables)
      → mark_consumed project_id id at t ≡ ok (n, t')
      → HasKeys t'
  unfolding mark_consumed
  mark_consumed-HasKeys project_id id at n t' h =
      moved _ t' _ n
        (with_invitations k _ (
          update_where-Unique same_invitation _ _ t.invitations (λ r s. refl) (λ r s. refl)
            k.invitations))
        h

  pub update_online-HasKeys :
      (project_id id member_id : String) (online : Bool) (at : String) (n : ℕ) (t' : Tables)
      → update_online project_id id member_id online at t ≡ ok (n, t')
      → HasKeys t'
  unfolding update_online
  update_online-HasKeys project_id id member_id online at n t' h =
      moved _ t' _ n
        (with_agents k _
          (update_where-Unique same_agent _ _ t.agents (λ r s. refl) (λ r s. refl) k.agents)
          (update_where-Unique same_agent_name _ _ t.agents (λ r s. refl) (λ r s. refl)
            k.agent_names))
        h

  pub update_status-HasKeys :
      (project_id id : String) (status : RequestStatus) (at : String) (a : Unit {0}) (t' : Tables)
      → update_status project_id id status at t ≡ ok (a, t')
      → HasKeys t'
  unfolding update_status
  update_status-HasKeys project_id id status at a t' h =
      moved _ t' tt a
        (with_requests k _ (
          update_where-Unique same_request (request_at project_id id) (set_status status at)
            t.requests (λ r s. rw ((set_status_key status at r).0, (set_status_key status at r).1))
            (λ r s. rw ((set_status_key status at s).0, (set_status_key status at s).1))
            k.requests))
        h
