-- ===== src/Lanhost/Operations/Keys.antt =====
-- The keys of the schema of internal/lanhost/store.go hold after every call.
pub mod Inserts
pub mod Upsert
pub mod Statements
pub mod Kept
use peercontext.Common.{
  ℕ, ◌≡◌, refl, Bool, true, false, not, ◌&&◌, ◌||◌, Option, none, some, List, [], ◌∷◌, String, any,
  select, arith, Bool-cases, inl, inr, ◌==◌, string_eq, ==_iff, ==_comm, if◌then◌else◌, subst,
}
use peercontext.Common.Unique.{Unique, Unique-select, any_congr}
use peercontext.Errors.{GoError, Result, ok, err}
use peercontext.Lanhost.Sql.{insert_row, update_where}
use peercontext.Lanhost.Sql.Keys.{insert_row-Unique, update_where-Unique}
use peercontext.Lanhost.Store.Tables.{
  ProjectRow, MemberRow, InvitationRow, AgentRow, RequestRow, Tables, member_at, member_with_key,
  invitation_at, agent_at, agent_named, request_at,
}
use peercontext.Lanhost.Store.Projects.{
  insert_project, insert_member, delete_requests, delete_agents, delete_invitations, delete_members,
  delete_project_row,
}
use peercontext.Lanhost.Store.Members.{delete_agents_of, delete_member}
use peercontext.Lanhost.Store.Invitations.{insert_invitation, mark_consumed, open_invitation}
use peercontext.Lanhost.Store.Agents.{
  upsert_agent, update_online, delete_agent, owned_same, rewrite, name_taken, owned_agent_at,
  online_at,
}
use peercontext.Lanhost.Store.Requests.{insert_request, update_status, set_status}

-- the keys, as tests that two rows have the same
abbrev pub same_project : ProjectRow → ProjectRow → Bool
same_project x y = y.id == x.id

abbrev pub same_member : MemberRow → MemberRow → Bool
same_member x y = member_at x.project_id x.id y

abbrev pub same_member_key : MemberRow → MemberRow → Bool
same_member_key x y = member_with_key x.project_id x.public_key y

abbrev pub same_invitation : InvitationRow → InvitationRow → Bool
same_invitation x y = invitation_at x.project_id x.id y

abbrev pub same_agent : AgentRow → AgentRow → Bool
same_agent x y = agent_at x.project_id x.id y

abbrev pub same_agent_name : AgentRow → AgentRow → Bool
same_agent_name x y = agent_named x.project_id x.name y

abbrev pub same_request : RequestRow → RequestRow → Bool
same_request x y = request_at x.project_id x.id y

-- PRIMARY KEY and UNIQUE of every table
pub record HasKeys (t : Tables) : Type 0 where
  pub projects : Unique same_project t.projects
  pub members : Unique same_member t.members
  pub member_keys : Unique same_member_key t.members
  pub invitations : Unique same_invitation t.invitations
  pub agents : Unique same_agent t.agents
  pub agent_names : Unique same_agent_name t.agents
  pub requests : Unique same_request t.requests

pub pair_comm : (a b c d : String) → (b == a && d == c) ≡ (a == b && c == d)
pair_comm a b c d = ground (arith, ==_comm a b, ==_comm c d)

pub any_or_left :
    {A : Type 0} (p q : A → Bool) (xs : List A)
    → any (λ x. p x || q x) xs ≡ false
    → any p xs ≡ false
unfolding any
any_or_left p q [] h = refl
any_or_left p q (x ∷ xs) h = ground (arith, any_or_left p q xs)

pub any_or_right :
    {A : Type 0} (p q : A → Bool) (xs : List A)
    → any (λ x. p x || q x) xs ≡ false
    → any q xs ≡ false
unfolding any
any_or_right p q [] h = refl
any_or_right p q (x ∷ xs) h = ground (arith, any_or_right p q xs)

module _ {t : Tables} (k : HasKeys t) where
  pub with_projects :
      (rows : List ProjectRow) → Unique same_project rows → HasKeys (record t { projects = rows })
  with_projects rows u = record {
    projects = u;
    members = k.members;
    member_keys = k.member_keys;
    invitations = k.invitations;
    agents = k.agents;
    agent_names = k.agent_names;
    requests = k.requests;
  }

  pub with_members :
      (rows : List MemberRow)
      → Unique same_member rows
      → Unique same_member_key rows
      → HasKeys (record t { members = rows })
  with_members rows u v = record {
    projects = k.projects;
    members = u;
    member_keys = v;
    invitations = k.invitations;
    agents = k.agents;
    agent_names = k.agent_names;
    requests = k.requests;
  }

  pub with_invitations :
      (rows : List InvitationRow)
      → Unique same_invitation rows
      → HasKeys (record t { invitations = rows })
  with_invitations rows u = record {
    projects = k.projects;
    members = k.members;
    member_keys = k.member_keys;
    invitations = u;
    agents = k.agents;
    agent_names = k.agent_names;
    requests = k.requests;
  }

  pub with_agents :
      (rows : List AgentRow)
      → Unique same_agent rows
      → Unique same_agent_name rows
      → HasKeys (record t { agents = rows })
  with_agents rows u v = record {
    projects = k.projects;
    members = k.members;
    member_keys = k.member_keys;
    invitations = k.invitations;
    agents = u;
    agent_names = v;
    requests = k.requests;
  }

  pub with_requests :
      (rows : List RequestRow) → Unique same_request rows → HasKeys (record t { requests = rows })
  with_requests rows u = record {
    projects = k.projects;
    members = k.members;
    member_keys = k.member_keys;
    invitations = k.invitations;
    agents = k.agents;
    agent_names = k.agent_names;
    requests = u;
  }
