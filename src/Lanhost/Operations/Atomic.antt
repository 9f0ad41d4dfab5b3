-- ===== src/Lanhost/Operations/Atomic.antt =====
-- A method of internal/lanhost/store.go that returns an error has changed nothing.
use peercontext.Common.{◌≡◌, ◌≢◌, refl, Bool, String, arith, ◌==◌, nat_eq, string_eq}
use peercontext.Common.Text.{Bytes}
use peercontext.Errors.{GoError, Result, ok, err, fail_if, sentinel, member_forbidden}
use peercontext.Protocol.Time.{Time}
use peercontext.Protocol.Platform.{Platform, Codec}
use peercontext.Protocol.Invitation.{JoinRequest}
use peercontext.Protocol.Model.{Project, Member, Agent, AgentManifest, Request, RequestStatus}
use peercontext.Lanhost.Sql.{Db, pure, lift, exec, ◌>>=◌}
use peercontext.Lanhost.Sql.Cases.{counted-Atomic, update_where_none}
use peercontext.Lanhost.Sql.Effects.{
  Atomic, Reads, reading, exec-Atomic, transaction-Atomic, bind-Atomic, bind_total-Atomic,
  query-Reads,
}
use peercontext.Lanhost.Store.Tables.{HostDb, AgentRow}
use peercontext.Lanhost.Store.Projects.{project, create_project, delete_project}
use peercontext.Lanhost.Store.Members.{member, remove_rows, remove_member}
use peercontext.Lanhost.Store.Invitations.{add_invitation, consume_invitation}
use peercontext.Lanhost.Store.Agents.{
  agent, register_agent, set_agent_online, remove_agent, upsert_agent, update_online,
  owned_agent_at, online_at,
}
use peercontext.Lanhost.Store.Requests.{create_request, update_request}
use peercontext.Lanhost.Operations.{
  Operation, creating, deleting, inviting, joining, removing, registering, switching, unregistering,
  requesting, updating, perform, dropped,
}

pure-ne-err : {T A : Type 0} (a : A) (db : Db T) (x : GoError) → (pure {T = T} a db).0 ≢ err x
unfolding pure
pure-ne-err a db x h = ground arith

delete_project-Atomic : (id : String) → Atomic (delete_project id)
unfolding delete_project
delete_project-Atomic id = transaction-Atomic _

remove_rows-Atomic : (project_id id : String) → Atomic (remove_rows project_id id)
unfolding remove_rows
remove_rows-Atomic project_id id = transaction-Atomic _

dropped_undone :
    {A : Type 0} (db : HostDb) (r : Result A × HostDb) (e : GoError)
    → ((x : GoError) → r.0 ≡ err x → r.1.tables ≡ db.tables)
    → (dropped r).0 ≡ err e
    → (dropped r).1.tables ≡ db.tables
dropped_undone db (ok a, db') e k h = absurd (ground arith)
dropped_undone db (err x, db') e k h = k x refl

module _ (p : Platform) where
  pub project-Reads : (id : String) → Reads (project p id)
  unfolding project
  project-Reads id = query-Reads _

  pub member-Reads : (project_id id : String) → Reads (member p project_id id)
  unfolding member
  member-Reads project_id id = search (reading, project-Reads)

module _ (p : Platform) (json : Codec AgentManifest) where
  pub agent-Reads : (project_id selector : String) → Reads (agent p json project_id selector)
  unfolding agent
  agent-Reads project_id selector = query-Reads _

  consume_invitation-Atomic : (r : JoinRequest) (now : Time) → Atomic (consume_invitation p r now)
  unfolding consume_invitation
  consume_invitation-Atomic r now =
      bind-Atomic _ _ (project-Reads p r.project_id) (λ found.
        bind_total-Atomic _ _ (transaction-Atomic _) (λ u db x h. pure-ne-err found db x h))

  create_project-Atomic : (host : Project) (owner : Member) → Atomic (create_project p host owner)
  unfolding create_project
  create_project-Atomic host owner = transaction-Atomic _

  add_invitation-Atomic :
      (project_id id : String) (key : Bytes) (expires : Time)
      → Atomic (add_invitation p project_id id key expires)
  unfolding add_invitation
  add_invitation-Atomic project_id id key expires = exec-Atomic _

  create_request-Atomic : (r : Request) → Atomic (create_request p r)
  unfolding create_request
  create_request-Atomic r = exec-Atomic _

  update_request-Atomic :
      (project_id id : String) (status : RequestStatus) (at : Time)
      → Atomic (update_request p project_id id status at)
  unfolding update_request
  update_request-Atomic project_id id status at = exec-Atomic _

  remove_member-Atomic :
      (project_id actor target : String) → Atomic (remove_member p project_id actor target)
  unfolding remove_member
  remove_member-Atomic project_id actor target =
      search (bind-Atomic, remove_rows-Atomic, reading, project-Reads, member-Reads) depth 9

  register_last-Atomic :
      (row : AgentRow) (a : Agent)
      → Atomic (
          exec (upsert_agent row) >>= λ n.
          lift (fail_if (n == 0) (sentinel member_forbidden)) >>= λ _. pure a)
  unfolding upsert_agent ◌>>=◌
  register_last-Atomic row a =
      counted-Atomic _ _ (λ t t' n db e w h. ground arith) (λ n db. ground arith)

  register_agent-Atomic :
      (project_id member_id agent_id : String) (manifest : AgentManifest) (now : Time)
      → Atomic (register_agent p json project_id member_id agent_id manifest now)
  unfolding register_agent
  register_agent-Atomic project_id member_id agent_id manifest now =
      search (bind-Atomic, reading, member-Reads, register_last-Atomic)

  set_agent_online-Atomic :
      (project_id agent_id member_id : String) (online : Bool) (now : Time)
      → Atomic (set_agent_online p json project_id agent_id member_id online now)
  unfolding set_agent_online update_online ◌>>=◌
  set_agent_online-Atomic project_id agent_id member_id online now =
      let at = p.format_time now in
      counted-Atomic _ _
        (λ t t' n db e w h. ground (
          arith,
          update_where_none (owned_agent_at project_id agent_id member_id) (online_at online at)
              t.agents,
        ))
        (λ n db. ground arith)

  remove_agent-Atomic :
      (project_id actor selector : String) → Atomic (remove_agent p json project_id actor selector)
  unfolding remove_agent
  remove_agent-Atomic project_id actor selector =
      search (bind-Atomic, exec-Atomic, reading, agent-Reads, member-Reads)

  -- Whatever call of the store fails, and wherever it fails, the tables are as they were.
  pub perform-Atomic :
      (o : Operation) (db : HostDb) (e : GoError)
      → (perform p json o db).0 ≡ err e
      → (perform p json o db).1.tables ≡ db.tables
  unfolding perform
  perform-Atomic (creating host owner) db e h = (create_project-Atomic host owner).undone db e h
  perform-Atomic (deleting id) db e h = (delete_project-Atomic id).undone db e h
  perform-Atomic (inviting project_id id key expires) db e h =
      (add_invitation-Atomic project_id id key expires).undone db e h
  perform-Atomic (joining r now) db e h =
      dropped_undone db _ e (λ x. (consume_invitation-Atomic r now).undone db x) h
  perform-Atomic (removing project_id actor target) db e h =
      (remove_member-Atomic project_id actor target).undone db e h
  perform-Atomic (registering project_id member_id agent_id manifest now) db e h =
      dropped_undone db _ e
        (λ x. (register_agent-Atomic project_id member_id agent_id manifest now).undone db x) h
  perform-Atomic (switching project_id agent_id member_id online now) db e h =
      (set_agent_online-Atomic project_id agent_id member_id online now).undone db e h
  perform-Atomic (unregistering project_id actor selector) db e h =
      (remove_agent-Atomic project_id actor selector).undone db e h
  perform-Atomic (requesting r) db e h = (create_request-Atomic r).undone db e h
  perform-Atomic (updating project_id id status at) db e h =
      (update_request-Atomic project_id id status at).undone db e h
