-- ===== src/Lanhost/Operations/Invariant.antt =====
-- An invariant of the tables holds after any calls of internal/lanhost/store.go if every statement
-- keeps it.
use peercontext.Common.{◌≡◌, Bool, List, [], ◌∷◌, String, All}
use peercontext.Common.Text.{Bytes}
use peercontext.Errors.{Result, ok, err}
use peercontext.Protocol.Time.{Time}
use peercontext.Protocol.Platform.{Platform, Codec}
use peercontext.Protocol.Model.{AgentManifest, Project, Member, Request, RequestStatus}
use peercontext.Protocol.Invitation.{JoinRequest}
use peercontext.Lanhost.Sql.{Sql, exec, transaction, ◌>>=◌}
use peercontext.Lanhost.Sql.Effects.{
  Keeps, Reads, reading, attempt-Reads, Reads-Keeps, exec-Keeps, transaction-Keeps, bind-Keeps,
}
use peercontext.Lanhost.Store.Tables.{
  ProjectRow, MemberRow, InvitationRow, AgentRow, RequestRow, Tables, HostDb,
}
use peercontext.Lanhost.Store.Projects.{
  insert_project, insert_member, delete_requests, delete_agents, delete_invitations, delete_members,
  delete_project_row, create_project, delete_project,
}
use peercontext.Lanhost.Store.Members.{delete_agents_of, delete_member, remove_member, remove_rows}
use peercontext.Lanhost.Store.Invitations.{
  insert_invitation, mark_consumed, add_invitation, consume_invitation, join_rows,
}
use peercontext.Lanhost.Store.Agents.{
  upsert_agent, update_online, delete_agent, register_agent, set_agent_online, remove_agent,
}
use peercontext.Lanhost.Store.Requests.{
  insert_request, update_status, create_request, update_request,
}
use peercontext.Lanhost.Operations.{
  Operation, creating, deleting, inviting, joining, removing, registering, switching, unregistering,
  requesting, updating, perform, perform_all, dropped,
}
use peercontext.Lanhost.Operations.Atomic.{project-Reads, member-Reads, agent-Reads}

-- The statement leads from tables with P to tables with P.
abbrev pub Preserves : {A : Type 0} → (Tables → Type 0) → (Tables → Result (A × Tables)) → Type 0
Preserves {A} P write = (t : Tables) (a : A) (t' : Tables) → P t → write t ≡ ok (a, t') → P t'

-- Every statement of the store keeps P; those of `DeleteProject` where the Project may be deleted.
pub record Preserved (P : Tables → Type 0) (MayDelete : String → Type 0) : Type 0 where
  pub insert_project : (row : ProjectRow) → Preserves P (insert_project row)
  pub insert_member : (row : MemberRow) → Preserves P (insert_member row)
  pub insert_invitation : (row : InvitationRow) → Preserves P (insert_invitation row)
  pub insert_request : (row : RequestRow) → Preserves P (insert_request row)
  pub upsert_agent : (row : AgentRow) → Preserves P (upsert_agent row)
  pub delete_requests : (id : String) → MayDelete id → Preserves P (delete_requests id)
  pub delete_agents : (id : String) → MayDelete id → Preserves P (delete_agents id)
  pub delete_invitations : (id : String) → MayDelete id → Preserves P (delete_invitations id)
  pub delete_members : (id : String) → MayDelete id → Preserves P (delete_members id)
  pub delete_project_row : (id : String) → MayDelete id → Preserves P (delete_project_row id)
  pub delete_agents_of : (project_id id : String) → Preserves P (delete_agents_of project_id id)
  pub delete_member : (project_id id : String) → Preserves P (delete_member project_id id)
  pub delete_agent : (project_id id : String) → Preserves P (delete_agent project_id id)
  pub mark_consumed : (project_id id at : String) → Preserves P (mark_consumed project_id id at)
  pub update_online :
      (project_id id member_id : String) (online : Bool) (at : String)
      → Preserves P (update_online project_id id member_id online at)
  pub update_status :
      (project_id id : String) (status : RequestStatus) (at : String)
      → Preserves P (update_status project_id id status at)

-- Only Projects that may be deleted are.
abbrev pub Allowed : (String → Type 0) → Operation → Type 0
Allowed MayDelete (deleting id) = MayDelete id
Allowed MayDelete _ = Unit

module _ {P : Tables → Type 0} {MayDelete : String → Type 0} (k : Preserved P MayDelete) where
  stated :
      {A : Type 0} (write : Tables → Result (A × Tables)) → Preserves P write → Keeps P (exec write)
  stated write h = exec-Keeps P write (λ t a t' p e. h t a t' p e)

  then_ :
      {A B : Type 0} (m : Sql Tables A) (f : A → Sql Tables B)
      → Keeps P m
      → ((a : A) → Keeps P (f a))
      → Keeps P (m >>= f)
  then_ = bind-Keeps P

  reads : {A : Type 0} (m : Sql Tables A) → Reads m → Keeps P m
  reads = Reads-Keeps P

  within : {A : Type 0} (m : Sql Tables A) → Keeps P m → Keeps P (transaction m)
  within = transaction-Keeps P

  insert_project-Keeps : (row : ProjectRow) → Keeps P (exec (insert_project row))
  insert_project-Keeps row = stated _ (k.insert_project row)

  insert_member-Keeps : (row : MemberRow) → Keeps P (exec (insert_member row))
  insert_member-Keeps row = stated _ (k.insert_member row)

  delete_project-Keeps : (id : String) → MayDelete id → Keeps P (delete_project id)
  unfolding delete_project
  delete_project-Keeps id may = within _ (
      then_ _ _ (stated _ (k.delete_requests id may)) λ _.
        then_ _ _ (stated _ (k.delete_agents id may)) λ _.
          then_ _ _ (stated _ (k.delete_invitations id may)) λ _.
            then_ _ _ (stated _ (k.delete_members id may))
              λ _. stated _ (k.delete_project_row id may))

  module _ (p : Platform) (json : Codec AgentManifest) where
    create_project-Keeps : (host : Project) (owner : Member) → Keeps P (create_project p host owner)
    unfolding create_project
    create_project-Keeps host owner =
        within _ (then_ _ _ (insert_project-Keeps _) λ _. insert_member-Keeps _)

    add_invitation-Keeps :
        (project_id id : String) (key : Bytes) (expires : Time)
        → Keeps P (add_invitation p project_id id key expires)
    unfolding add_invitation
    add_invitation-Keeps project_id id key expires = stated _ (k.insert_invitation _)

    join_rows-Keeps : (r : JoinRequest) (now : Time) → Keeps P (join_rows p r now)
    unfolding join_rows
    join_rows-Keeps r now = then_ _ _ (reads _ (search reading)) λ row.
        then_ _ _ (reads _ (search reading)) λ _.
          then_ _ _ (insert_member-Keeps _)
            λ _. then_ _ _ (stated _ (k.mark_consumed _ _ _)) λ n. reads _ (search reading)

    consume_invitation-Keeps : (r : JoinRequest) (now : Time) → Keeps P (consume_invitation p r now)
    unfolding consume_invitation
    consume_invitation-Keeps r now =
        then_ _ _ (reads _ (project-Reads p r.project_id))
          λ found. then_ _ _ (within _ (join_rows-Keeps r now)) λ _. reads _ (search reading)

    remove_rows-Keeps : (project_id id : String) → Keeps P (remove_rows project_id id)
    unfolding remove_rows
    remove_rows-Keeps project_id id = within _ (
        then_ _ _ (stated _ (k.delete_agents_of project_id id))
          λ _. then_ _ _ (stated _ (k.delete_member project_id id)) λ n. reads _ (search reading))

    remove_member-Keeps :
        (project_id actor id : String) → Keeps P (remove_member p project_id actor id)
    unfolding remove_member
    remove_member-Keeps project_id actor id =
        then_ _ _ (reads _ (project-Reads p project_id)) λ found.
          then_ _ _ (reads _ (attempt-Reads _ (member-Reads p project_id actor))) λ a.
            then_ _ _ (reads _ (search reading)) λ _.
              then_ _ _ (reads _ (attempt-Reads _ (member-Reads p project_id id)))
                λ b. then_ _ _ (reads _ (search reading)) λ _. remove_rows-Keeps project_id id

    register_agent-Keeps :
        (project_id member_id agent_id : String) (manifest : AgentManifest) (now : Time)
        → Keeps P (register_agent p json project_id member_id agent_id manifest now)
    unfolding register_agent
    register_agent-Keeps project_id member_id agent_id manifest now =
        then_ _ _ (reads _ (member-Reads p project_id member_id)) λ m.
          then_ _ _ (reads _ (search reading)) λ encoded.
            then_ _ _ (stated _ (k.upsert_agent _))
              λ n. then_ _ _ (reads _ (search reading)) λ _. reads _ (search reading)

    set_agent_online-Keeps :
        (project_id agent_id member_id : String) (online : Bool) (now : Time)
        → Keeps P (set_agent_online p json project_id agent_id member_id online now)
    unfolding set_agent_online
    set_agent_online-Keeps project_id agent_id member_id online now =
        then_ _ _ (stated _ (k.update_online project_id agent_id member_id online _))
          λ n. reads _ (search reading)

    remove_agent-Keeps :
        (project_id actor selector : String)
        → Keeps P (remove_agent p json project_id actor selector)
    unfolding remove_agent
    remove_agent-Keeps project_id actor selector =
        then_ _ _ (reads _ (agent-Reads p json project_id selector)) λ target.
          then_ _ _ (reads _ (member-Reads p project_id actor))
            λ a. then_ _ _ (reads _ (search reading)) λ _. stated _ (k.delete_agent project_id _)

    create_request-Keeps : (r : Request) → Keeps P (create_request p r)
    unfolding create_request
    create_request-Keeps r = stated _ (k.insert_request _)

    update_request-Keeps :
        (project_id id : String) (status : RequestStatus) (at : Time)
        → Keeps P (update_request p project_id id status at)
    unfolding update_request
    update_request-Keeps project_id id status at = stated _ (k.update_status project_id id status _)

    dropped_keeps : {A : Type 0} (r : Result A × HostDb) → P r.1.tables → P (dropped r).1.tables
    dropped_keeps (ok a, db) h = h
    dropped_keeps (err e, db) h = h

    pub perform-Preserved :
        (o : Operation) (db : HostDb)
        → Allowed MayDelete o
        → P db.tables
        → P (perform p json o db).1.tables
    unfolding perform
    perform-Preserved (creating host owner) db may h = (create_project-Keeps host owner).at db h
    perform-Preserved (deleting id) db may h = (delete_project-Keeps id may).at db h
    perform-Preserved (inviting project_id id key expires) db may h =
        (add_invitation-Keeps project_id id key expires).at db h
    perform-Preserved (joining r now) db may h =
        dropped_keeps _ ((consume_invitation-Keeps r now).at db h)
    perform-Preserved (removing project_id actor id) db may h =
        (remove_member-Keeps project_id actor id).at db h
    perform-Preserved (registering project_id member_id agent_id manifest now) db may h =
        dropped_keeps _ ((register_agent-Keeps project_id member_id agent_id manifest now).at db h)
    perform-Preserved (switching project_id agent_id member_id online now) db may h =
        (set_agent_online-Keeps project_id agent_id member_id online now).at db h
    perform-Preserved (unregistering project_id actor selector) db may h =
        (remove_agent-Keeps project_id actor selector).at db h
    perform-Preserved (requesting r) db may h = (create_request-Keeps r).at db h
    perform-Preserved (updating project_id id status at) db may h =
        (update_request-Keeps project_id id status at).at db h

    pub perform_all-Preserved :
        (os : List Operation) (db : HostDb)
        → All (Allowed MayDelete) os
        → P db.tables
        → P (perform_all p json os db).tables
    unfolding perform_all
    perform_all-Preserved [] db may h = h
    perform_all-Preserved (o ∷ os) db may h =
        perform_all-Preserved os _ may.1 (perform-Preserved o db may.0 h)
