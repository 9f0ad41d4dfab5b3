-- ===== src/Service/Projects/Quiet.antt =====
-- What `createProject` of internal/service/daemon.go asks of a database with no fault to come.
use peercontext.Common.{◌≡◌, refl, [], String}
use peercontext.Errors.{ok}
use peercontext.Protocol.Platform.{Platform}
use peercontext.Protocol.Model.{Project, Member}
use peercontext.Lanhost.Sql.{exec, transaction, ◌>>=◌}
use peercontext.Lanhost.Sql.Quiet.{Quiet, exec-Quiet, bind-Quiet, transaction-Quiet}
use peercontext.Lanhost.Store.Tables.{Tables, HostDb}
use peercontext.Lanhost.Store.Projects.{
  create_project, delete_project, delete_requests, delete_agents, delete_invitations,
  delete_members, delete_project_row,
}
use peercontext.Lanhost.Store.Projects.Deletion.{IsDeleted, delete_project-IsDeleted}

pub create_project-Quiet :
    (p : Platform) (project : Project) (owner : Member) → Quiet (create_project p project owner)
unfolding create_project
create_project-Quiet p project owner =
    transaction-Quiet _ (bind-Quiet _ _ (exec-Quiet _) (λ _. exec-Quiet _))

delete_project_quiet :
    (id : String) (t : Tables) → (delete_project id (record { tables = t; faults = [] })).0 ≡ ok tt
unfolding delete_project transaction ◌>>=◌ exec delete_requests delete_agents delete_invitations
    delete_members delete_project_row
delete_project_quiet id t = refl

-- `DeleteProject` does not fail there, and deletes the Project.
pub quiet-IsDeleted :
    (id : String) (db : HostDb)
    → db.faults ≡ []
    → IsDeleted id db.tables (delete_project id db).1.tables
quiet-IsDeleted id db quiet =
    delete_project-IsDeleted id db (rw quiet (delete_project_quiet id db.tables))
