-- ===== src/Lanhost/Store/Projects.antt =====
-- `CreateProject`, `Project`, `Projects` and `DeleteProject` of internal/lanhost/store.go.
pub mod Deletion
use peercontext.Common.{not, ◌||◌, List, map, String, select, find, ◌==◌, string_eq}
use peercontext.Errors.{GoError, sentinel, not_found, Result, ok, err, or_error}
use peercontext.Errors
use peercontext.Protocol.Platform.{Platform, decoded, parsed}
use peercontext.Protocol.Model.{Project, Member}
use peercontext.Lanhost.Sql.{query, exec, transaction, insert_row, ◌>>◌}
use peercontext.Lanhost.Store.Tables.{
  ProjectRow, MemberRow, Tables, StoreM, member_at, member_with_key, order_by,
}

-- INSERT INTO projects(…)
unfoldable pub insert_project : ProjectRow → Tables → Result (Unit {0} × Tables)
unfolding insert_row
insert_project row t =
    Errors.◌>>=◌ (insert_row (λ r. r.id == row.id) row t.projects)
      (λ rows. ok (tt, record t { projects = rows }))

-- INSERT INTO members(…)
unfoldable pub insert_member : MemberRow → Tables → Result (Unit {0} × Tables)
unfolding insert_row
insert_member row t =
    Errors.◌>>=◌
      (insert_row
        (λ r. member_at row.project_id row.id r || member_with_key row.project_id row.public_key r)
        row t.members)
      (λ rows. ok (tt, record t { members = rows }))

-- DELETE FROM requests, agents, invitations, members WHERE project_id=?, in this order
unfoldable pub delete_requests : String → Tables → Result (Unit {0} × Tables)
delete_requests id t =
    ok (tt, record t { requests = select (λ r. not (r.project_id == id)) t.requests })

unfoldable pub delete_agents : String → Tables → Result (Unit {0} × Tables)
delete_agents id t = ok (tt, record t { agents = select (λ r. not (r.project_id == id)) t.agents })

unfoldable pub delete_invitations : String → Tables → Result (Unit {0} × Tables)
delete_invitations id t =
    ok (tt, record t { invitations = select (λ r. not (r.project_id == id)) t.invitations })

unfoldable pub delete_members : String → Tables → Result (Unit {0} × Tables)
delete_members id t =
    ok (tt, record t { members = select (λ r. not (r.project_id == id)) t.members })

-- DELETE FROM projects WHERE id=?
unfoldable pub delete_project_row : String → Tables → Result (Unit {0} × Tables)
delete_project_row id t = ok (tt, record t { projects = select (λ r. not (r.id == id)) t.projects })

-- DeleteProject
unfoldable pub delete_project : String → StoreM (Unit {0})
delete_project id = transaction do
  exec (delete_requests id)
  exec (delete_agents id)
  exec (delete_invitations id)
  exec (delete_members id)
  exec (delete_project_row id)

module _ (p : Platform) where
  project_row : Project → Member → ProjectRow
  project_row project owner = record {
    id = project.id;
    name = project.name;
    host_member_id = owner.id;
    host_public_key = p.base64 project.host_public_key;
    created_at = p.format_time project.created_at;
  }

  unfoldable pub member_row : Member → MemberRow
  member_row m = record {
    project_id = m.project_id;
    id = m.id;
    name = m.name;
    public_key = p.base64 m.public_key;
    created_at = p.format_time m.created_at;
  }

  -- CreateProject
  unfoldable pub create_project : Project → Member → StoreM (Unit {0})
  unfolding project_row member_row insert_project insert_member
  create_project project owner =
      transaction do
        exec (insert_project (project_row project owner))
        exec (insert_member (member_row owner))

  unfoldable pub project_of_row : ProjectRow → Project
  unfolding decoded parsed
  project_of_row r = record {
    schema_version = 2;
    id = r.id;
    name = r.name;
    host_public_key = decoded p r.host_public_key;
    created_at = parsed p r.created_at;
  }

  -- the row that `Project` scans; no row is ErrNotFound
  unfoldable pub select_project : String → Tables → Result Project
  unfolding project_of_row
  select_project id t =
      Errors.◌>>=◌ (or_error (find (λ r. r.id == id) t.projects) (sentinel not_found))
        (λ r. ok (project_of_row r))

  -- Project
  unfoldable pub project : String → StoreM Project
  unfolding select_project
  project id = query (select_project id)

  -- Projects
  unfoldable pub projects : StoreM (List Project)
  unfolding project_of_row order_by
  projects = query (λ t. ok (map project_of_row (order_by (λ r. r.created_at) t.projects)))
