-- ===== src/Lanhost/Store/Projects/Deletion.antt =====
-- What `DeleteProject` of internal/lanhost/store.go deletes, and what it leaves.
use peercontext.Common.{
  ◌≡◌, ◌≢◌, ◌∙◌, ap, false, not, List, String, any, select, arith, any-select_not, select-select,
  ◌==◌, string_eq, ==_iff,
}
use peercontext.Errors.{Result, ok}
use peercontext.Lanhost.Sql.{exec}
use peercontext.Lanhost.Sql.Cases.{exec_ok, transaction_ok, bind_ok}
use peercontext.Lanhost.Store.Tables.{Tables, HostDb}
use peercontext.Lanhost.Store.Projects.{
  delete_project, delete_requests, delete_agents, delete_invitations, delete_members,
  delete_project_row,
}

-- No row of the list is of the Project, and the rows of every other Project are the same.
pub record IsRid {R : Type 0} (of : R → String) (id : String) (before after : List R) : Type 0 where
  pub rid : any (λ r. of r == id) after ≡ false
  pub others :
      (other : String)
      → other ≢ id
      → select (λ r. of r == other) after ≡ select (λ r. of r == other) before

select-IsRid :
    {R : Type 0} (of : R → String) (id : String) (rows : List R)
    → IsRid of id rows (select (λ r. not (of r == id)) rows)
select-IsRid of id rows = record {
  rid = any-select_not (λ r. of r == id) (λ r. not (of r == id)) rows (λ r h. ground arith);
  others = λ other ne.
      select-select (λ r. of r == other) (λ r. not (of r == id)) rows
        (λ r h. ground (arith, ==_iff (of r) other, ==_iff (of r) id));
}

-- All five tables are rid of the Project.
pub record IsDeleted (id : String) (before after : Tables) : Type 0 where
  pub projects : IsRid (λ r. r.id) id before.projects after.projects
  pub members : IsRid (λ r. r.project_id) id before.members after.members
  pub invitations : IsRid (λ r. r.project_id) id before.invitations after.invitations
  pub agents : IsRid (λ r. r.project_id) id before.agents after.agents
  pub requests : IsRid (λ r. r.project_id) id before.requests after.requests

swept : String → Tables → Tables
swept id t = record {
  projects = select (λ r. not (r.id == id)) t.projects;
  members = select (λ r. not (r.project_id == id)) t.members;
  invitations = select (λ r. not (r.project_id == id)) t.invitations;
  agents = select (λ r. not (r.project_id == id)) t.agents;
  requests = select (λ r. not (r.project_id == id)) t.requests;
}

swept-IsDeleted : (id : String) (t : Tables) → IsDeleted id t (swept id t)
unfolding swept
swept-IsDeleted id t = record {
  projects = select-IsRid (λ r. r.id) id t.projects;
  members = select-IsRid (λ r. r.project_id) id t.members;
  invitations = select-IsRid (λ r. r.project_id) id t.invitations;
  agents = select-IsRid (λ r. r.project_id) id t.agents;
  requests = select-IsRid (λ r. r.project_id) id t.requests;
}

deleted :
    (id : String) (t t₁ t₂ t₃ t₄ t₅ : Tables)
    → delete_requests id t ≡ ok (tt, t₁)
    → delete_agents id t₁ ≡ ok (tt, t₂)
    → delete_invitations id t₂ ≡ ok (tt, t₃)
    → delete_members id t₃ ≡ ok (tt, t₄)
    → delete_project_row id t₄ ≡ ok (tt, t₅)
    → t₅ ≡ swept id t
unfolding swept delete_requests delete_agents delete_invitations delete_members delete_project_row
deleted id t t₁ t₂ t₃ t₄ t₅ a b c d e = ground arith

-- A `DeleteProject` that succeeds leaves no row of the Project in any table, and every row of every
-- other Project, in the same order.
pub delete_project-IsDeleted :
    (id : String) (db : HostDb)
    → (delete_project id db).0 ≡ ok tt
    → IsDeleted id db.tables (delete_project id db).1.tables
unfolding delete_project
delete_project-IsDeleted id db h =
    let (db₀, same, body, after) = transaction_ok _ db tt h in
    let db₁ : HostDb = (exec (delete_requests id) db₀).1 in
    let db₂ : HostDb = (exec (delete_agents id) db₁).1 in
    let db₃ : HostDb = (exec (delete_invitations id) db₂).1 in
    let db₄ : HostDb = (exec (delete_members id) db₃).1 in
    let db₅ : HostDb = (exec (delete_project_row id) db₄).1 in
    let a = bind_ok (exec (delete_requests id)) _ db₀ tt body in
    let b = bind_ok (exec (delete_agents id)) _ db₁ tt a.second in
    let c = bind_ok (exec (delete_invitations id)) _ db₂ tt b.second in
    let d = bind_ok (exec (delete_members id)) _ db₃ tt c.second in
    let rows =
      deleted id db₀.tables db₁.tables db₂.tables db₃.tables db₄.tables db₅.tables
        (exec_ok _ db₀ tt a.first) (exec_ok _ db₁ tt b.first) (exec_ok _ db₂ tt c.first)
        (exec_ok _ db₃ tt d.first) (exec_ok _ db₄ tt d.second) in
    let ended : (delete_project id db).1.tables ≡ swept id db.tables =
      after
      ∙ ap (λ (r : Result (Unit {0}) × HostDb). r.1.tables) (a.state ∙ b.state ∙ c.state ∙ d.state)
      ∙ rows
      ∙ ap (swept id) same in
    rw ended (swept-IsDeleted id db.tables)
