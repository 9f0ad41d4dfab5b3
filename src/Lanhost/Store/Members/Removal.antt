-- ===== src/Lanhost/Store/Members/Removal.antt =====
-- Who can remove a member, and what `RemoveMember` of internal/lanhost/store.go leaves.
use peercontext.Common.{
  ℕ, ◌≡◌, ◌≢◌, refl, ap, subst, ◌∙◌, Bool, true, false, not, ◌&&◌, none, some, inl, inr, List, [],
  ◌∷◌, String, find, any, count, arith, any-select_not, find-select, Option-cases, ◌==◌, nat_eq,
  string_eq, bytes_eq, ==_iff, any-false-find,
}
use peercontext.Errors.{Result, ok, err}
use peercontext.Protocol.Platform.{Platform, decoded}
use peercontext.Protocol.Model.{Project, Member}
use peercontext.Lanhost.Sql.{exec, lift, pure, query, attempt, transaction}
use peercontext.Lanhost.Sql.Effects.{query-Reads}
use peercontext.Lanhost.Sql.Cases.{query_ok, exec_ok, transaction_ok, bind_ok}
use peercontext.Lanhost.Store.Tables.{ProjectRow, MemberRow, AgentRow, Tables, HostDb, member_at}
use peercontext.Lanhost.Store.Projects.{project, select_project}
use peercontext.Lanhost.Operations.Atomic.{project-Reads, member-Reads}
use peercontext.Lanhost.Store.Members.{
  member, select_member, member_of_row, with_owner, delete_agents_of, delete_member, or_forbidden,
  remove_rows, remove_member,
}

-- The member is in the Project, and has the key of its host.
pub record IsOwner (p : Platform) (project_id id : String) (t : Tables) : Type 0 where
  pub row : MemberRow
  pub host : ProjectRow
  pub found : find (member_at project_id id) t.members ≡ some row
  pub hosted : find (λ r. r.id == project_id) t.projects ≡ some host
  pub same_key : decoded p row.public_key ≡ decoded p host.host_public_key

abbrev owned_agent : String → String → AgentRow → Bool
owned_agent project_id id r = r.project_id == project_id && r.owner_member_id == id

-- The member and its agents are gone, and everything else is there.
pub record IsGone (project_id id : String) (before after : Tables) : Type 0 where
  pub member : find (member_at project_id id) after.members ≡ none
  pub agents : any (owned_agent project_id id) after.agents ≡ false
  pub was : find (member_at project_id id) before.members ≢ none
  pub others :
      (other : String)
      → other ≢ id
      → find (member_at project_id other) after.members
        ≡ find (member_at project_id other) before.members
  pub projects : after.projects ≡ before.projects
  pub invitations : after.invitations ≡ before.invitations
  pub requests : after.requests ≡ before.requests

find-none-count : {A : Type 0} (q : A → Bool) (xs : List A) → find q xs ≡ none → count q xs ≡ 0
unfolding find count
find-none-count q [] h = refl
find-none-count q (x ∷ xs) h = ground (arith, find-none-count q xs)

gone :
    (project_id id : String) (t t₁ t₂ : Tables) (n : ℕ)
    → delete_agents_of project_id id t ≡ ok (tt, t₁)
    → delete_member project_id id t₁ ≡ ok (n, t₂)
    → (n == 0) ≡ false
    → IsGone project_id id t t₂
unfolding delete_agents_of delete_member
gone project_id id t t₁ t₂ n first second some_ = record {
  member =
      let absent = any-false-find (member_at project_id id) _ (
        any-select_not (member_at project_id id) (λ r. not (member_at project_id id r)) t.members
          (λ r h. ground arith)) in
      ground (arith, absent);
  agents =
      let absent =
        any-select_not (owned_agent project_id id) (λ r. not (owned_agent project_id id r)) t.agents
          (λ r h. ground arith) in
      ground (arith, absent);
  was = λ e. ground (arith, find-none-count (member_at project_id id) t.members e);
  others = λ other ne.
      let kept =
        find-select (member_at project_id other) (λ r. not (member_at project_id id r)) t.members
          (λ r h. ground (arith, ==_iff r.id other, ==_iff r.id id)) in
      ground (arith, kept);
  projects = ground arith;
  invitations = ground arith;
  requests = ground arith;
}

module _ (p : Platform) where
  selected_project :
      (id : String) (t : Tables) (host : Project)
      → select_project p id t ≡ ok host
      → (row : ProjectRow) × (find (λ r. r.id == id) t.projects ≡ some row)
        × (host.host_public_key ≡ decoded p row.host_public_key)
  unfolding select_project
  selected_project id t host h = elim (Option-cases (find (λ r. r.id == id) t.projects)) [
    | inl e ↦ absurd (ground (arith, e))
    | inr (row, e) ↦ (row, e, ground (arith, e))
  ]

  selected_member :
      (project_id id : String) (t : Tables) (m : Member)
      → select_member p project_id id t ≡ ok m
      → (row : MemberRow) × (find (member_at project_id id) t.members ≡ some row)
        × (m ≡ member_of_row p row)
  unfolding select_member
  selected_member project_id id t m h =
      elim (Option-cases (find (member_at project_id id) t.members)) [
        | inl e ↦ absurd (ground (arith, e))
        | inr (row, e) ↦ (row, e, ground (arith, e))
      ]

  -- A member that is read as the owner is the owner.
  owner_read :
      (project_id : String) (t : Tables) (row : MemberRow) (m : Member) (r : Result Project)
      → ((host : Project) → r ≡ ok host → select_project p project_id t ≡ ok host)
      → with_owner (member_of_row p row) r ≡ m
      → m.owner ≡ true
      → (host : ProjectRow) × (find (λ h. h.id == project_id) t.projects ≡ some host)
        × (decoded p row.public_key ≡ decoded p host.host_public_key)
  unfolding with_owner member_of_row
  owner_read project_id t row m (err e) reads same owner = absurd (ground arith)
  owner_read project_id t row m (ok host) reads same owner =
      let (h, found, key) = selected_project project_id t host (reads host refl) in
      (h, found, ground (arith, ==_iff (decoded p row.public_key) host.host_public_key))

  member-IsOwner :
      (project_id id : String) (db : HostDb) (m : Member)
      → (member p project_id id db).0 ≡ ok m
      → m.owner ≡ true
      → IsOwner p project_id id db.tables
  unfolding member attempt pure project
  member-IsOwner project_id id db m h owner =
      let b = bind_ok (query (select_member p project_id id)) _ db m h in
      let c = bind_ok (attempt (project p project_id)) _ _ m b.second in
      let (row, found, same) =
        selected_member project_id id db.tables b.value (query_ok _ db b.value b.first) in
      let db₁ : HostDb = (query (select_member p project_id id) db).1 in
      let answered : (project p project_id db₁).0 ≡ c.value = ground (arith, c.first) in
      let finally : with_owner (member_of_row p row) c.value ≡ m = ground (arith, c.second, same) in
      let (host, hosted, key) =
        owner_read project_id db₁.tables row m c.value (λ h e. query_ok _ db₁ h (answered ∙ e))
          finally owner in
      record {
        row = row;
        host = host;
        found = found;
        hosted =
            subst (λ (t : Tables). find (λ h. h.id == project_id) t.projects ≡ some host)
              ((query-Reads _).same db) hosted;
        same_key = key;
      }

  -- What the two deletes leave.
  remove_rows_ok :
      (project_id id : String) (db : HostDb)
      → (remove_rows project_id id db).0 ≡ ok tt
      → IsGone project_id id db.tables (remove_rows project_id id db).1.tables
  unfolding remove_rows lift
  remove_rows_ok project_id id db h =
      let (db', same, body, after) = transaction_ok _ db tt h in
      let b = bind_ok (exec (delete_agents_of project_id id)) _ db' tt body in
      let c = bind_ok (exec (delete_member project_id id)) _ _ tt b.second in
      let db₁ : HostDb = (exec (delete_agents_of project_id id) db').1 in
      let db₂ : HostDb = (exec (delete_member project_id id) db₁).1 in
      let ended : (transaction _ db).1.tables ≡ db₂.tables =
        after ∙ ap (λ (r : Result (Unit {0}) × HostDb). r.1.tables) (b.state ∙ c.state) in
      rw ended (
        subst (λ (t : Tables). IsGone project_id id t db₂.tables) same
          (gone project_id id db'.tables db₁.tables db₂.tables c.value (exec_ok _ db' tt b.first)
            (exec_ok _ db₁ c.value c.first) (ground (arith, c.second))))

  -- The guard on the actor passes only for a member that was read as the owner.
  owner_passed :
      (r : Result Member)
      → or_forbidden (λ m. not m.owner) r ≡ ok tt
      → (m : Member) × (r ≡ ok m) × (m.owner ≡ true)
  unfolding or_forbidden
  owner_passed (ok m) h = (m, refl, ground arith)
  owner_passed (err e) h = absurd (ground arith)

  -- `RemoveMember` succeeds only for the host of the Project and a member of it. The member and all
  -- its agents are then gone, and the other members, the Projects, the invitations and the requests
  -- are as they were.
  pub remove_member_ok :
      (project_id actor id : String) (db : HostDb)
      → (remove_member p project_id actor id db).0 ≡ ok tt
      → IsOwner p project_id actor db.tables
        × IsGone project_id id db.tables (remove_member p project_id actor id db).1.tables
  unfolding remove_member attempt lift or_forbidden
  remove_member_ok project_id actor id db h =
      let b = bind_ok (project p project_id) _ db tt h in
      let c = bind_ok (attempt (member p project_id actor)) _ _ tt b.second in
      let d = bind_ok (lift (or_forbidden (λ m. not m.owner) c.value)) _ _ tt c.second in
      let e = bind_ok (attempt (member p project_id id)) _ _ tt d.second in
      let f = bind_ok (lift (or_forbidden (λ m. m.owner) e.value)) _ _ tt e.second in
      let db₁ : HostDb = (project p project_id db).1 in
      let db₂ : HostDb = (member p project_id actor db₁).1 in
      let db₃ : HostDb = (member p project_id id db₂).1 in
      let same₁ : db₁.tables ≡ db.tables = (project-Reads p project_id).same db in
      let same₂ : db₂.tables ≡ db.tables = (member-Reads p project_id actor).same db₁ ∙ same₁ in
      let same₃ : db₃.tables ≡ db.tables = (member-Reads p project_id id).same db₂ ∙ same₂ in
      let (m, passed, owner) = owner_passed c.value (ground (arith, d.first)) in
      let read : (member p project_id actor db₁).0 ≡ ok m = ground (arith, c.first, passed) in
      let ended : remove_member p project_id actor id db ≡ remove_rows project_id id db₃ =
        b.state ∙ c.state ∙ d.state ∙ e.state ∙ f.state in
      (
        subst (IsOwner p project_id actor) same₁ (member-IsOwner project_id actor db₁ m read owner),
        rw ended (
            subst (λ (t : Tables). IsGone project_id id t (remove_rows project_id id db₃).1.tables)
              same₃ (remove_rows_ok project_id id db₃ f.second)),
      )
