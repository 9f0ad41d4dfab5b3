-- ===== src/Lanhost/Store/Members.antt =====
-- `Member`, `Members` and `RemoveMember` of internal/lanhost/store.go.
pub mod Removal
use peercontext.Common.{
  ℕ, Bool, false, not, ◌&&◌, List, map, String, select, find, count, ◌==◌, nat_eq, string_eq,
  bytes_eq,
}
use peercontext.Errors.{
  GoError, sentinel, not_found, member_forbidden, Result, ok, err, or_error, fail_if,
}
use peercontext.Errors
use peercontext.Protocol.Platform.{Platform, decoded, parsed}
use peercontext.Protocol.Model.{Project, Member}
use peercontext.Lanhost.Sql.{query, exec, transaction, pure, lift, attempt, ◌>>=◌, ◌>>◌}
use peercontext.Lanhost.Store.Tables.{MemberRow, Tables, StoreM, member_at, order_by}
use peercontext.Lanhost.Store.Projects.{project}

-- m.Owner = string(m.PublicKey) == string(p.HostPublicKey)
unfoldable pub owned_by : Member → Project → Member
owned_by m p = record m { owner = m.public_key == p.host_public_key }

-- `m.Owner` stays false where the Project could not be read
unfoldable pub with_owner : Member → Result Project → Member
unfolding owned_by
with_owner m (ok p) = owned_by m p
with_owner m (err e) = m

-- DELETE FROM agents WHERE project_id=? AND owner_member_id=?
unfoldable pub delete_agents_of : String → String → Tables → Result (Unit {0} × Tables)
delete_agents_of project_id member_id t = ok (
  tt,
  record t {
    agents =
        select (λ r. not (r.project_id == project_id && r.owner_member_id == member_id)) t.agents;
  },
)

-- DELETE FROM members WHERE project_id=? AND id=?, with the number of rows
unfoldable pub delete_member : String → String → Tables → Result (ℕ × Tables)
delete_member project_id member_id t = ok (
  count (member_at project_id member_id) t.members,
  record t { members = select (λ r. not (member_at project_id member_id r)) t.members },
)

-- `if err != nil || bad(m) { return ErrMemberForbidden }`
unfoldable pub or_forbidden : (Member → Bool) → Result Member → Result (Unit {0})
or_forbidden bad (ok m) = fail_if (bad m) (sentinel member_forbidden)
or_forbidden bad (err e) = err (sentinel member_forbidden)

unfoldable pub remove_rows : String → String → StoreM (Unit {0})
remove_rows project_id member_id = transaction do
  exec (delete_agents_of project_id member_id)
  n ← exec (delete_member project_id member_id)
  lift (fail_if (n == 0) (sentinel not_found))

module _ (p : Platform) where
  -- the columns; `Owner` is set afterwards
  unfoldable pub member_of_row : MemberRow → Member
  unfolding decoded parsed
  member_of_row r = record {
    schema_version = 2;
    id = r.id;
    project_id = r.project_id;
    name = r.name;
    public_key = decoded p r.public_key;
    owner = false;
    created_at = parsed p r.created_at;
  }

  -- no row is ErrMemberForbidden
  unfoldable pub select_member : String → String → Tables → Result Member
  unfolding member_of_row
  select_member project_id id t =
      Errors.◌>>=◌ (or_error (find (member_at project_id id) t.members) (sentinel member_forbidden))
        (λ r. ok (member_of_row r))

  -- Member
  unfoldable pub member : String → String → StoreM Member
  member project_id id = do
    m ← query (select_member project_id id)
    owner ← attempt (project p project_id)
    pure (with_owner m owner)

  select_members : String → Project → Tables → Result (List Member)
  unfolding member_of_row owned_by order_by
  select_members project_id host t = ok (
      map (λ r. owned_by (member_of_row r) host)
        (order_by (λ r. r.created_at) (select (λ r. r.project_id == project_id) t.members)))

  -- Members
  unfoldable pub members : String → StoreM (List Member)
  unfolding select_members project
  members project_id = do host ← project p project_id; query (select_members project_id host)

  -- RemoveMember
  unfoldable pub remove_member : String → String → String → StoreM (Unit {0})
  remove_member project_id actor_id member_id = do
    found ← project p project_id
    actor ← attempt (member project_id actor_id)
    lift (or_forbidden (λ m. not m.owner) actor)
    target ← attempt (member project_id member_id)
    lift (or_forbidden (λ m. m.owner) target)
    remove_rows project_id member_id
