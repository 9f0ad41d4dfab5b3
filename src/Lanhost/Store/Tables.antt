-- ===== src/Lanhost/Store/Tables.antt =====
-- The schema of internal/lanhost/store.go: a record for a row, the tables, and the keys that
-- `PRIMARY KEY` and `UNIQUE` declare. Rows are listed in the order of their insertion.
use Prim.Native.Nat.{Ordering}
use Prim.Native.String
use peercontext.Common.{
  ℕ, Bool, true, false, ◌&&◌, Option, List, [], ◌∷◌, String, ◌==◌, string_eq, if◌then◌else◌,
}
use peercontext.Common.Text.{Bytes}
use peercontext.Protocol.Model.{RequestStatus}
use peercontext.Lanhost.Sql.{Db, Sql}

pub record ProjectRow : Type 0 where
  pub id : String
  pub name : String
  pub host_member_id : String
  pub host_public_key : String
  pub created_at : String

pub record MemberRow : Type 0 where
  pub project_id : String
  pub id : String
  pub name : String
  pub public_key : String
  pub created_at : String

pub record InvitationRow : Type 0 where
  pub project_id : String
  pub id : String
  pub public_key : String
  pub expires_at : String
  pub consumed_at : Option String

pub record AgentRow : Type 0 where
  pub project_id : String
  pub id : String
  pub owner_member_id : String
  pub name : String
  pub manifest_json : Bytes
  pub online : ℕ
  pub last_seen_at : Option String
  pub created_at : String

pub record RequestRow : Type 0 where
  pub project_id : String
  pub id : String
  pub requester_member_id : String
  pub agent_id : String
  pub status : RequestStatus
  pub body_bytes : ℕ
  pub body_sha256 : String
  pub created_at : String
  pub expires_at : String
  pub started_at : Option String
  pub completed_at : Option String

pub record Tables : Type 0 where
  pub projects : List ProjectRow
  pub members : List MemberRow
  pub invitations : List InvitationRow
  pub agents : List AgentRow
  pub requests : List RequestRow

abbrev pub empty : Tables
empty = record { projects = []; members = []; invitations = []; agents = []; requests = [] }

abbrev pub HostDb : Type 0
HostDb = Db Tables

abbrev pub StoreM : Type 0 → Type 0
StoreM A = Sql Tables A

-- WHERE project_id=? AND id=?
abbrev pub member_at : String → String → MemberRow → Bool
member_at project_id id r = r.project_id == project_id && r.id == id

abbrev pub invitation_at : String → String → InvitationRow → Bool
invitation_at project_id id r = r.project_id == project_id && r.id == id

abbrev pub agent_at : String → String → AgentRow → Bool
agent_at project_id id r = r.project_id == project_id && r.id == id

abbrev pub request_at : String → String → RequestRow → Bool
request_at project_id id r = r.project_id == project_id && r.id == id

-- the columns of UNIQUE(project_id, public_key) and UNIQUE(project_id, name)
abbrev pub member_with_key : String → String → MemberRow → Bool
member_with_key project_id key r = r.project_id == project_id && r.public_key == key

abbrev pub agent_named : String → String → AgentRow → Bool
agent_named project_id name r = r.project_id == project_id && r.name == name

-- a <= b, as SQLite compares texts
abbrev text_le : String → String → Bool
text_le a b = elim (String.compare a b) [ Ordering.gt ↦ false | _ ↦ true ]

insert_by : {R : Type 0} → (R → String) → R → List R → List R
insert_by key r [] = r ∷ []
insert_by key r (s ∷ rs) = if text_le (key r) (key s) then r ∷ (s ∷ rs) else s ∷ insert_by key r rs

-- ORDER BY a column of text
unfoldable pub order_by : {R : Type 0} → (R → String) → List R → List R
unfolding insert_by
order_by key [] = []
order_by key (r ∷ rs) = insert_by key r (order_by key rs)
