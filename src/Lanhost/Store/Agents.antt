-- ===== src/Lanhost/Store/Agents.antt =====
-- `RegisterAgent`, `SetAgentOnline`, `Agents`, `Agent`, `RemoveAgent` and `scanAgent` of
-- internal/lanhost/store.go.
use peercontext.Common.{
  ℕ, Bool, false, not, ◌&&◌, ◌||◌, none, some, List, [], ◌∷◌, String, select, find, any, count,
  ◌==◌, nat_eq, string_eq, if◌then◌else◌,
}
use peercontext.Common.Text.{Bytes}
use peercontext.Errors.{
  GoError, sentinel, plain, wrap_as, not_found, member_forbidden, Result, ok, err, or_error,
  fail_if,
}
use peercontext.Errors
use peercontext.Protocol.Time.{Time}
use peercontext.Protocol.Platform.{Platform, Codec, parsed}
use peercontext.Protocol.Model.{Agent, AgentManifest}
use peercontext.Lanhost.Sql.{
  query, exec, pure, lift, constraint_error, insert_row, update_where, ◌>>=◌, ◌>>◌,
}
use peercontext.Lanhost.Store.Tables.{AgentRow, Tables, StoreM, agent_at, agent_named, order_by}
use peercontext.Lanhost.Store.Members.{member}

-- another row of the Project holds the name
unfoldable pub name_taken : AgentRow → AgentRow → Bool
name_taken row r = agent_named row.project_id row.name r && not (r.id == row.id)

-- DO UPDATE SET name, manifest_json
abbrev pub rewrite : AgentRow → AgentRow → AgentRow
rewrite row r = record r { name = row.name; manifest_json = row.manifest_json }

-- the row of the same owner that the clause `WHERE agents.owner_member_id=…` updates
abbrev pub owned_same : AgentRow → AgentRow → Bool
owned_same row r = agent_at row.project_id row.id r && r.owner_member_id == row.owner_member_id

-- INSERT INTO agents(…) ON CONFLICT(project_id,id) DO UPDATE …, with the number of rows. The
-- conflict with the key is found first; what is then written must keep names unique.
unfoldable pub upsert_agent : AgentRow → Tables → Result (ℕ × Tables)
unfolding name_taken insert_row update_where
upsert_agent row t =
    if any (agent_at row.project_id row.id) t.agents
    then if any (owned_same row) t.agents
      then if any (name_taken row) t.agents
        then err constraint_error
        else ok (1, record t { agents = update_where (owned_same row) (rewrite row) t.agents })
      else ok (0, t)
    else Errors.◌>>=◌ (insert_row (agent_named row.project_id row.name) row t.agents)
        (λ rows. ok (1, record t { agents = rows }))

abbrev pub online_at : Bool → String → AgentRow → AgentRow
online_at online at r = record r { online = if online then 1 else 0; last_seen_at = some at }

abbrev pub owned_agent_at : String → String → String → AgentRow → Bool
owned_agent_at project_id id member_id r =
    agent_at project_id id r && r.owner_member_id == member_id

-- UPDATE agents SET online=?,last_seen_at=? …, with the number of rows
unfoldable pub update_online :
    String → String → String → Bool → String → Tables → Result (ℕ × Tables)
unfolding update_where
update_online project_id id member_id online at t = ok (
  count (owned_agent_at project_id id member_id) t.agents,
  record t {
    agents = update_where (owned_agent_at project_id id member_id) (online_at online at) t.agents;
  },
)

-- DELETE FROM agents WHERE project_id=? AND id=?
unfoldable pub delete_agent : String → String → Tables → Result (Unit {0} × Tables)
delete_agent project_id id t =
    ok (tt, record t { agents = select (λ r. not (agent_at project_id id r)) t.agents })

-- WHERE project_id=? AND (id=? OR name=?): of several rows, the one inserted first
abbrev pub selected : String → String → AgentRow → Bool
selected project_id selector r =
    r.project_id == project_id && (r.id == selector || r.name == selector)

module _ (p : Platform) (json : Codec AgentManifest) where
  -- scanAgent
  unfoldable pub scan_agent : AgentRow → Result Agent
  unfolding parsed
  scan_agent r =
      Errors.◌>>=◌
        (or_error (json.unmarshal r.manifest_json) (wrap_as "decode agent manifest" (plain "json")))
        (λ manifest. ok (record {
          schema_version = 2;
          id = r.id;
          project_id = r.project_id;
          owner_member_id = r.owner_member_id;
          manifest = manifest;
          online = r.online == 1;
          updated_at = elim r.last_seen_at [ none ↦ parsed p r.created_at | some at ↦ parsed p at ];
        }))

  scan_all : List AgentRow → Result (List Agent)
  unfolding scan_agent
  scan_all [] = ok []
  scan_all (r ∷ rs) =
      let rest = scan_all rs in
      Errors.◌>>=◌ (scan_agent r) (λ a. Errors.◌>>=◌ rest (λ as_. ok (a ∷ as_)))

  -- Agents
  unfoldable pub agents : String → StoreM (List Agent)
  unfolding scan_all order_by
  agents project_id =
      query
        (λ t. scan_all (order_by (λ r. r.name) (select (λ r. r.project_id == project_id) t.agents)))

  unfoldable pub select_agent : String → String → Tables → Result Agent
  unfolding scan_agent
  select_agent project_id selector t =
      Errors.◌>>=◌ (or_error (find (selected project_id selector) t.agents) (sentinel not_found))
        scan_agent

  -- Agent
  unfoldable pub agent : String → String → StoreM Agent
  unfolding select_agent
  agent project_id selector = query (select_agent project_id selector)

  agent_row : String → String → String → AgentManifest → Bytes → Time → AgentRow
  agent_row project_id member_id agent_id manifest encoded now = record {
    project_id = project_id;
    id = agent_id;
    owner_member_id = member_id;
    name = manifest.name;
    manifest_json = encoded;
    online = 0;
    last_seen_at = none;
    created_at = p.format_time now;
  }

  -- RegisterAgent
  unfoldable pub register_agent : String → String → String → AgentManifest → Time → StoreM Agent
  unfolding member agent_row upsert_agent
  register_agent project_id member_id agent_id manifest now = do
    registrant ← member p project_id member_id
    encoded ← lift (or_error (json.marshal manifest) (plain "json"))
    n ← exec (upsert_agent (agent_row project_id member_id agent_id manifest encoded now))
    lift (fail_if (n == 0) (sentinel member_forbidden))
    pure (record {
      schema_version = 2;
      id = agent_id;
      project_id = project_id;
      owner_member_id = member_id;
      manifest = manifest;
      online = false;
      updated_at = now;
    })

  -- SetAgentOnline
  unfoldable pub set_agent_online : String → String → String → Bool → Time → StoreM (Unit {0})
  unfolding update_online
  set_agent_online project_id agent_id member_id online now = do
    n ← exec (update_online project_id agent_id member_id online (p.format_time now))
    lift (fail_if (n == 0) (sentinel not_found))

  -- RemoveAgent
  unfoldable pub remove_agent : String → String → String → StoreM (Unit {0})
  unfolding agent member delete_agent
  remove_agent project_id actor_id selector = do
    target ← agent project_id selector
    actor ← member p project_id actor_id
    lift (
        fail_if (not (actor_id == target.owner_member_id) && not actor.owner)
          (sentinel member_forbidden))
    exec (delete_agent project_id target.id)
