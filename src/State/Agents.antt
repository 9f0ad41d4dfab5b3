-- ===== src/State/Agents.antt =====
-- `LocalAgents`, `PutAgent` and `RemoveAgent` of internal/v2state/state.go.
use peercontext.Common.{List, String, string_eq}
use peercontext.Common.Dict.{insert, delete}
use peercontext.Errors.{Result, ok}
use peercontext.State.Model.{LocalAgent, StateJson}
use peercontext.State.Disk.{Local, load, pure, lift, ◌>>=◌}
use peercontext.State.Profiles.{update, sort_by, values}

module _ (json : StateJson) where
  -- LocalAgents
  unfoldable pub local_agents : Local (List LocalAgent)
  unfolding sort_by ◌>>=◌
  local_agents = do s ← load json; pure (sort_by (λ a. a.agent_id) (values s.agents))

  -- PutAgent; `absolute` is filepath.Abs
  unfoldable pub put_agent : (String → Result String) → LocalAgent → Local (Unit {0})
  unfolding update ◌>>=◌
  put_agent absolute agent = do
    repository ← lift (absolute agent.repository)
    update json (λ s. ok (record s {
      agents = insert agent.agent_id (record agent { repository = repository }) s.agents;
    }))

  -- RemoveAgent
  unfoldable pub remove_agent : String → Local (Unit {0})
  unfolding update
  remove_agent agent_id = update json (λ s. ok (record s { agents = delete agent_id s.agents }))
