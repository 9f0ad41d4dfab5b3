-- ===== src/Service/Startup/Started.antt =====
-- That internal/service/daemon.go starts a provider for every Agent of the machine.
use peercontext.Common.{
  ◌≢◌, none, inl, inr, List, [], ◌∷◌, String, All, arith, Option-cases, nat_eq, string_eq, ==_iff,
}
use peercontext.Common.Dict.{lookup, lookup-insert}
use peercontext.State.Model.{LocalAgent}
use peercontext.Service.Daemon.{Daemon}
use peercontext.Service.Providers.{start_provider, add_provider}
use peercontext.Service.Startup.{start_agents}

abbrev pub HasProvider : Daemon → String → Type 0
HasProvider d id = lookup id d.providers ≢ none

add_provider-HasProvider : (id : String) (d : Daemon) → HasProvider (add_provider id d) id
unfolding add_provider
add_provider-HasProvider id d h = elim (Option-cases (lookup id d.providers)) [
  | inl e ↦ ground (
    arith,
    e,
    rw (e, add_provider) at h,
    lookup-insert id id d.next_context d.providers,
    ==_iff id id,
  )
  | inr (c, e) ↦ ground (arith, e, rw (e, add_provider) at h)
]

add_provider-kept :
    (id other : String) (d : Daemon) → HasProvider d other → HasProvider (add_provider id d) other
unfolding add_provider
add_provider-kept id other d has h = elim (Option-cases (lookup id d.providers)) [
  | inl e ↦ ground (
    arith,
    has,
    rw (e, add_provider) at h,
    lookup-insert id other d.next_context d.providers,
    ==_iff id other,
  )
  | inr (c, e) ↦ has (rw (e, add_provider) at h)
]

start_agents-kept :
    (agents : List LocalAgent) (other : String) (d : Daemon)
    → HasProvider d other
    → HasProvider (start_agents none agents d) other
unfolding start_agents start_provider
start_agents-kept [] other d has = has
start_agents-kept (a ∷ as_) other d has =
    start_agents-kept as_ other (add_provider a.agent_id d)
      (add_provider-kept a.agent_id other d has)

-- If the runtime passes its check, every Agent that is started has a provider in the end, and every
-- Agent that had one keeps it.
pub start_agents-HasProvider :
    (agents : List LocalAgent) (d : Daemon)
    → All (λ a. HasProvider (start_agents none agents d) a.agent_id) agents
unfolding start_agents start_provider
start_agents-HasProvider [] d = tt
start_agents-HasProvider (a ∷ as_) d = (
  start_agents-kept as_ a.agent_id (add_provider a.agent_id d)
      (add_provider-HasProvider a.agent_id d),
  start_agents-HasProvider as_ (add_provider a.agent_id d),
)
