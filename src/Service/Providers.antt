-- ===== src/Service/Providers.antt =====
-- The provider loops of internal/service/daemon.go: `startProvider`, the goroutine that it starts, and
-- `stopProvider`.
pub mod Running
use peercontext.Common.{
  ℕ, suc, ◌*◌, Bool, true, false, Option, none, some, List, [], ◌∷◌, String, any, select, not, ltb,
  ◌||◌, ◌&&◌, ◌==◌, ◌≡◌, nat_eq, string_eq, if◌then◌else◌,
}
use peercontext.Common.Dict.{lookup, insert, delete}
use peercontext.Errors.{GoError}
use peercontext.Protocol.Time.{second}
use peercontext.State.Model.{LocalAgent}
use peercontext.Service.Daemon.{Daemon}

-- the part of startProvider under the lock
unfoldable pub add_provider : String → Daemon → Daemon
add_provider agent_id d = elim (lookup agent_id d.providers) [
  | some _ ↦ d
  | none ↦ record d {
    providers = insert agent_id d.next_context d.providers;
    connected = insert agent_id false d.connected;
    next_context = suc d.next_context;
  }
]

-- startProvider, given what the runtime's check says
unfoldable pub start_provider : Option GoError → LocalAgent → Daemon → Daemon
unfolding add_provider
start_provider (some e) agent d = d
start_provider none agent d = add_provider agent.agent_id d

-- the deletions of the deferred function and of stopProvider
unfoldable pub forget_provider : String → Daemon → Daemon
forget_provider agent_id d = record d {
  providers = delete agent_id d.providers;
  connected = delete agent_id d.connected;
}

-- stopProvider
unfoldable pub stop_provider : String → Daemon → Daemon
unfolding forget_provider
stop_provider agent_id d = elim (lookup agent_id d.providers) [
  | none ↦ forget_provider agent_id d
  | some context ↦ record (forget_provider agent_id d) { canceled = context ∷ d.canceled }
]

-- the function that is told whether a provider is connected
unfoldable pub report_online : String → Bool → Daemon → Daemon
report_online agent_id online d = record d { connected = insert agent_id online d.connected }

-- the wait after a round of the loop
unfoldable pub next_backoff : ℕ → ℕ
next_backoff backoff = if ltb backoff (15 * second) then backoff * 2 else backoff

-- A goroutine of startProvider: its Agent, its context and its wait.
pub record Loop : Type 0 where
  pub agent_id : String
  pub context : ℕ
  pub backoff : ℕ

-- The daemon with its goroutines; `shut` is whether the context of the daemon is canceled.
pub record Loops : Type 0 where
  pub daemon : Daemon
  pub running : List Loop
  pub shut : Bool

-- providerCtx.Err() != nil
unfoldable pub is_canceled : Loop → Loops → Bool
is_canceled l s = s.shut || any (λ c. c == l.context) s.daemon.canceled

abbrev pub is_loop : String → ℕ → Loop → Bool
is_loop agent_id context k = k.agent_id == agent_id && k.context == context

-- startProvider with its goroutine
unfoldable pub started : Option GoError → LocalAgent → Loops → Loops
started (some e) agent s = s
started none agent s = elim (lookup agent.agent_id s.daemon.providers) [
  | some _ ↦ s
  | none ↦ record s {
    daemon = start_provider none agent s.daemon;
    running =
        record { agent_id = agent.agent_id; context = s.daemon.next_context; backoff = second }
        ∷ s.running;
  }
]

-- the loop with this context after a round
unfoldable pub waited : ℕ → List Loop → List Loop
unfolding next_backoff
waited context [] = []
waited context (l ∷ ls) =
    (if l.context == context then record l { backoff = next_backoff l.backoff } else l)
    ∷ waited context ls

-- the deferred function, and the end of the goroutine
unfoldable pub left : Loop → Loops → Loops
unfolding forget_provider
left l s = record s {
  daemon = forget_provider l.agent_id s.daemon;
  running = select (λ k. not (is_loop l.agent_id l.context k)) s.running;
}

-- What the daemon and its goroutines do to the providers.
pub data Step : Loops → Loops → Type 0 where
  start : (s : Loops) (check : Option GoError) (agent : LocalAgent) → Step s (started check agent s)
  stop :
      (s : Loops) (agent_id : String)
      → Step s (record s { daemon = stop_provider agent_id s.daemon })
  report :
      (s : Loops) (l : Loop) (online : Bool)
      → any (is_loop l.agent_id l.context) s.running ≡ true
      → Step s (record s { daemon = report_online l.agent_id online s.daemon })
  wait : (s : Loops) (context : ℕ) → Step s (record s { running = waited context s.running })
  leave :
      (s : Loops) (l : Loop)
      → any (is_loop l.agent_id l.context) s.running ≡ true
      → is_canceled l s ≡ true
      → Step s (left l s)
  shut_down : (s : Loops) → Step s (record s { shut = true })

-- The states that a daemon comes to from one without providers.
pub data Reach (d : Daemon) : Loops → Type 0 where
  begin :
      d.providers ≡ []
      → d.connected ≡ []
      → Reach d (record { daemon = d; running = []; shut = false })
  step : {s t : Loops} → Reach d s → Step s t → Reach d t
