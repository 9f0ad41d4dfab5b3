-- ===== src/Service/Startup.antt =====
-- `Run` of internal/service/daemon.go up to its servers: what the daemon does when it starts.
pub mod Started
use peercontext.Common.{
  ℕ, Bool, true, false, not, Option, none, some, List, [], ◌∷◌, String, ◌==◌, nat_eq, if◌then◌else◌,
}
use peercontext.Errors.{GoError, plain, Result, ok, err, fail_if}
use peercontext.Lanhost.Store.Tables.{HostDb}
use peercontext.State.Model.{Profile, LocalAgent}
use peercontext.State.Disk.{load}
use peercontext.State.Profiles.{profiles, set_listen_port, update_endpoints}
use peercontext.State.Agents.{local_agents}
use peercontext.Service.Daemon.{Daemon, Act, Setup, lift, on_machine, ignoring, ◌>>=◌, ◌>>◌}
use peercontext.Service.Providers.{start_provider}
use peercontext.Service.Endpoints.{Found, remove_stale_socket}

-- What the system answers: `listen_at` is net.Listen at a port, with the port that it comes to.
pub record Surface : Type 0 where
  pub is_supported : Bool
  pub make_directory : Option GoError
  pub open_store : Result HostDb
  pub listen_at : ℕ → Result ℕ
  pub endpoints : ℕ → List String
  pub socket : Found
  pub removed : Result (Unit {0})
  pub listen_local : Option GoError
  pub protect : Option GoError
  pub runtime : Option GoError

failing : Option GoError → Result (Unit {0})
failing none = ok tt
failing (some e) = err e

-- the port of the last run, or any port if that is taken
unfoldable pub listen : (ℕ → Result ℕ) → ℕ → Result ℕ
listen listen_at port = elim (listen_at port) [
  | ok p ↦ ok p
  | err e ↦ if not (port == 0) then listen_at 0 else err e
]

-- startProvider of each Agent
unfoldable pub start_agents : Option GoError → List LocalAgent → Daemon → Daemon
unfolding start_provider
start_agents runtime [] d = d
start_agents runtime (a ∷ as_) d = start_agents runtime as_ (start_provider runtime a d)

module _ (setup : Setup) (s : Surface) where
  -- the endpoints of the hosted Projects, with errors dropped
  refresh_all : ℕ → List Profile → Act (Unit {0})
  unfolding ◌>>=◌
  refresh_all port [] d = (ok tt, d)
  refresh_all port (r ∷ rs) d =
      let refreshed =
        ignoring (on_machine (update_endpoints setup.state_json r.project_id (s.endpoints port)))
          d in
      refresh_all port rs (if r.hosted then refreshed.1 else d)

  refresh_hosted : ℕ → Act (Unit {0})
  unfolding refresh_all on_machine
  refresh_hosted port d =
      let (found, d') = on_machine (profiles setup.state_json) d in
      elim found [ err e ↦ (ok tt, d') | ok rs ↦ refresh_all port rs d' ]

  start_local_agents : Act (Unit {0})
  unfolding start_agents on_machine
  start_local_agents d =
      let (found, d') = on_machine (local_agents setup.state_json) d in
      (ok tt, elim found [ err e ↦ d' | ok as_ ↦ start_agents s.runtime as_ d' ])

  -- Run, up to the servers
  unfoldable pub start_up : Act (Unit {0})
  unfolding listen failing refresh_hosted start_local_agents
  start_up = do
    lift (fail_if (not s.is_supported) (plain "PeerContext 0.2.0 supports Apple Silicon Mac only"))
    lift (failing s.make_directory)
    db ← lift s.open_store
    (λ d. (ok tt, record d { db = db }))
    state ← on_machine (load setup.state_json)
    port ← lift (listen s.listen_at state.listen_port)
    on_machine (set_listen_port setup.state_json port)
    refresh_hosted port
    lift (remove_stale_socket s.socket s.removed)
    lift (failing s.listen_local)
    lift (failing s.protect)
    start_local_agents
