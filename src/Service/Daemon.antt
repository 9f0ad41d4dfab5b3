-- ===== src/Service/Daemon.antt =====
-- The state of `Daemon` of internal/service/daemon.go and what its commands take from outside,
-- `currentClient`, `client` and `hostIdentity`.
pub mod Cases
pub mod Calling
pub mod Hosting
use peercontext.Common.{
  ℕ, Bool, true, false, not, Option, none, some, List, [], ◌∷◌, String, if◌then◌else◌,
}
use peercontext.Common.Dict.{Dict}
use peercontext.Common.Text.{Bytes}
use peercontext.Errors.{GoError, plain, Result, ok, err}
use peercontext.Protocol.Time.{Time}
use peercontext.Protocol.Platform.{Platform, Codec}
use peercontext.Protocol.Model.{default_signature_max_age}
use peercontext.Protocol.Invitation.{Invitation}
use peercontext.Lanhost.Replay.{new_replay_guard}
use peercontext.Lanhost.Wire.{HostIdentity}
use peercontext.Lanhost.Store.Tables.{HostDb, StoreM}
use peercontext.Lanhost.Client.{Client, Reading, Surroundings, prioritize_endpoint}
use peercontext.Lanhost.Client.Requests
use peercontext.State.Model.{Profile, State, StateJson}
use peercontext.State.Disk.{Machine, Local}
use peercontext.State.Keys.{Manager, private_key}
use peercontext.State.Profiles.{current, profile, update_endpoints}

-- A cancel function is the number of its context; `canceled` lists those that were called.
pub record Daemon : Type 0 where
  pub machine : Machine
  pub db : HostDb
  pub providers : Dict String ℕ
  pub connected : Dict String Bool
  pub canceled : List ℕ
  pub next_context : ℕ

-- NewDaemon
unfoldable pub new_daemon : Machine → HostDb → Daemon
new_daemon machine db = record {
  machine = machine;
  db = db;
  providers = [];
  connected = [];
  canceled = [];
  next_context = 0;
}

abbrev pub Act : Type 0 → Type 0
Act A = Daemon → Result A × Daemon

unfoldable pub pure : {A : Type 0} → A → Act A
pure a d = (ok a, d)

unfoldable pub lift : {A : Type 0} → Result A → Act A
lift r d = (r, d)

unfoldable pub on_machine : {A : Type 0} → Local A → Act A
on_machine act d = let (r, m) = act d.machine in (r, record d { machine = m })

unfoldable pub on_store : {A : Type 0} → StoreM A → Act A
on_store act d = let (r, db) = act d.db in (r, record d { db = db })

abbrev pub continue : {A B : Type 0} → Result A → (A → Act B) → Act B
continue (ok a) f d = f a d
continue (err e) f d = (err e, d)

infixl 5 ◌>>=◌
unfoldable pub ◌>>=◌ : {A B : Type 0} → Act A → (A → Act B) → Act B
unfolding pure lift on_machine on_store
◌>>=◌ act f d = let (r, d') = act d in continue r f d'

infixl 5 ◌>>◌
abbrev pub ◌>>◌ : {B : Type 0} → Act (Unit {0}) → Act B → Act B
act >> rest = act >>= λ _. rest

abbrev failed_or : {A : Type 0} → Act (Unit {0}) → Result A × Daemon → Result A × Daemon
failed_or cleanup (ok a, d) = (ok a, d)
failed_or cleanup (err e, d) = (err e, (cleanup d).1)

-- if err != nil { _ = cleanup; return err }
unfoldable pub or_undo : {A : Type 0} → Act A → Act (Unit {0}) → Act A
or_undo act cleanup d = failed_or cleanup (act d)

-- _ = act
unfoldable pub ignoring : Act (Unit {0}) → Act (Unit {0})
ignoring act d = (ok tt, (act d).1)

-- One call of `RPC`: the nonce that is drawn, what the network answers, and what other goroutines of
-- the daemon do while it waits, its own host server among them.
pub record Call : Type 0 where
  pub nonce : Result String
  pub around : Surroundings
  pub meanwhile : Daemon → Daemon

-- The parameters of a daemon: the platform, JSON of the state and of an invitation, what the client
-- reads, the manager of the keys, and whether a profile of the older protocol is there.
pub record Setup : Type 1 where
  pub platform : Platform
  pub state_json : StateJson
  pub invitation : Codec Invitation
  pub reading : Reading
  pub manager : Manager
  pub legacy : Bool

-- (d *Daemon) client(profile, privateKey), without the key, which only signs
unfoldable pub new_client : Profile → Client
unfolding new_replay_guard
new_client r = record {
  project_id = r.project_id;
  host_public_key = r.host_public_key;
  endpoints = r.endpoints;
  replays = new_replay_guard default_signature_max_age;
  endpoint = "";
  told = [];
}

module _ (setup : Setup) where
  -- currentClient
  unfoldable pub current_client : Act (Client × Profile)
  unfolding new_client current private_key ◌>>=◌
  current_client = do
    (s, r) ← on_machine (current setup.state_json setup.legacy)
    key ← on_machine (private_key setup.platform setup.manager r.project_id)
    pure (new_client r, r)

  -- the calls of OnEndpoint, the last one first
  on_endpoints : Client → List String → Daemon → Daemon
  unfolding prioritize_endpoint update_endpoints on_machine
  on_endpoints c [] d = d
  on_endpoints c (endpoint ∷ before) d =
      let reordered = prioritize_endpoint endpoint c.endpoints in
      (on_machine (update_endpoints setup.state_json c.project_id reordered)
        (on_endpoints c before d)).1

  -- one call of `RPC`, with what happens to the daemon
  unfoldable pub rpc :
      {A : Type 0}
      → (Bytes → Option A)
      → A
      → Call
      → String
      → Client
      → Daemon
      → (Result A × Client) × Daemon
  unfolding on_endpoints
  rpc decode before met kind c d =
      let (r, c') =
        Requests.call decode before setup.platform setup.reading met.nonce met.around kind
          (record c { told = [] }) in
      ((r, c'), on_endpoints c c'.told (met.meanwhile d))

  unfoldable pub call :
      {A : Type 0} → (Bytes → Option A) → A → Call → String → Client → Act (A × Client)
  unfolding rpc
  call decode before met kind c d =
      let ((r, c'), d') = rpc decode before met kind c d in
      (elim r [ err e ↦ err e | ok a ↦ ok (a, c') ], d')

  identity_of : Profile → Bytes → HostIdentity
  identity_of r key = record { member_id = r.member_id; private_key = key }

  -- hostIdentity
  unfoldable pub host_identity : String → Local HostIdentity
  unfolding identity_of profile private_key
  host_identity project_id m =
      let (found, m') = profile setup.state_json project_id m in
      elim found [
        | err e ↦ (err (plain "Project is not hosted by this device"), m')
        | ok r ↦
            let (key, m'') = private_key setup.platform setup.manager project_id m' in
            if not r.hosted
            then (err (plain "Project is not hosted by this device"), m')
            else (elim key [ err e ↦ err e | ok k ↦ ok (identity_of r k) ], m'')
      ]
