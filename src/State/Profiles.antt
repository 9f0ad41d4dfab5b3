-- ===== src/State/Profiles.antt =====
-- `PutProfile`, `Current`, `Use`, `Profiles`, `Profile`, `RemoveProfile`, `SetListenPort` and
-- `UpdateEndpoints` of internal/v2state/state.go.
pub mod Sorted
pub mod Update
pub mod Removal
pub mod Putting
use Prim.Native.Nat.{Ordering}
use Prim.Native.String
use peercontext.Common.{
  ℕ, ◌≡◌, Bool, true, false, not, Option, none, some, List, [], ◌∷◌, String, map, length, ◌==◌,
  nat_eq, string_eq, if◌then◌else◌,
}
use peercontext.Common.Dict.{Dict, lookup, insert, delete, delete_if}
use peercontext.Common.Text.{Bytes}
use peercontext.Errors.{GoError, plain, Result, ok, err, or_error, fail_if}
use peercontext.Protocol.Platform.{Platform}
use peercontext.Protocol.Signing.{private_key_size}
use peercontext.State.Model.{Profile, LocalAgent, State, StateJson}
use peercontext.State.Disk.{Machine, Local, load, save, pure, lift, ◌>>=◌, ◌>>◌}
use peercontext.State.Keys.{Manager, store_private_key, delete_private_key}

abbrev pub not_configured : GoError
not_configured = plain "Project is not configured locally"

-- the changes of the state, without the disk
unfoldable pub with_profile : Profile → State → State
with_profile profile s = record s {
  profiles = insert profile.project_id profile s.profiles;
  current_project_id = profile.project_id;
}

unfoldable pub without_profile : String → State → State
without_profile project_id s = record s {
  profiles = delete project_id s.profiles;
  agents = delete_if (λ _ a. a.project_id == project_id) s.agents;
  current_project_id = if s.current_project_id == project_id then "" else s.current_project_id;
}

using : String → State → Result State
using project_id s = elim (lookup project_id s.profiles) [
  | none ↦ err not_configured
  | some _ ↦ ok (record s { current_project_id = project_id })
]

with_endpoints : String → List String → State → Result State
with_endpoints project_id endpoints s = elim (lookup project_id s.profiles) [
  | none ↦ err not_configured
  | some profile ↦ ok (record s {
    profiles = insert project_id (record profile { endpoints = endpoints }) s.profiles;
  })
]

-- The Project in use; `legacy` is whether the profile file of the older protocol is there.
unfoldable pub current_of : Bool → State → Result (State × Profile)
current_of legacy s = elim (lookup s.current_project_id s.profiles) [
  | some profile ↦ ok (s, profile)
  | none ↦ err (
      plain (
        if legacy
        then "a PeerContext 0.1.1 Relay profile was found, but LAN protocol v2 is intentionally incompatible; create or join a new LAN Project"
        else "no current LAN v2 Project; create, join, or use one first"))
]

unfoldable pub text_lt : String → String → Bool
text_lt a b = elim (String.compare a b) [ Ordering.lt ↦ true | _ ↦ false ]

unfoldable pub insert_sorted : {A : Type 0} → (A → String) → A → List A → List A
unfolding text_lt
insert_sorted key a [] = a ∷ []
insert_sorted key a (b ∷ bs) =
    if text_lt (key b) (key a) then b ∷ insert_sorted key a bs else a ∷ (b ∷ bs)

-- sort.Slice by a text; equal keys may come in any order
unfoldable pub sort_by : {A : Type 0} → (A → String) → List A → List A
unfolding insert_sorted
sort_by key [] = []
sort_by key (a ∷ as_) = insert_sorted key a (sort_by key as_)

abbrev pub values : {A : Type 0} → Dict String A → List A
values = map (λ e. e.1)

module _ (json : StateJson) where
  -- loadUnlocked, a change, saveUnlocked, as every operation that changes the state does
  unfoldable pub update : (State → Result State) → Local (Unit {0})
  unfolding ◌>>=◌
  update change = do s ← load json; s' ← lift (change s); save json s'

  -- Use
  unfoldable pub use_project : String → Local (Unit {0})
  unfolding using update
  use_project project_id = update (using project_id)

  -- SetListenPort
  unfoldable pub set_listen_port : ℕ → Local (Unit {0})
  unfolding update
  set_listen_port port = update (λ s. ok (record s { listen_port = port }))

  -- UpdateEndpoints
  unfoldable pub update_endpoints : String → List String → Local (Unit {0})
  unfolding with_endpoints update
  update_endpoints project_id endpoints = update (with_endpoints project_id endpoints)

  -- Current
  unfoldable pub current : Bool → Local (State × Profile)
  unfolding current_of ◌>>=◌
  current legacy = do s ← load json; lift (current_of legacy s)

  -- Profiles
  unfoldable pub profiles : Local (List Profile)
  unfolding sort_by ◌>>=◌
  profiles = do s ← load json; pure (sort_by (λ r. r.project_name) (values s.profiles))

  -- Profile
  unfoldable pub profile : String → Local Profile
  unfolding ◌>>=◌
  profile project_id = do
    s ← load json
    lift (or_error (lookup project_id s.profiles) not_configured)

module _ (p : Platform) (json : StateJson) (mgr : Manager) where
  stored_in : Profile → Profile
  stored_in profile = record profile {
    private_key_store = if mgr.test_key_dir == "" then "keyring" else "test-file";
  }

  -- PutProfile
  unfoldable pub put_profile : Profile → Bytes → Local (Unit {0})
  unfolding stored_in with_profile
  put_profile profile key = do
    lift (fail_if (not (length key == private_key_size)) (plain "invalid Project private key"))
    store_private_key p mgr profile.project_id key
    update json (λ s. ok (with_profile (stored_in profile) s))

  -- RemoveProfile
  unfoldable pub remove_profile : String → Local (Unit {0})
  remove_profile project_id = do
    s ← load json
    delete_private_key p mgr project_id
    save json (without_profile project_id s)
