-- ===== src/State/Disk.antt =====
-- The state file of internal/v2state/state.go: `Load` and `Save`. Every call of the operating
-- system may fail, as `faults` says of the coming ones.
pub mod Atomic
pub mod Cases
use peercontext.Common.{
  ℕ, ◌≡◌, Bool, true, false, not, ◌&&◌, Option, none, some, List, [], ◌∷◌, ◌++◌, String, ◌==◌,
  nat_eq, if◌then◌else◌,
}
use peercontext.Common.Dict.{Dict}
use peercontext.Common.Text.{Bytes}
use peercontext.Errors.{GoError, plain, wrap_as, Result, ok, err, fail_if, or_error}
use peercontext.Errors
use peercontext.State.Model.{State, DecodedState, StateJson, empty_state, or_empty}

-- The state file, none if it is not there; the private keys by their names; and whether a temporary
-- file of `Save` lies beside it.
pub record Machine : Type 0 where
  pub file : Option Bytes
  pub keys : Dict String String
  pub temporary : Bool
  pub faults : List Bool

abbrev pub Local : Type 0 → Type 0
Local A = Machine → Result A × Machine

abbrev pub io_error : GoError
io_error = plain "input/output"

abbrev pub next_fault : List Bool → Bool × List Bool
next_fault [] = (false, [])
next_fault (f ∷ fs) = (f, fs)

unfoldable pub pure : {A : Type 0} → A → Local A
pure a m = (ok a, m)

unfoldable pub lift : {A : Type 0} → Result A → Local A
lift r m = (r, m)

-- a call of the system that may fail, and then changes nothing
unfoldable pub system : {A : Type 0} → (Machine → Result A × Machine) → Local A
system act m =
    let (bad, faults) = next_fault m.faults in
    let m' = record m { faults = faults } in if bad then (err io_error, m') else act m'

abbrev pub continue : {A B : Type 0} → Result A → (A → Local B) → Local B
continue (ok a) f m = f a m
continue (err e) f m = (err e, m)

infixl 5 ◌>>=◌
unfoldable pub ◌>>=◌ : {A B : Type 0} → Local A → (A → Local B) → Local B
unfolding pure lift system
◌>>=◌ act f m = let (r, m') = act m in continue r f m'

infixl 5 ◌>>◌
abbrev pub ◌>>◌ : {B : Type 0} → Local (Unit {0}) → Local B → Local B
act >> rest = act >>= λ _. rest

-- os.ReadFile: none if the file is not there
unfoldable pub read_file : Local (Option Bytes)
unfolding system
read_file = system (λ m. (ok m.file, m))

-- the two maps are made where the text has none
unfoldable pub normalized : DecodedState → State
normalized d = record {
  schema_version = d.schema_version;
  current_project_id = d.current_project_id;
  listen_port = d.listen_port;
  profiles = or_empty d.profiles;
  agents = or_empty d.agents;
}

module _ (json : StateJson) where
  unfoldable pub decode_state : Option Bytes → Result State
  unfolding normalized
  decode_state none = ok empty_state
  decode_state (some bytes) =
      Errors.◌>>=◌ (or_error (json.unmarshal bytes) (wrap_as "decode v2 state" (plain "json")))
        (λ d.
          if not (d.schema_version == 2)
          then err (plain "unsupported v2 state schema_version")
          else ok (normalized d))

  -- Load, loadUnlocked
  unfoldable pub load : Local State
  unfolding read_file decode_state ◌>>=◌
  load = do contents ← read_file; lift (decode_state contents)

  -- tmp.Chmod, tmp.Write and tmp.Close: the first error of the three, after which the file is closed
  unfoldable pub write_temporary : Local (Unit {0})
  unfolding system ◌>>=◌
  write_temporary m =
      let (written, m₁) = (do system (λ n. (ok tt, n)); system (λ n. (ok tt, n))) m in
      let (closed, m₂) = system (λ n. (ok tt, n)) m₁ in
      (elim written [ err e ↦ err e | ok _ ↦ closed ], m₂)

  -- os.Rename(name, m.statePath)
  unfoldable pub rename : Bytes → Local (Unit {0})
  unfolding system
  rename bytes = system (λ m. (ok tt, record m { file = some bytes; temporary = false }))

  -- defer os.Remove(name)
  unfoldable pub remove_temporary : Result (Unit {0}) × Machine → Result (Unit {0}) × Machine
  remove_temporary (r, m) =
      let (bad, faults) = next_fault m.faults in
      (r, record m { faults = faults; temporary = m.temporary && bad })

  -- Save, saveUnlocked
  unfoldable pub save : State → Local (Unit {0})
  save s = do
    system (λ m. (ok tt, m))
    bytes ← lift (or_error (json.marshal (record s { schema_version = 2 })) (plain "json"))
    system (λ m. (ok tt, record m { temporary = true }))
    (λ m. remove_temporary ((do write_temporary; rename (bytes ++ 10 ∷ [])) m))
