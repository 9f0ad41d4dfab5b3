-- ===== src/State/Disk/Atomic.antt =====
-- `Save` of internal/v2state/state.go replaces the state file in one step, or not at all.
use peercontext.Common.{◌≡◌, refl, ◌∙◌, true, some, ◌⊎◌, inl, inr, [], ◌∷◌, ◌++◌, arith, Bool-cases}
use peercontext.Common.Text.{Bytes}
use peercontext.Errors.{GoError, plain, Result, ok, err, or_error}
use peercontext.State.Model.{State, StateJson}
use peercontext.State.Disk.{
  Machine, Local, save, system, lift, next_fault, write_temporary, rename, remove_temporary,
  continue, ◌>>=◌, ◌>>◌,
}

-- the text of a state on disk
abbrev pub written_text : Bytes → Bytes
written_text bytes = bytes ++ 10 ∷ []

-- The file is the old one after an error, and the text of the state after a success.
pub record Replaced (json : StateJson) (s : State) (before : Machine)
    (r : Result (Unit {0}) × Machine) : Type 0 where
  pub on_error : (e : GoError) → r.0 ≡ err e → r.1.file ≡ before.file
  pub on_success :
      r.0 ≡ ok tt
      → (bytes : Bytes) × (json.marshal (record s { schema_version = 2 }) ≡ some bytes)
        × (r.1.file ≡ some (written_text bytes))
  pub keys : r.1.keys ≡ before.keys

write_temporary-file :
    (json : StateJson) (m : Machine)
    → ((write_temporary json m).1.file ≡ m.file) × ((write_temporary json m).1.keys ≡ m.keys)
unfolding write_temporary system ◌>>=◌
write_temporary-file json m = (ground arith, ground arith)

-- Either nothing happened to the file, or it is the text.
abbrev IsReplaced : Bytes → Machine → Result (Unit {0}) × Machine → Type 0
IsReplaced text before r =
    (((e : GoError) × (r.0 ≡ err e) × (r.1.file ≡ before.file))
      ⊎ ((r.0 ≡ ok tt) × (r.1.file ≡ some text)))
    × (r.1.keys ≡ before.keys)

rename-IsReplaced :
    (json : StateJson) (text : Bytes) (m : Machine) → IsReplaced text m (rename json text m)
unfolding rename system
rename-IsReplaced json text m = elim (Bool-cases (next_fault m.faults).0) [
  | inl bad ↦ rw (bad, rename, system) (inl (_, refl, refl), refl)
  | inr good ↦ rw (good, rename, system) (inr (refl, refl), refl)
]

continued-IsReplaced :
    (json : StateJson) (text : Bytes) (before : Machine) (w : Result (Unit {0})) (m : Machine)
    → m.file ≡ before.file
    → m.keys ≡ before.keys
    → IsReplaced text before (continue w (λ _. rename json text) m)
continued-IsReplaced json text before (err e) m f k = (inl (e, refl, f), k)
continued-IsReplaced json text before (ok _) m f k =
    let (done, keys) = rename-IsReplaced json text m in
    (elim done [ inl (e, failed, same) ↦ inl (e, failed, same ∙ f) | inr d ↦ inr d ], keys ∙ k)

removed-IsReplaced :
    (json : StateJson) (text : Bytes) (before : Machine) (r : Result (Unit {0}) × Machine)
    → IsReplaced text before r
    → IsReplaced text before (remove_temporary json r)
unfolding remove_temporary
removed-IsReplaced json text before (r, m) h = h

-- the part of `saveUnlocked` after os.CreateTemp
moved : StateJson → Bytes → Machine → Result (Unit {0}) × Machine
moved json text m = remove_temporary json ((do write_temporary json; rename json text) m)

moved-IsReplaced :
    (json : StateJson) (text : Bytes) (before m : Machine)
    → m.file ≡ before.file
    → m.keys ≡ before.keys
    → IsReplaced text before (moved json text m)
unfolding moved ◌>>=◌
moved-IsReplaced json text before m f k = removed-IsReplaced json text before _ (
    continued-IsReplaced json text before _ _ ((write_temporary-file json m).0 ∙ f)
      ((write_temporary-file json m).1 ∙ k))

-- A call of the system before the file is touched.
system-keys :
    (m : Machine) (act : Machine → Machine)
    → ((n : Machine) → (act n).file ≡ n.file)
    → ((n : Machine) → (act n).keys ≡ n.keys)
    → let r = system (λ n. (ok tt, act n)) m in (r.1.file ≡ m.file) × (r.1.keys ≡ m.keys)
unfolding system
system-keys m act file keys = elim (Bool-cases (next_fault m.faults).0) [
  | inl bad ↦ rw (bad, system) (refl, refl)
  | inr good ↦ rw (good, system) (file _, keys _)
]

module _ (json : StateJson) (s : State) (before : Machine) where
  -- A step that left the file, and what follows if it succeeded.
  continue-Replaced :
      {A : Type 0} (r : Result A) (f : A → Machine → Result (Unit {0}) × Machine) (m : Machine)
      → m.file ≡ before.file
      → m.keys ≡ before.keys
      → ((a : A) → r ≡ ok a → Replaced json s before (f a m))
      → Replaced json s before (continue r f m)
  continue-Replaced (ok a) f m same keys next = next a refl
  continue-Replaced (err e) f m same keys next = record {
    on_error = λ x h. same;
    on_success = λ h. absurd (ground arith);
    keys = keys;
  }

  bind-Replaced :
      {A : Type 0} (act : Local A) (f : A → Local (Unit {0})) (m : Machine)
      → ((act m).1.file ≡ before.file) × ((act m).1.keys ≡ before.keys)
      → ((a : A) → (act m).0 ≡ ok a → Replaced json s before (f a (act m).1))
      → Replaced json s before ((act >>= f) m)
  unfolding ◌>>=◌
  bind-Replaced act f m same next = continue-Replaced _ f _ same.0 same.1 next

  moved-Replaced :
      (bytes : Bytes) (m : Machine)
      → or_error (json.marshal (record s { schema_version = 2 })) (plain "json") ≡ ok bytes
      → m.file ≡ before.file
      → m.keys ≡ before.keys
      → Replaced json s before (moved json (written_text bytes) m)
  moved-Replaced bytes m e f k =
      let (done, keys) = moved-IsReplaced json (written_text bytes) before m f k in
      elim done [
        | inl (x, failed, same) ↦ record {
          on_error = λ y h. same;
          on_success = λ h. absurd (ground arith);
          keys = keys;
        }
        | inr (succeeded, file) ↦ record {
          on_error = λ y h. absurd (ground arith);
          on_success = λ h. (bytes, ground arith, file);
          keys = keys;
        }
      ]

pub save-Replaced : (json : StateJson) (s : State) (m : Machine) → Replaced json s m (save json s m)
unfolding save lift moved
save-Replaced json s m =
    let first = system-keys m (λ n. n) (λ n. refl) (λ n. refl) in
    bind-Replaced json s m (system (λ n. (ok tt, n))) _ m first (λ u h.
      bind-Replaced json s m
        (lift (or_error (json.marshal (record s { schema_version = 2 })) (plain "json"))) _ _ first
        (λ bytes e.
          let m₁ : Machine = (system {A = Unit {0}} (λ n. (ok tt, n)) m).1 in
          let second =
            system-keys m₁ (λ n. record n { temporary = true }) (λ n. refl) (λ n. refl) in
          let f = second.0 ∙ first.0 in
          let k = second.1 ∙ first.1 in
          bind-Replaced json s m (system (λ n. (ok tt, record n { temporary = true }))) _ m₁ (f, k)
            (λ u h. moved-Replaced json s m bytes _ e f k)))

-- A `Save` that fails, wherever it does, leaves the state file as it was.
pub save_err :
    (json : StateJson) (s : State) (m : Machine) (e : GoError)
    → (save json s m).0 ≡ err e
    → (save json s m).1.file ≡ m.file
save_err json s m e h = (save-Replaced json s m).on_error e h

-- After a `Save` that succeeds the file is the text of the state, at version 2 and with a line feed, and the
-- keys are as they were.
pub save_ok :
    (json : StateJson) (s : State) (m : Machine)
    → (save json s m).0 ≡ ok tt
    → ((bytes : Bytes) × (json.marshal (record s { schema_version = 2 }) ≡ some bytes)
        × ((save json s m).1.file ≡ some (written_text bytes)))
      × ((save json s m).1.keys ≡ m.keys)
save_ok json s m h = let r = save-Replaced json s m in (r.on_success h, r.keys)
