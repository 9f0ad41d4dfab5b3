-- ===== src/State/Disk/Cases.antt =====
-- The two ways in which a block on the machine of internal/v2state/state.go goes on.
use peercontext.Common.{◌≡◌, refl, ◌⊎◌, inl, inr, Bool-cases}
use peercontext.Errors.{GoError, Result, ok, err, Result-cases}
use peercontext.State.Disk.{Machine, Local, io_error, system, next_fault, ◌>>=◌}

module _ {A B : Type 0} where
  -- The first half failed and the block ends, or the second half goes on from there.
  pub bind-cases :
      (act : Local A) (f : A → Local B) (m : Machine)
      → ((e : GoError) × ((act m).0 ≡ err e) × ((act >>= f) m ≡ (err e, (act m).1)))
        ⊎ ((a : A) × ((act m).0 ≡ ok a) × ((act >>= f) m ≡ f a (act m).1))
  unfolding ◌>>=◌
  bind-cases act f m = elim (Result-cases (act m).0) [
    | inl (a, e) ↦ inr (a, e, rw (e, ◌>>=◌) refl)
    | inr (x, e) ↦ inl (x, e, rw (e, ◌>>=◌) refl)
  ]

abbrev pub rest_of : Machine → Machine
rest_of m = record m { faults = (next_fault m.faults).1 }

module _ {A : Type 0} where
  -- A call of the system fails and uses up a fault, or does its work.
  pub system-cases :
      (act : Machine → Result A × Machine) (m : Machine)
      → (system act m ≡ (err io_error, rest_of m)) ⊎ (system act m ≡ act (rest_of m))
  unfolding system
  system-cases act m = elim (Bool-cases (next_fault m.faults).0) [
    | inl bad ↦ inl (rw (bad, system) refl)
    | inr good ↦ inr (rw (good, system) refl)
  ]
