-- ===== src/Service/Daemon/Cases.antt =====
-- The ways in which a block of the daemon of internal/service/daemon.go goes on.
use peercontext.Common.{◌≡◌, refl, ◌⊎◌, inl, inr}
use peercontext.Errors.{GoError, ok, err, Result-cases}
use peercontext.Service.Daemon.{Daemon, Act, or_undo, ◌>>=◌}

module _ {A B : Type 0} where
  -- The first half failed and the block ends, or the second half goes on from there.
  pub bind-cases :
      (act : Act A) (f : A → Act B) (d : Daemon)
      → ((e : GoError) × ((act d).0 ≡ err e) × ((act >>= f) d ≡ (err e, (act d).1)))
        ⊎ ((a : A) × ((act d).0 ≡ ok a) × ((act >>= f) d ≡ f a (act d).1))
  unfolding ◌>>=◌
  bind-cases act f d = elim (Result-cases (act d).0) [
    | inl (a, e) ↦ inr (a, e, rw (e, ◌>>=◌) refl)
    | inr (x, e) ↦ inl (x, e, rw (e, ◌>>=◌) refl)
  ]

module _ {A : Type 0} where
  -- A step with its undoing failed and was undone, or is the step.
  pub or_undo-cases :
      (act : Act A) (cleanup : Act (Unit {0})) (d : Daemon)
      → ((e : GoError) × ((act d).0 ≡ err e)
          × (or_undo act cleanup d ≡ (err e, (cleanup (act d).1).1)))
        ⊎ ((a : A) × ((act d).0 ≡ ok a) × (or_undo act cleanup d ≡ (ok a, (act d).1)))
  unfolding or_undo
  or_undo-cases act cleanup d = elim (Result-cases (act d).0) [
    | inl (a, e) ↦ inr (a, e, rw (e, or_undo) refl)
    | inr (x, e) ↦ inl (x, e, rw (e, or_undo) refl)
  ]
