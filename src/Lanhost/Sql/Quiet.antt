-- ===== src/Lanhost/Sql/Quiet.antt =====
-- The calls of database/sql in a driver with no fault to come: there is none after them.
use peercontext.Common.{◌≡◌, refl, []}
use peercontext.Errors.{Result, ok, err}
use peercontext.Lanhost.Sql.{Db, Sql, exec, transaction, written, finish, continue, ◌>>=◌}

abbrev pub Quiet : {T A : Type 0} → Sql T A → Type 0
Quiet {T} m = (db : Db T) → db.faults ≡ [] → (m db).1.faults ≡ []

module _ {T A : Type 0} where
  written-Quiet : (db : Db T) (w : Result (A × T)) → db.faults ≡ [] → (written db w).1.faults ≡ []
  unfolding written
  written-Quiet db (ok (a, t)) quiet = quiet
  written-Quiet db (err e) quiet = quiet

  pub exec-Quiet : (write : T → Result (A × T)) → Quiet (exec write)
  unfolding exec
  exec-Quiet write db quiet =
      rw (quiet, exec)
        (written-Quiet (record { tables = db.tables; faults = [] }) (write db.tables) refl)

  finish-Quiet :
      (before : T) (r : Result A × Db T) → r.1.faults ≡ [] → (finish before r).1.faults ≡ []
  unfolding finish
  finish-Quiet before (err e, db) quiet = quiet
  finish-Quiet before (ok a, db) quiet = rw (quiet, finish) refl

  pub transaction-Quiet : (body : Sql T A) → Quiet body → Quiet (transaction body)
  unfolding transaction
  transaction-Quiet body calm db quiet =
      let db' : Db T = record { tables = db.tables; faults = [] } in
      rw (quiet, transaction) (finish-Quiet db.tables (body db') (calm db' refl))

module _ {T A B : Type 0} where
  continue-Quiet :
      (f : A → Sql T B) (db : Db T) (r : Result A)
      → ((a : A) → Quiet (f a))
      → db.faults ≡ []
      → (continue r f db).1.faults ≡ []
  continue-Quiet f db (ok a) calm quiet = calm a db quiet
  continue-Quiet f db (err e) calm quiet = quiet

  pub bind-Quiet :
      (m : Sql T A) (f : A → Sql T B) → Quiet m → ((a : A) → Quiet (f a)) → Quiet (m >>= f)
  unfolding ◌>>=◌
  bind-Quiet m f first second db quiet = continue-Quiet f (m db).1 (m db).0 second (first db quiet)
