-- ===== src/Lanhost/Sql.antt =====
-- database/sql over one connection, as internal/lanhost/store.go uses it. Each statement, and each
-- begin and commit, may fail in the driver: `faults` says which of the coming ones do.
pub mod Effects
pub mod Cases
pub mod Keys
pub mod Quiet
use peercontext.Common.{Bool, false, List, [], ◌∷◌, ◌++◌, any, if◌then◌else◌}
use peercontext.Errors.{GoError, plain, Result, ok, err}

pub record Db (T : Type 0) : Type 0 where
  pub tables : T
  pub faults : List Bool

abbrev pub Sql : Type 0 → Type 0 → Type 0
Sql T A = Db T → Result A × Db T

abbrev pub driver_error : GoError
driver_error = plain "database driver"

abbrev pub constraint_error : GoError
constraint_error = plain "constraint failed"

-- whether the next statement fails, and the faults of those after it
abbrev next_fault : List Bool → Bool × List Bool
next_fault [] = (false, [])
next_fault (f ∷ fs) = (f, fs)

module _ {T A : Type 0} where
  unfoldable pub pure : A → Sql T A
  pure a db = (ok a, db)

  unfoldable pub fail : GoError → Sql T A
  fail e db = (err e, db)

  unfoldable pub lift : Result A → Sql T A
  lift r db = (r, db)

  -- QueryContext, QueryRowContext(…).Scan
  unfoldable pub query : (T → Result A) → Sql T A
  query read db =
      let (bad, faults) = next_fault db.faults in
      let db' = record db { faults = faults } in
      if bad then (err driver_error, db') else (read db.tables, db')

  written : Db T → Result (A × T) → Result A × Db T
  written db (ok (a, t)) = (ok a, record db { tables = t })
  written db (err e) = (err e, db)

  -- ExecContext
  unfoldable pub exec : (T → Result (A × T)) → Sql T A
  unfolding written
  exec write db =
      let (bad, faults) = next_fault db.faults in
      let db' = record db { faults = faults } in
      if bad then (err driver_error, db') else written db' (write db.tables)

  -- tx.Commit() after a body that returned, the deferred tx.Rollback() otherwise
  finish : T → Result A × Db T → Result A × Db T
  finish before (err e, db) = (err e, record db { tables = before })
  finish before (ok a, db) =
      let (bad, faults) = next_fault db.faults in
      if bad
      then (err driver_error, record { tables = before; faults = faults })
      else (ok a, record db { faults = faults })

  -- BeginTx … Commit, around a body
  unfoldable pub transaction : Sql T A → Sql T A
  unfolding finish
  transaction body db =
      let (bad, faults) = next_fault db.faults in
      let db' = record db { faults = faults } in
      if bad then (err driver_error, db') else finish db.tables (body db')

module _ {T A : Type 0} where
  -- a call whose error the caller looks at
  unfoldable pub attempt : Sql T A → Sql T (Result A)
  attempt m db = let (r, db') = m db in (ok r, db')

module _ {T A B : Type 0} where
  abbrev pub continue : Result A → (A → Sql T B) → Sql T B
  continue (ok a) f db = f a db
  continue (err e) f db = (err e, db)

  infixl 5 ◌>>=◌
  unfoldable pub ◌>>=◌ : Sql T A → (A → Sql T B) → Sql T B
  unfolding pure fail lift attempt
  ◌>>=◌ m f db = let (r, db') = m db in continue r f db'

infixl 5 ◌>>◌
abbrev pub ◌>>◌ : {T B : Type 0} → Sql T (Unit {0}) → Sql T B → Sql T B
m >> n = m >>= λ _. n

-- INSERT of a row, where `conflicts` is the test of the primary key and the unique columns
unfoldable pub insert_row : {R : Type 0} → (R → Bool) → R → List R → Result (List R)
insert_row conflicts row rows =
    if any conflicts rows then err constraint_error else ok (rows ++ row ∷ [])

-- UPDATE … WHERE
unfoldable pub update_where : {R : Type 0} → (R → Bool) → (R → R) → List R → List R
update_where p f [] = []
update_where p f (r ∷ rs) = (if p r then f r else r) ∷ update_where p f rs
