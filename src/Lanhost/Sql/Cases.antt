-- ===== src/Lanhost/Sql/Cases.antt =====
-- What the result of a call of database/sql says: inversion of statements, transactions and blocks.
use peercontext.Common.{
  ℕ, ◌≡◌, refl, ◌∙◌, Bool, ◌⊎◌, inl, inr, List, [], ◌∷◌, arith, count, Bool-cases,
}
use peercontext.Errors.{GoError, Result, ok, err}
use peercontext.Lanhost.Sql.{
  Db, Sql, driver_error, query, exec, transaction, written, finish, continue, next_fault,
  update_where, ◌>>=◌,
}
use peercontext.Lanhost.Sql.Effects.{Atomic}

module _ {T A : Type 0} where
  -- A statement fails and changes nothing, or its effect is what it says.
  pub record Done (write : T → Result (A × T)) (db : Db T) (r : Result A × Db T) : Type 0 where
    pub value : A
    pub after : T
    pub effect : write db.tables ≡ ok (value, after)
    pub result : r.0 ≡ ok value
    pub tables : r.1.tables ≡ after

  abbrev pub Failed : Db T → Result A × Db T → Type 0
  Failed db r = (e : GoError) × (r.0 ≡ err e) × (r.1.tables ≡ db.tables)

  written_cases :
      (write : T → Result (A × T)) (db : Db T) (w : Result (A × T))
      → write db.tables ≡ w
      → Failed db (written db w) ⊎ Done write db (written db w)
  unfolding written
  written_cases write db (ok (a, t)) e =
      inr (record { value = a; after = t; effect = e; result = refl; tables = refl })
  written_cases write db (err x) e = inl (x, refl, refl)

  pub exec_cases :
      (write : T → Result (A × T)) (db : Db T)
      → Failed db (exec write db) ⊎ Done write db (exec write db)
  unfolding exec
  exec_cases write db = elim (Bool-cases (next_fault db.faults).0) [
    | inl bad ↦ rw (bad, exec) (inl (driver_error, refl, refl))
    | inr good ↦ rw (good, exec) (as_done (written_cases write _ (write db.tables) refl))
  ]
    where
      as_done :
          {r : Result A × Db T} {fs : List Bool}
          → Failed (record { tables = db.tables; faults = fs }) r
            ⊎ Done write (record { tables = db.tables; faults = fs }) r
          → Failed db r ⊎ Done write db r
      as_done (inl f) = inl f
      as_done (inr d) = inr (record {
        value = d.value;
        after = d.after;
        effect = d.effect;
        result = d.result;
        tables = d.tables;
      })

  -- A read that succeeds gives what it reads of the tables.
  pub query_ok :
      (read : T → Result A) (db : Db T) (a : A) → (query read db).0 ≡ ok a → read db.tables ≡ ok a
  unfolding query
  query_ok read db a h = ground arith

  pub exec_ok :
      (write : T → Result (A × T)) (db : Db T) (a : A)
      → (exec write db).0 ≡ ok a
      → write db.tables ≡ ok (a, (exec write db).1.tables)
  exec_ok write db a h = elim (exec_cases write db) [
    | inl f ↦ absurd (ground arith)
    | inr d ↦ ground arith
  ]

  -- A transaction that succeeds is its body.
  finish_ok :
      (before : T) (r : Result A × Db T) (a : A)
      → (finish before r).0 ≡ ok a
      → (r.0 ≡ ok a) × ((finish before r).1.tables ≡ r.1.tables)
  unfolding finish
  finish_ok before (err e, db) a h = absurd (ground arith)
  finish_ok before (ok b, db) a h = ground arith

  pub transaction_ok :
      (body : Sql T A) (db : Db T) (a : A)
      → (transaction body db).0 ≡ ok a
      → (db' : Db T) × (db'.tables ≡ db.tables)
        × ((body db').0 ≡ ok a)
        × ((transaction body db).1.tables ≡ (body db').1.tables)
  unfolding transaction
  transaction_ok body db a h = elim (Bool-cases (next_fault db.faults).0) [
    | inl bad ↦ absurd (ground (arith, bad))
    | inr good ↦
        let db' : Db T = record db { faults = (next_fault db.faults).1 } in
        let f : ((body db').0 ≡ ok a)
            × ((finish db.tables (body db')).1.tables ≡ (body db').1.tables) =
          finish_ok db.tables (body db') a (rw (good, transaction) at h) in
        rw (good, transaction) (db', refl, f.0, f.1)
  ]

module _ {T A B : Type 0} where
  -- The two halves of a block that succeeded.
  pub record Bound (m : Sql T A) (f : A → Sql T B) (db : Db T) (b : B) : Type 0 where
    pub value : A
    pub first : (m db).0 ≡ ok value
    pub second : (f value (m db).1).0 ≡ ok b
    pub state : (m >>= f) db ≡ f value (m db).1

  continue_ok :
      (m : Sql T A) (f : A → Sql T B) (db : Db T) (b : B) (r : Result A)
      → (m db).0 ≡ r
      → (continue r f (m db).1).0 ≡ ok b
      → (a : A) × (r ≡ ok a) × ((f a (m db).1).0 ≡ ok b)
  continue_ok m f db b (ok a) e h = (a, refl, h)
  continue_ok m f db b (err x) e h = absurd (ground arith)

  pub bind_ok :
      (m : Sql T A) (f : A → Sql T B) (db : Db T) (b : B) → ((m >>= f) db).0 ≡ ok b → Bound m f db b
  unfolding ◌>>=◌
  bind_ok m f db b h =
      let (a, e, h') = continue_ok m f db b (m db).0 refl h in
      record { value = a; first = e; second = h'; state = rw (e, ◌>>=◌) }

-- A statement that counts its rows, and an error after it only where it counted none and changed
-- nothing: together they are atomic.
pub counted-Atomic :
    {T A : Type 0} (write : T → Result (ℕ × T)) (f : ℕ → Sql T A)
    → ((t t' : T) (n : ℕ) (db : Db T) (e : GoError)
        → write t ≡ ok (n, t')
        → (f n db).0 ≡ err e
        → t' ≡ t)
    → ((n : ℕ) (db : Db T) → (f n db).1.tables ≡ db.tables)
    → Atomic (exec write >>= f)
unfolding ◌>>=◌
counted-Atomic {T} {A} write f none_ kept = record {
  undone = λ db e h. elim (exec_cases write db) [
    | inl (x, failed, same) ↦ rw (failed, ◌>>=◌) same
    | inr d ↦
        let h' : (f d.value (exec write db).1).0 ≡ err e = rw (d.result, ◌>>=◌) at h in
        rw (d.result, ◌>>=◌)
          (kept d.value (exec write db).1
            ∙ d.tables
            ∙ none_ db.tables d.after d.value (exec write db).1 e d.effect h')
  ];
}

-- An update of no row is no update.
pub update_where_none :
    {R : Type 0} (p : R → Bool) (f : R → R) (rs : List R)
    → count p rs ≡ 0
    → update_where p f rs ≡ rs
unfolding count update_where
update_where_none p f [] h = refl
update_where_none p f (r ∷ rs) h = ground (arith, update_where_none p f rs)
