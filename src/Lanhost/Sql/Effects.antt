-- ===== src/Lanhost/Sql/Effects.antt =====
-- What statements and transactions of database/sql do to the tables, whatever faults come.
use peercontext.Common.{◌≡◌, refl, ◌≢◌, inl, inr, arith, Bool-cases}
use peercontext.Errors.{GoError, Result, ok, err}
use peercontext.Lanhost.Sql.{
  Db, Sql, pure, lift, attempt, query, exec, transaction, written, finish, continue, next_fault,
  ◌>>=◌,
}

-- Whatever the faults and the result, `m` leads from tables with P to tables with P.
pub record Keeps {T A : Type 0} (P : T → Type 0) (m : Sql T A) : Type 0 where
  pub at : (db : Db T) → P db.tables → P (m db).1.tables

-- A call that fails leaves the tables as they were.
pub record Atomic {T A : Type 0} (m : Sql T A) : Type 0 where
  pub undone : (db : Db T) (e : GoError) → (m db).0 ≡ err e → (m db).1.tables ≡ db.tables

-- A call that only reads.
pub record Reads {T A : Type 0} (m : Sql T A) : Type 0 where
  pub same : (db : Db T) → (m db).1.tables ≡ db.tables

module _ {T A : Type 0} where
  pub query-Reads : (read : T → Result A) → Reads (query read)
  unfolding query
  query-Reads read = record { same = λ db. ground arith }

  pub lift-Reads : (r : Result A) → Reads (lift {T = T} r)
  unfolding lift
  lift-Reads r = record { same = λ db. refl }

  pub pure-Reads : (a : A) → Reads (pure {T = T} a)
  unfolding pure
  pure-Reads a = record { same = λ db. refl }

  pub attempt-Reads : (m : Sql T A) → Reads m → Reads (attempt m)
  unfolding attempt
  attempt-Reads m r = record { same = λ db. r.same db }

  written_undone :
      (db : Db T) (r : Result (A × T)) (e : GoError)
      → (written db r).0 ≡ err e
      → (written db r).1.tables ≡ db.tables
  unfolding written
  written_undone db (ok (a, t)) e h = absurd (ground arith)
  written_undone db (err x) e h = refl

  pub exec-Atomic : (write : T → Result (A × T)) → Atomic (exec write)
  unfolding exec
  exec-Atomic write = record {
    undone = λ db e. elim (Bool-cases (next_fault db.faults).0) [
      | inl bad ↦ rw (bad, exec) (λ h. refl)
      | inr good ↦ rw (good, exec) (λ h. written_undone _ (write db.tables) e h)
    ];
  }

  finish_undone :
      (before : T) (r : Result A × Db T) (e : GoError)
      → (finish before r).0 ≡ err e
      → (finish before r).1.tables ≡ before
  unfolding finish
  finish_undone before (err x, db) e h = refl
  finish_undone before (ok a, db) e h = ground arith

  -- A transaction that fails, at its begin, in its body or at its commit, is undone.
  pub transaction-Atomic : (body : Sql T A) → Atomic (transaction body)
  unfolding transaction
  transaction-Atomic body = record {
    undone = λ db e. elim (Bool-cases (next_fault db.faults).0) [
      | inl bad ↦ rw (bad, transaction) (λ h. refl)
      | inr good ↦ rw (good, transaction) (λ h. finish_undone db.tables (body _) e h)
    ];
  }

module _ {T A : Type 0} (P : T → Type 0) where
  pub Reads-Keeps : (m : Sql T A) → Reads m → Keeps P m
  Reads-Keeps m r = record { at = λ db h. rw (r.same db) h }

  written_keeps :
      (db : Db T) (r : Result (A × T))
      → P db.tables
      → ((a : A) (t : T) → r ≡ ok (a, t) → P t)
      → P (written db r).1.tables
  unfolding written
  written_keeps db (ok (a, t)) h k = k a t refl
  written_keeps db (err e) h k = h

  pub exec-Keeps :
      (write : T → Result (A × T))
      → ((t : T) (a : A) (t' : T) → P t → write t ≡ ok (a, t') → P t')
      → Keeps P (exec write)
  unfolding exec
  exec-Keeps write k = record {
    at = λ db h. elim (Bool-cases (next_fault db.faults).0) [
      | inl bad ↦ rw (bad, exec) h
      | inr good ↦
          rw (good, exec) (written_keeps _ (write db.tables) h (λ a t q. k db.tables a t h q))
    ];
  }

  finish_keeps :
      (before : T) (r : Result A × Db T) → P before → P r.1.tables → P (finish before r).1.tables
  unfolding finish
  finish_keeps before (err e, db) h k = h
  finish_keeps before (ok a, db) h k = elim (Bool-cases (next_fault db.faults).0) [
    | inl bad ↦ rw (bad, finish) h
    | inr good ↦ rw (good, finish) k
  ]

  pub transaction-Keeps : (body : Sql T A) → Keeps P body → Keeps P (transaction body)
  unfolding transaction
  transaction-Keeps body k = record {
    at = λ db h. elim (Bool-cases (next_fault db.faults).0) [
      | inl bad ↦ rw (bad, transaction) h
      | inr good ↦ rw (good, transaction) (finish_keeps db.tables (body _) h (k.at _ h))
    ];
  }

module _ {T A B : Type 0} where
  continue_keeps :
      (P : T → Type 0) (f : A → Sql T B) (r : Result A) (db : Db T)
      → ((a : A) → r ≡ ok a → P (f a db).1.tables)
      → P db.tables
      → P (continue r f db).1.tables
  continue_keeps P f (ok a) db k h = k a refl
  continue_keeps P f (err e) db k h = h

  pub bind-Keeps :
      (P : T → Type 0) (m : Sql T A) (f : A → Sql T B)
      → Keeps P m
      → ((a : A) → Keeps P (f a))
      → Keeps P (m >>= f)
  unfolding ◌>>=◌
  bind-Keeps P m f km kf = record {
    at =
        λ db h. continue_keeps P f (m db).0 (m db).1 (λ a _. (kf a).at _ (km.at db h)) (km.at db h);
  }

  -- The same where what comes after may use that the first call succeeded.
  pub bind_read-Keeps :
      (P : T → Type 0) (m : Sql T A) (f : A → Sql T B)
      → Reads m
      → ((db db' : Db T) (a : A)
          → P db'.tables
          → (m db).0 ≡ ok a
          → db'.tables ≡ db.tables
          → P (f a db').1.tables)
      → Keeps P (m >>= f)
  unfolding ◌>>=◌
  bind_read-Keeps P m f r k = record {
    at = λ db h.
        continue_keeps P f (m db).0 (m db).1
          (λ a q. k db (m db).1 a (rw (r.same db) h) q (r.same db)) (rw (r.same db) h);
  }

  pub bind-Reads :
      (m : Sql T A) (f : A → Sql T B) → Reads m → ((a : A) → Reads (f a)) → Reads (m >>= f)
  unfolding ◌>>=◌
  bind-Reads m f rm rf = record {
    same = λ db.
        continue_keeps (λ t. t ≡ db.tables) f (m db).0 (m db).1
          (λ a _. rw ((rf a).same (m db).1) (rm.same db)) (rm.same db);
  }

  continue_undone :
      (before : T) (f : A → Sql T B) (r : Result A) (db : Db T) (e : GoError)
      → ((a : A) → Atomic (f a))
      → db.tables ≡ before
      → (continue r f db).0 ≡ err e
      → (continue r f db).1.tables ≡ before
  continue_undone before f (ok a) db e k same h = rw ((k a).undone db e h) same
  continue_undone before f (err x) db e k same h = same

  -- After reads, one call that is atomic.
  pub bind-Atomic :
      (m : Sql T A) (f : A → Sql T B) → Reads m → ((a : A) → Atomic (f a)) → Atomic (m >>= f)
  unfolding ◌>>=◌
  bind-Atomic m f rm kf = record {
    undone = λ db e h. continue_undone db.tables f (m db).0 (m db).1 e kf (rm.same db) h;
  }

  continue_undone_last :
      (before : T) (f : A → Sql T B) (r : Result A) (db : Db T) (e : GoError)
      → ((x : GoError) → r ≡ err x → db.tables ≡ before)
      → ((a : A) (x : GoError) → (f a db).0 ≢ err x)
      → (continue r f db).0 ≡ err e
      → (continue r f db).1.tables ≡ before
  continue_undone_last before f (ok a) db e k total h = absurd (total a e h)
  continue_undone_last before f (err x) db e k total h = k x refl

  -- After a call that is atomic, what cannot fail.
  pub bind_total-Atomic :
      (m : Sql T A) (f : A → Sql T B)
      → Atomic m
      → ((a : A) (db : Db T) (x : GoError) → (f a db).0 ≢ err x)
      → Atomic (m >>= f)
  unfolding ◌>>=◌
  bind_total-Atomic m f km total = record {
    undone = λ db e h.
        continue_undone_last db.tables f (m db).0 (m db).1 e (λ x q. km.undone db x q)
          (λ a x. total a (m db).1 x) h;
  }

pub ruleset reading = (query-Reads, lift-Reads, pure-Reads, attempt-Reads, bind-Reads)
