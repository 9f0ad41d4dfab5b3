-- ===== src/Lanhost/Operations/Runs.antt =====
-- What the host may do to its database: sequences of the calls of internal/lanhost/store.go.
use peercontext.Common.{◌≡◌, refl, sym, subst, [], ◌∷◌}
use peercontext.Errors.{Result, ok, err}
use peercontext.Protocol.Platform.{Platform, Codec}
use peercontext.Protocol.Model.{AgentManifest}
use peercontext.Lanhost.Sql.{◌>>=◌}
use peercontext.Lanhost.Sql
use peercontext.Lanhost.Sql.Effects.{Reads}
use peercontext.Lanhost.Store.Tables.{Tables, HostDb, StoreM}
use peercontext.Lanhost.Operations.{Operation, perform, perform_all, dropped}
use peercontext.Lanhost.Operations.Keys.{HasKeys}
use peercontext.Lanhost.Operations.Keys.Kept.{perform_all-HasKeys}

module _ (p : Platform) (json : Codec AgentManifest) where
  -- The first tables become the last by calls of the store that are permitted, whether they fail or
  -- not, each over a connection with faults of its own.
  pub data Runs (P : Operation → Type 0) : Tables → Tables → Type 0 where
    done : (t t' : Tables) → t ≡ t' → Runs P t t'
    step :
        (t t' : Tables) (o : Operation) (db : HostDb)
        → P o
        → db.tables ≡ t
        → Runs P (perform p json o db).1.tables t'
        → Runs P t t'

  pub Runs-append : (P : Operation → Type 0) (t u v : Tables) → Runs P t u → Runs P u v → Runs P t v
  Runs-append P t u v (done _ _ e) r = subst (λ (x : Tables). Runs P x v) (sym e) r
  Runs-append P t u v (step _ _ o db allowed e r) s =
      step t v o db allowed e (Runs-append P _ u v r s)

  pub Runs-imply :
      (P Q : Operation → Type 0) (t u : Tables)
      → ((o : Operation) → P o → Q o)
      → Runs P t u
      → Runs Q t u
  Runs-imply P Q t u imply (done _ _ e) = done t u e
  Runs-imply P Q t u imply (step _ _ o db allowed e r) =
      step t u o db (imply o allowed) e (Runs-imply P Q _ u imply r)

  -- Whatever is permitted, the keys of the tables are kept.
  pub Runs-HasKeys : (P : Operation → Type 0) (t u : Tables) → Runs P t u → HasKeys t → HasKeys u
  unfolding perform_all
  Runs-HasKeys P t u (done _ _ e) keys = subst (λ (x : Tables). HasKeys x) e keys
  Runs-HasKeys P t u (step _ _ o db allowed e r) keys =
      Runs-HasKeys P _ u r
        (perform_all-HasKeys p json (o ∷ []) db (subst (λ (x : Tables). HasKeys x) (sym e) keys))

  -- A call of the store that comes to permitted calls.
  pub record Acts {A : Type 0} (P : Operation → Type 0) (m : StoreM A) : Type 0 where
    pub run : (db : HostDb) → Runs P db.tables (m db).1.tables

  module _ {A : Type 0} (P : Operation → Type 0) where
    pub Reads-Acts : (m : StoreM A) → Reads m → Acts P m
    Reads-Acts m reads = record { run = λ db. done _ _ (sym (reads.same db)) }

    -- A call that is one operation.
    pub perform-Acts :
        (m : StoreM A) (o : Operation)
        → P o
        → ((db : HostDb) → (perform p json o db).1.tables ≡ (m db).1.tables)
        → Acts P m
    perform-Acts m o allowed same = record {
      run = λ db. step _ _ o db allowed refl (done _ _ (same db));
    }

  module _ {A B : Type 0} (P : Operation → Type 0) where
    continue_runs :
        (t : Tables) (f : A → StoreM B) (r : Result A) (db : HostDb)
        → Runs P t db.tables
        → ((a : A) → Acts P (f a))
        → Runs P t (Sql.continue r f db).1.tables
    continue_runs t f (ok a) db before after = Runs-append P t db.tables _ before ((after a).run db)
    continue_runs t f (err e) db before after = before

    pub bind-Acts :
        (m : StoreM A) (f : A → StoreM B) → Acts P m → ((a : A) → Acts P (f a)) → Acts P (m >>= f)
    unfolding ◌>>=◌
    bind-Acts m f before after = record {
      run = λ db. continue_runs db.tables f (m db).0 (m db).1 (before.run db) after;
    }

pub dropped_tables : {A : Type 0} (r : Result A × HostDb) → (dropped r).1.tables ≡ r.1.tables
dropped_tables (ok a, db) = refl
dropped_tables (err e, db) = refl
