-- ===== src/Lanhost/Server/Permitted.antt =====
-- What a signed message lets its sender do to the database of the host, through `dispatchRPC` of
-- internal/lanhost/server.go.
pub mod Asked
pub mod Dispatched
use peercontext.Common.{◌≡◌, refl, ℕ, true, String}
use peercontext.Common.Text.{Bytes}
use peercontext.Errors.{GoError, Result, ok, err}
use peercontext.Protocol.Time.{Time}
use peercontext.Protocol.Platform.{Platform}
use peercontext.Protocol.Model.{Member, AgentManifest, Request, RequestStatus}
use peercontext.Protocol.Signing.{SignedMessage}
use peercontext.Lanhost.Wire.{RpcResult}
use peercontext.Lanhost.Store.Tables.{StoreM}
use peercontext.Lanhost.Operations.{
  Operation, inviting, removing, registering, unregistering, requesting, updating,
}
use peercontext.Lanhost.Operations.Runs.{Runs, Acts, Runs-append, done}
use peercontext.Lanhost.Server.Host.{Host, Json, Value, on_store}
use peercontext.Lanhost.Server.Ask.{
  Outcome, Serve, next, reply, waiting, continue, call, check, ignore, ◌>>=◌,
}
use peercontext.Lanhost.Server.Rpc.{store_reply}

-- In the Project of the message: invitations if the sender is the owner; removals, registrations and
-- requests in the name of the sender; and the status of requests.
pub data Permitted (sender : Member) (m : SignedMessage) : Operation → Type 0 where
  may_invite :
      (id : String) (key : Bytes) (expires : Time)
      → sender.owner ≡ true
      → Permitted sender m (inviting m.project_id id key expires)
  may_remove : (id : String) → Permitted sender m (removing m.project_id sender.id id)
  may_register :
      (id : String) (manifest : AgentManifest) (now : Time)
      → Permitted sender m (registering m.project_id sender.id id manifest now)
  may_unregister :
      (selector : String) → Permitted sender m (unregistering m.project_id sender.id selector)
  may_request :
      (r : Request)
      → r.project_id ≡ m.project_id
      → r.requester_id ≡ sender.id
      → Permitted sender m (requesting r)
  may_update :
      (project_id id : String) (status : RequestStatus) (at : Time)
      → project_id ≡ m.project_id
      → Permitted sender m (updating project_id id status at)

module _ (p : Platform) (json : Json) (P : Operation → Type 0) where
  -- A handler that does to the database what is permitted.
  pub record Serves {A : Type 0} (f : Serve A) : Type 0 where
    pub run : (s : Host) → Runs p json.manifest P s.db.tables (f s).1.db.tables

  module _ {A : Type 0} where
    pub still-Serves : (o : Host → Outcome A) → Serves (λ s. (o s, s))
    still-Serves o = record { run = λ s. done _ _ refl }

    pub call-Serves :
        (m : StoreM A) (failing : GoError → RpcResult × ℕ)
        → Acts p json.manifest P m
        → Serves (call m failing)
    unfolding on_store
    call-Serves m failing acts = record { run = λ s. acts.run s.db }

    pub store_reply-Serves :
        (value : Result A → Result Value) (m : StoreM A)
        → Acts p json.manifest P m
        → Serves (store_reply json value m)
    unfolding store_reply on_store
    store_reply-Serves value m acts = record { run = λ s. acts.run s.db }

  pub ignore-Serves : (m : StoreM (Unit {0})) → Acts p json.manifest P m → Serves (ignore m)
  unfolding on_store
  ignore-Serves m acts = record { run = λ s. acts.run s.db }

  module _ {A B : Type 0} where
    continue_serves :
        (before s : Host) (o : Outcome A) (f : A → Serve B)
        → Runs p json.manifest P before.db.tables s.db.tables
        → ((a : A) → o ≡ next a → Serves (f a))
        → Runs p json.manifest P before.db.tables (continue o f s).1.db.tables
    continue_serves before s (next a) f first after =
        Runs-append p json.manifest P _ _ _ first ((after a refl).run s)
    continue_serves before s (reply r n) f first after = first
    continue_serves before s waiting f first after = first

    pub bind-Serves :
        (m : Serve A) (f : A → Serve B) → Serves m → ((a : A) → Serves (f a)) → Serves (m >>= f)
    bind-Serves m f first after = record {
      run = λ s. continue_serves s (m s).1 (m s).0 f (first.run s) (λ a e. after a);
    }

    -- what comes after a check may use that it passed
    pub check-Serves :
        (r : Result A) (failing : GoError → RpcResult × ℕ) (f : A → Serve B)
        → ((a : A) → r ≡ ok a → Serves (f a))
        → Serves (check r failing >>= f)
    check-Serves (ok a) failing f after = record { run = λ s. (after a refl).run s }
    check-Serves (err e) failing f after = record { run = λ s. done _ _ refl }
