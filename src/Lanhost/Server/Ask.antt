-- ===== src/Lanhost/Server/Ask.antt =====
-- `ask` of internal/lanhost/server.go, with `dispatch` of internal/lanhost/broker.go inside.
use peercontext.Common.{
  ℕ, Bool, true, false, not, ◌||◌, Option, none, some, String, ◌==◌, nat_eq, string_eq,
  if◌then◌else◌,
}
use peercontext.Common.Dict.{lookup}
use peercontext.Errors.{GoError, sentinel, plain, agent_offline, Result, ok, err}
use peercontext.Protocol.Platform.{Platform}
use peercontext.Protocol.Model.{
  Member, Agent, Request, RequestStatus, ProviderPayload, ProviderMessageType, validate_request,
  succeeded, failed,
}
use peercontext.Protocol.Signing.{SignedMessage}
use peercontext.Lanhost.Broker.{Started, start_dispatch, finish_dispatch}
use peercontext.Lanhost.Store.Tables.{StoreM}
use peercontext.Lanhost.Store.Agents.{agent}
use peercontext.Lanhost.Store.Requests.{create_request, update_request}
use peercontext.Lanhost.Wire.{RpcResult, HostIdentity}
use peercontext.Lanhost.Server.Host.{Host, Json, World, payload_value, on_store}
use peercontext.Lanhost.Server.Failures.{rpc_failure, encode_result}

-- A handler goes on with a value, has its reply, or still waits for the provider.
pub data Outcome (A : Type 0) : Type 0 where
  next : A → Outcome A
  reply : RpcResult → ℕ → Outcome A
  waiting : Outcome A

abbrev pub Serve : Type 0 → Type 0
Serve A = Host → Outcome A × Host

module _ {A B : Type 0} where
  abbrev pub continue : Outcome A → (A → Serve B) → Serve B
  continue (next a) f s = f a s
  continue (reply r n) f s = (reply r n, s)
  continue waiting f s = (waiting, s)

  infixl 5 ◌>>=◌
  abbrev pub ◌>>=◌ : Serve A → (A → Serve B) → Serve B
  ◌>>=◌ m f s = let (o, s') = m s in continue o f s'

infixl 5 ◌>>◌
abbrev pub ◌>>◌ : {B : Type 0} → Serve (Unit {0}) → Serve B → Serve B
m >> k = m >>= λ _. k

abbrev outcome : {A : Type 0} → (GoError → RpcResult × ℕ) → Result A → Outcome A
outcome failing (ok a) = next a
outcome failing (err e) = let (r, n) = failing e in reply r n

-- a call of the store, with the reply to its error
abbrev pub call : {A : Type 0} → StoreM A → (GoError → RpcResult × ℕ) → Serve A
call m failing s = let (r, s') = on_store m s in (outcome failing r, s')

abbrev pub check : {A : Type 0} → Result A → (GoError → RpcResult × ℕ) → Serve A
check r failing s = (outcome failing r, s)

-- a call of the store whose error is dropped
abbrev pub ignore : StoreM (Unit {0}) → Serve (Unit {0})
ignore m s = let (r, s') = on_store m s in (next tt, s')

-- What happens while `dispatch` waits: the error of the write, what other handlers do to the host,
-- and the error of the context if the `select` takes that branch.
pub record Wait : Type 0 where
  pub write_error : Option GoError
  pub others : Host → Host
  pub done : Option GoError

-- the `select`: none while neither branch is ready
unfoldable pub awaited : Wait → ℕ → Host → Option (Result ProviderPayload)
awaited wait channel s = elim wait.done [
  | some e ↦ some (err e)
  | none ↦ elim (lookup channel s.broker.channels) [
    | none ↦ none
    | some payload ↦ some (ok payload)
  ]
]

unfoldable pub settle :
    String → Option (Result ProviderPayload) → Host → Outcome (Result ProviderPayload) × Host
settle request_id none s = (waiting, s)
settle request_id (some r) s = (next r, record s { broker = finish_dispatch s.broker request_id })

unfoldable pub is_error : Result (Unit {0}) → Bool
is_error (ok _) = false
is_error (err e) = true

-- the status that ends a request: a failure of the provider is a failure
unfoldable pub final_status : ProviderPayload → RequestStatus
final_status response = elim response.type [ ProviderMessageType.failure ↦ failed | _ ↦ succeeded ]

module _ (p : Platform) (json : Json) (w : World) (wait : Wait) where
  unfoldable pub wait_for : String → Result Started → Serve (Result ProviderPayload)
  unfolding settle awaited
  wait_for request_id (err e) s = (next (err e), s)
  wait_for request_id (ok started) s = elim wait.write_error [
    | some e ↦ settle request_id (some (err e)) s
    | none ↦ let s' = wait.others s in settle request_id (awaited wait started.channel s') s'
  ]

  -- dispatch; the error is the caller's to handle
  unfoldable pub dispatch : Request → HostIdentity → Serve (Result ProviderPayload)
  unfolding wait_for
  dispatch r identity s =
      let (started, broker) =
        start_dispatch p json.payload s.broker r identity w.broker_nonce w.later in
      wait_for r.id started (record s { broker = broker })

  -- the request of the message, if it is one that this member may send to this Project
  unfoldable pub read_request : Member → SignedMessage → Result Request
  unfolding is_error
  read_request sender m = elim (json.request m.payload) [
    | none ↦ err (plain "invalid read request")
    | some r ↦
        if is_error (validate_request p r)
          || not (r.project_id == m.project_id)
          || not (r.requester_id == sender.id)
        then err (plain "invalid read request")
        else ok r
  ]

  unfoldable pub finish_ask : Request → Result ProviderPayload → Serve (RpcResult × ℕ)
  unfolding final_status
  finish_ask r (err e) = do
    ignore (update_request p r.project_id r.id failed w.later)
    (λ s. (reply (rpc_failure "agent_offline" e true) 503, s))
  finish_ask r (ok response) = do
    ignore (update_request p r.project_id r.id (final_status response) w.later)
    (λ s. (next (encode_result json (ok (payload_value response))), s))

  unfoldable pub send_request : Request → HostIdentity → Serve (RpcResult × ℕ)
  unfolding dispatch finish_ask
  send_request r identity = do response ← dispatch r identity; finish_ask r response

  unfoldable pub create_and_send : SignedMessage → Request → Serve (RpcResult × ℕ)
  unfolding send_request
  create_and_send m r = do
    call (create_request p r) (λ e. (rpc_failure "request_failed" e false, 409))
    identity ←
        check (w.host_identity m.project_id)
          (λ e. (rpc_failure "host_identity_unavailable" e true, 503))
    send_request r identity

  unfoldable pub ask_agent : SignedMessage → Request → Agent → Serve (RpcResult × ℕ)
  unfolding create_and_send
  ask_agent m r target = do
    check (if target.online then ok tt else err (sentinel agent_offline))
        (λ e. (rpc_failure "agent_offline" e true, 503))
    create_and_send m r

  -- ask
  unfoldable pub ask : Member → SignedMessage → Serve (RpcResult × ℕ)
  unfolding read_request ask_agent
  ask sender m = do
    r ← check (read_request sender m) (λ e. (rpc_failure "invalid_request" e false, 400))
    target ←
        call (agent p json.manifest m.project_id r.agent_id)
          (λ e. (rpc_failure "agent_not_found" e false, 404))
    ask_agent m r target
