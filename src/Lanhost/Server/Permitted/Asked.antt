-- ===== src/Lanhost/Server/Permitted/Asked.antt =====
-- That `ask` of internal/lanhost/server.go does only what is permitted.
use peercontext.Common.{
  ◌≡◌, refl, subst, true, false, inl, inr, Option, none, some, String, arith, Option-cases,
  if◌then◌else◌, nat_eq, string_eq, ==_iff,
}
use peercontext.Errors.{sentinel, agent_offline, Result, ok, err}
use peercontext.Protocol.Platform.{Platform}
use peercontext.Protocol.Model.{Member, Agent, Request, RequestStatus, ProviderPayload, failed}
use peercontext.Protocol.Signing.{SignedMessage}
use peercontext.Lanhost.Broker.{Started}
use peercontext.Lanhost.Wire.{HostIdentity}
use peercontext.Lanhost.Store.Requests.{create_request, update_request}
use peercontext.Lanhost.Store.Agents.{agent}
use peercontext.Lanhost.Operations.{Operation, perform, requesting, updating}
use peercontext.Lanhost.Operations.Atomic.{agent-Reads}
use peercontext.Lanhost.Operations.Runs.{Runs, Acts, Reads-Acts, perform-Acts, done}
use peercontext.Lanhost.Server.Host.{Host, Json, World, payload_value}
use peercontext.Lanhost.Server.Failures.{rpc_failure, encode_result}
use peercontext.Lanhost.Server.Ask.{
  next, reply, Wait, ask, dispatch, wait_for, settle, send_request, create_and_send, ask_agent,
  call, finish_ask, read_request, final_status, ◌>>=◌,
}
use peercontext.Lanhost.Server.Permitted.{
  Permitted, may_request, may_update, Serves, still-Serves, call-Serves, ignore-Serves, bind-Serves,
  check-Serves,
}

module _ (p : Platform) (json : Json) (w : World) (wait : Wait) (sender : Member)
    (m : SignedMessage) where
  read_request_ok :
      (r : Request)
      → read_request p json w wait sender m ≡ ok r
      → (r.project_id ≡ m.project_id) × (r.requester_id ≡ sender.id)
  unfolding read_request
  read_request_ok r h = elim (Option-cases (json.request m.payload)) [
    | inl e ↦ absurd (ground (arith, e))
    | inr (q, e) ↦
        let same : q ≡ r = ground (arith, e) in
        subst (λ (x : Request). (x.project_id ≡ m.project_id) × (x.requester_id ≡ sender.id)) same
          (
            ground (arith, e, ==_iff q.project_id m.project_id),
            ground (arith, e, ==_iff q.requester_id sender.id),
          )
  ]

  module _ (P : Operation → Type 0) (allowed : (o : Operation) → Permitted sender m o → P o)
      (others : (s : Host) → Runs p json.manifest P s.db.tables (wait.others s).db.tables) where
    settle_runs :
        (before s : Host) (id : String) (r : Option (Result ProviderPayload))
        → Runs p json.manifest P before.db.tables s.db.tables
        → Runs p json.manifest P before.db.tables (settle id r s).1.db.tables
    unfolding settle
    settle_runs before s id none h = h
    settle_runs before s id (some r) h = h

    wait_for-Serves :
        (id : String) (started : Result Started)
        → Serves p json P (wait_for p json w wait id started)
    unfolding wait_for
    wait_for-Serves id (err e) = record { run = λ s. done _ _ refl }
    wait_for-Serves id (ok started) = elim (Option-cases wait.write_error) [
      | inl e ↦ record {
        run = λ s. rw (e, wait_for) (settle_runs s (wait.others s) id _ (others s));
      }
      | inr (x, e) ↦ record {
        run = λ s. rw (e, wait_for) (settle_runs s s id (some (err x)) (done _ _ refl));
      }
    ]

    dispatch-Serves :
        (r : Request) (identity : HostIdentity)
        → Serves p json P (dispatch p json w wait r identity)
    unfolding dispatch
    dispatch-Serves r identity = record {
      run = λ s. (wait_for-Serves r.id _).run (record s { broker = _ });
    }

    update-Acts :
        (r : Request) (status : RequestStatus)
        → r.project_id ≡ m.project_id
        → Acts p json.manifest P (update_request p r.project_id r.id status w.later)
    unfolding perform
    update-Acts r status here =
        perform-Acts p json.manifest P (update_request p r.project_id r.id status w.later)
          (updating r.project_id r.id status w.later)
          (allowed _ (may_update r.project_id r.id status w.later here)) (λ db. refl)

    create-Acts :
        (r : Request)
        → r.project_id ≡ m.project_id
        → r.requester_id ≡ sender.id
        → Acts p json.manifest P (create_request p r)
    unfolding perform
    create-Acts r project requester =
        perform-Acts p json.manifest P (create_request p r) (requesting r)
          (allowed _ (may_request r project requester)) (λ db. refl)

    finish_ask-Serves :
        (r : Request) (answer : Result ProviderPayload)
        → r.project_id ≡ m.project_id
        → Serves p json P (finish_ask p json w wait r answer)
    unfolding finish_ask
    finish_ask-Serves r (err e) here =
        bind-Serves p json P _ _ (ignore-Serves p json P _ (update-Acts r failed here))
          (λ _. still-Serves p json P (λ s. reply (rpc_failure "agent_offline" e true) 503))
    finish_ask-Serves r (ok response) here =
        bind-Serves p json P _ _
          (ignore-Serves p json P _ (update-Acts r (final_status response) here))
          (λ _.
            still-Serves p json P (λ s. next (encode_result json (ok (payload_value response)))))

    send_request-Serves :
        (r : Request) (identity : HostIdentity)
        → r.project_id ≡ m.project_id
        → Serves p json P (send_request p json w wait r identity)
    unfolding send_request
    send_request-Serves r identity here =
        bind-Serves p json P (dispatch p json w wait r identity) (finish_ask p json w wait r)
          (dispatch-Serves r identity) (λ answer. finish_ask-Serves r answer here)

    create_and_send-Serves :
        (r : Request)
        → r.project_id ≡ m.project_id
        → r.requester_id ≡ sender.id
        → Serves p json P (create_and_send p json w wait m r)
    unfolding create_and_send
    create_and_send-Serves r project requester =
        bind-Serves p json P (call (create_request p r) _) _
          (call-Serves p json P _ _ (create-Acts r project requester))
          (λ _.
            check-Serves p json P (w.host_identity m.project_id) _ (send_request p json w wait r)
              (λ identity known. send_request-Serves r identity project))

    ask_agent-Serves :
        (r : Request) (target : Agent)
        → r.project_id ≡ m.project_id
        → r.requester_id ≡ sender.id
        → Serves p json P (ask_agent p json w wait m r target)
    unfolding ask_agent
    ask_agent-Serves r target project requester =
        check-Serves p json P (if target.online then ok tt else err (sentinel agent_offline)) _
          (λ _. create_and_send p json w wait m r)
          (λ _ on. create_and_send-Serves r project requester)

    found-Serves :
        (r : Request)
        → r.project_id ≡ m.project_id
        → r.requester_id ≡ sender.id
        → Serves p json P (
            call
              (agent p json.manifest m.project_id r.agent_id)
              (λ e. (rpc_failure "agent_not_found" e false, 404))
            >>= ask_agent p json w wait m r)
    found-Serves r project requester =
        bind-Serves p json P
          (call (agent p json.manifest m.project_id r.agent_id)
            (λ e. (rpc_failure "agent_not_found" e false, 404)))
          (ask_agent p json w wait m r)
          (call-Serves p json P _ _
            (Reads-Acts p json.manifest P _ (agent-Reads p json.manifest m.project_id r.agent_id)))
          (λ target. ask_agent-Serves r target project requester)

    pub ask-Serves : Serves p json P (ask p json w wait sender m)
    unfolding ask
    ask-Serves =
        check-Serves p json P (read_request p json w wait sender m)
          (λ e. (rpc_failure "invalid_request" e false, 400))
          (λ r.
            call (agent p json.manifest m.project_id r.agent_id)
              (λ e. (rpc_failure "agent_not_found" e false, 404))
            >>= ask_agent p json w wait m r)
          (λ r valid. found-Serves r (read_request_ok r valid).0 (read_request_ok r valid).1)
