-- ===== src/Service/Asking.antt =====
-- `ask` of internal/service/daemon.go.
use peercontext.Common.{
  ℕ, zero, suc, ◌*◌, ◌%◌, ◌^◌, none, some, String, ◌==◌, string_eq, if◌then◌else◌,
}
use peercontext.Common.Int.{ℤ, pos, negsuc}
use peercontext.Common.Text.{concat}
use peercontext.Errors.{plain, structured, Result, ok, err}
use peercontext.Protocol.Time.{Time}
use peercontext.Protocol.Model.{
  Request, Response, ProviderPayload, ProviderMessageType, body_sha256, default_request_timeout,
}
use peercontext.Lanhost.Server.Invite.{signed_64}
use peercontext.Lanhost.Wire.{kind_agent_get, kind_request_ask}
use peercontext.State.Model.{Profile}
use peercontext.Service.Control.{AskInput}
use peercontext.Service.Daemon.{Act, Call, Setup, lift, current_client, call, ◌>>=◌}
use peercontext.Service.Agents.{Answers, no_agent}

-- What `ask` draws, reads and calls: the timeout is the context's of the second call.
pub record Asking : Type 0 where
  pub request_uuid : String
  pub now : Time
  pub find : String → Call
  pub send : ℤ → Request → Call

abbrev pub millisecond : ℕ
millisecond = 1_000_000

-- the timeout: a product of signed 64-bit numbers
unfoldable pub request_timeout : ℤ → ℤ
unfolding signed_64
request_timeout (negsuc n) = pos default_request_timeout
request_timeout (pos zero) = pos default_request_timeout
request_timeout (pos (suc n)) = signed_64 ((suc n * millisecond) % 2 ^ 64)

-- protocolv2.ProviderPayload{}; the type "" is never looked at
abbrev no_payload : ProviderPayload
no_payload = record {
  schema_version = 0;
  type = ProviderMessageType.ready;
  agent_id = "";
  request_id = "";
  request = none;
  response = none;
  failure = none;
}

-- what the payload of the host comes to
unfoldable pub answer_of : ProviderPayload → Result Response
answer_of payload = elim payload.failure [
  | some f ↦ err (structured f.code f.message f.retryable)
  | none ↦ elim payload.response [
    | none ↦ err (plain "Agent returned no response")
    | some response ↦ ok response
  ]
]

module _ (setup : Setup) (answers : Answers) (turn : Asking) where
  unfoldable pub asked_request : AskInput → Profile → String → Request
  unfolding body_sha256
  asked_request input profile agent_id = record {
    schema_version = 2;
    id = if input.request_id == "" then concat "req_" turn.request_uuid else input.request_id;
    project_id = profile.project_id;
    requester_id = profile.member_id;
    agent_id = agent_id;
    body = input.body;
    body_sha256 = body_sha256 setup.platform input.body;
    created_at = turn.now;
  }

  -- ask
  unfoldable pub ask : AskInput → Act Response
  unfolding answer_of asked_request request_timeout
  ask input = do
    (c, profile) ← current_client setup
    (agent, c') ← call setup answers.agent no_agent (turn.find input.agent) kind_agent_get c
    (payload, c'') ←
        call setup answers.payload no_payload
          (turn.send (request_timeout input.timeout_ms) (asked_request input profile agent.id))
          kind_request_ask c'
    lift (answer_of payload)
