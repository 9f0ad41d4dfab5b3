-- ===== src/Cli.antt =====
-- `runAsk` of internal/cli/v2_commands.go with its errors, and the exit codes of
-- pkg/clioutput/output.go.
pub mod Asking
use Prim.Native.String
use peercontext.Common.{
  ℕ, zero, suc, ◌/◌, Bool, true, false, not, ◌||◌, ◌&&◌, Option, none, some, List, [], ◌∷◌, String,
  length, ltb, ◌==◌, nat_eq, string_eq, if◌then◌else◌,
}
use peercontext.Common.Int.{ℤ, pos, negsuc}
use peercontext.Common.Text.{Bytes, concat, trim_space}
use peercontext.Errors.{GoError, errors_is, deadline_exceeded, message, Result, ok, err}
use peercontext.Failure.{Failure, new, as_structured}
use peercontext.Protocol.Model.{Response, max_request_body_bytes}
use peercontext.Service.Control.{AskInput}

-- ExitCode, in the order of the numbers
pub data ExitCode : Type 0 where
  exit_ok exit_internal exit_usage exit_configuration exit_authentication : ExitCode
  exit_authorization exit_connection exit_not_found exit_conflict exit_unavailable : ExitCode
  exit_confirmation_required exit_denied exit_timeout exit_canceled exit_protocol : ExitCode
  exit_runtime : ExitCode

-- Error, with the fields that writeCLIError sets
pub record ApiError : Type 0 where
  pub code : String
  pub message : String
  pub hint : String
  pub retryable : Bool
  pub exit_code : ExitCode

-- (e Error) ExitCode()
unfoldable pub exit_code_of : ApiError → ExitCode
exit_code_of e = elim e.exit_code [ exit_ok ↦ exit_internal | code ↦ code ]

abbrev among : String → List String → Bool
among code [] = false
among code (c ∷ cs) = code == c || among code cs

-- errorPresentation
unfoldable pub error_presentation : String → ExitCode × String
error_presentation code =
    if code == "invite_expired"
    then (exit_timeout, "Ask a Project Owner to create a new invitation.")
    else if code == "invite_consumed"
    then (
      exit_conflict, "This invitation was already used. Ask a Project Owner to create a new one.",
    )
    else if code == "project_host_offline"
    then (
      exit_connection, "Confirm the Project creator's Mac is awake, online, and on the same LAN.",
    )
    else if among code ("agent_offline" ∷ "agent_unavailable" ∷ [])
    then (
      exit_unavailable,
      "Confirm the Agent owner's Mac is awake and its PeerContext service is running.",
    )
    else if code == "host_identity_mismatch"
    then (exit_protocol, "Do not continue. Confirm the invitation or saved Project with its Owner.")
    else if code == "invalid_invitation"
    then (
      exit_protocol,
      "Copy the complete peerctx2_ invitation again, or ask the Owner for a new one.",
    )
    else if code == "request_replayed"
    then (
      exit_protocol,
      "Do not retry the same signed request; run the command again to create a fresh nonce.",
    )
    else if code == "clock_skew"
    then (exit_protocol, "Set both Macs to automatic date and time, then try again.")
    else if code == "lan_discovery_unavailable"
    then (
      exit_connection, "Keep both Macs on the same LAN and check whether multicast DNS is allowed.",
    )
    else if code == "signature_invalid"
    then (
      exit_protocol, "The signed message could not be trusted. Stop and verify Project membership.",
    )
    else if code == "lan_peer_required"
    then (exit_connection, "Connect both Macs to the same directly connected LAN.")
    else if among code ("authorization_failed" ∷ "recursive_request_blocked" ∷ [])
    then (exit_authorization, "Check current Project membership and the requested operation.")
    else if among code ("not_found" ∷ "agent_not_found" ∷ [])
    then (exit_not_found, "Refresh the relevant list and choose an existing ID or name.")
    else if code == "request_timeout"
    then (exit_timeout, "Check the Agent and network status before trying again.")
    else if code == "request_canceled"
    then (exit_canceled, "Run the command again only if the request is still needed.")
    else if among code (
        "agent_repository_unavailable" ∷ "isolated_runtime_unavailable" ∷ "codex_execution_failed"
        ∷ "codex_protocol_error" ∷ [])
    then (
      exit_runtime,
      "Check the Agent owner's Codex login and repository, then inspect service status.",
    )
    else (exit_configuration, "Run peerctx service status for local diagnostics.")

-- the code, the message and the retryable flag of an error in writeMappedError
unfoldable pub mapped : GoError → Failure
unfolding as_structured errors_is new
mapped e =
    if errors_is deadline_exceeded e
    then new "request_timeout" "The PeerContext request timed out." true
    else elim (as_structured e) [ none ↦ new "peerctx_error" (message e) false | some f ↦ f ]

unfoldable pub mapped_error : GoError → ApiError
unfolding mapped error_presentation
mapped_error e = record {
  code = (mapped e).code;
  message = (mapped e).message;
  hint = (error_presentation (mapped e).code).1;
  retryable = (mapped e).retryable;
  exit_code = (error_presentation (mapped e).code).0;
}

-- What a command writes: an answer on the standard output, or an error on the other one.
pub data Written : Type 0 where
  answer : Response → Written
  error : ApiError → Written

-- writeError, given what writing returns
unfoldable pub write_error : Option GoError → ApiError → Written × ExitCode
unfolding exit_code_of
write_error (some failed) e = (error e, exit_internal)
write_error none e = (error e, exit_code_of e)

-- writeSuccess
unfoldable pub write_success : Option GoError → Response → Written × ExitCode
write_success (some failed) r = (answer r, exit_internal)
write_success none r = (answer r, exit_ok)

unfoldable pub cli_error : ExitCode → String → String → String → ApiError
cli_error exit_code code message hint = record {
  code = code;
  message = message;
  hint = hint;
  retryable = false;
  exit_code = exit_code;
}

unfoldable pub usage : String → ApiError
unfolding cli_error
usage hint =
    cli_error exit_usage "invalid_arguments" "Invalid PeerContext command or arguments."
      (concat hint " Run the command with --help for details.")

-- The flags of `ask` and the number of arguments that are left over.
pub record AskFlags : Type 0 where
  pub timeout : ℤ
  pub request_id : String
  pub left_over : ℕ

-- (d Duration) Milliseconds(), of a positive duration
unfoldable pub milliseconds : ℕ → ℕ
milliseconds d = d / 1_000_000

abbrev pub ask_usage : String
ask_usage = "Use: peerctx ask AGENT [--timeout 5m] [--request-id ID]."

-- What `runAsk` meets: the parser of the flags, the standard input up to one byte over the limit,
-- the service, and what writing returns.
pub record AskRun : Type 0 where
  pub parse : List String → Option AskFlags
  pub stdin : Result Bytes
  pub control : AskInput → Result Response
  pub written : Option GoError

module _ (r : AskRun) where
  -- the call of the service
  unfoldable pub ask_service : String → AskFlags → ℕ → Bytes → Written × ExitCode
  unfolding milliseconds mapped_error write_error write_success
  ask_service agent flags timeout body =
      elim (r.control (record {
        agent = agent;
        request_id = flags.request_id;
        body = body;
        timeout_ms = pos (milliseconds timeout);
      })) [
        | err e ↦ write_error r.written (mapped_error e)
        | ok response ↦ write_success r.written response
      ]

  -- runAsk with flags and a positive timeout
  unfoldable pub ask_with : String → AskFlags → ℕ → Written × ExitCode
  unfolding ask_service cli_error
  ask_with agent flags timeout =
      let too_large = write_error r.written (
        cli_error exit_usage "request_too_large" "Request body is too large."
          "Keep stdin at or below 256 KiB.") in
      elim r.stdin [
        | err e ↦ too_large
        | ok body ↦
            if ltb max_request_body_bytes (length body)
            then too_large
            else ask_service agent flags timeout body
      ]

  -- runAsk
  unfoldable pub run_ask : List String → Written × ExitCode
  unfolding usage ask_with
  run_ask [] = write_error r.written (usage ask_usage)
  run_ask (agent ∷ args) = elim (r.parse args) [
    | none ↦ write_error r.written (usage ask_usage)
    | some flags ↦
        if not (flags.left_over == 0)
        then write_error r.written (usage ask_usage)
        else elim flags.timeout [
          | negsuc n ↦ write_error r.written (usage ask_usage)
          | pos zero ↦ write_error r.written (usage ask_usage)
          | pos (suc n) ↦ ask_with agent flags (suc n)
        ]
  ]
