-- ===== src/Codex.antt =====
-- internal/codex/isolated.go: the runs of Codex in an isolated environment.
pub mod Final
pub mod Environment
use Prim.Native.String
use peercontext.Common.{
  ℕ, Bool, true, false, not, ◌&&◌, ◌||◌, Option, none, some, List, [], ◌∷◌, String, length, ltb,
  ◌==◌, nat_eq, string_eq, if◌then◌else◌,
}
use peercontext.Common.Text.{Bytes, concat}
use peercontext.Errors.{
  GoError, Sentinel, sentinel, plain, errors_is, message, canceled, deadline_exceeded, Result, ok,
  err,
}
use peercontext.Protocol.Model.{max_response_body_bytes}

pub record RuntimeError : Type 0 where
  pub code : String
  pub message : String
  pub cause : Option GoError

-- An error of a run: an error of Go's, or a *RuntimeError.
pub data RunError : Type 0 where
  go : GoError → RunError
  runtime : RuntimeError → RunError

-- (e *RuntimeError) Error()
unfoldable pub runtime_error_text : RuntimeError → String
runtime_error_text e = elim e.cause [
  | none ↦ e.message
  | some cause ↦ concat e.message (concat ": " (message cause))
]

-- errors.Is, through Unwrap
unfoldable pub run_error_is : Sentinel → RunError → Bool
run_error_is s (go e) = errors_is s e
run_error_is s (runtime e) = elim e.cause [ none ↦ false | some cause ↦ errors_is s cause ]

pub data Ran : Type 0 where
  answered : Bytes → Ran
  failed : RunError → Ran

abbrev pub runtime_failure : String → String → Option GoError → Ran
runtime_failure code text cause =
    failed (runtime (record { code = code; message = text; cause = cause }))

-- A line of the output; `text` is of its item.
pub record Event : Type 0 where
  pub type : String
  pub item_type : String
  pub text : Bytes

abbrev pub is_final : Event → Bool
is_final e = e.type == "item.completed" && e.item_type == "agent_message"

-- parseFinalAgentMessage, over what the decoder returns up to the end of the output; `limit_text` is
-- the limit in decimals, and `last` the last answer so far.
unfoldable pub parse_final_agent_message : ℕ → String → List (Result Event) → Option Bytes → Ran
parse_final_agent_message limit limit_text [] none =
    runtime_failure "codex_protocol_error" "Codex JSONL did not contain a final Agent message" none
parse_final_agent_message limit limit_text [] (some answer) = answered answer
parse_final_agent_message limit limit_text (err e ∷ more) last =
    runtime_failure "codex_protocol_error" "Codex JSONL could not be decoded" (some e)
parse_final_agent_message limit limit_text (ok event ∷ more) last =
    let skipped = parse_final_agent_message limit limit_text more last in
    let taken = parse_final_agent_message limit limit_text more (some event.text) in
    if not (is_final event)
    then skipped
    else if ltb limit (length event.text)
    then runtime_failure "response_too_large"
        (concat "Codex final answer exceeds " (concat limit_text " bytes")) none
    else taken

-- What the system answers in a run; none where a call succeeds.
pub record Attempt : Type 0 where
  pub has_stdin : Bool
  pub resolve : Option GoError
  pub stat : Option GoError
  pub is_directory : Bool
  pub make_root : Option GoError
  pub make_directories : Option GoError
  pub link_auth : Option GoError
  pub write_config : Option GoError
  pub open_stdout : Option GoError
  pub open_stderr : Option GoError
  pub start : Option GoError
  pub output : List (Result Event)
  pub context : Option GoError
  pub exit : Option GoError

abbrev or_fail : Option GoError → String → String → Ran → Ran
or_fail none code text next = next
or_fail (some e) code text next = runtime_failure code text (some e)

-- the answer of the process, after it has ended
unfoldable pub ended : Option GoError → Option GoError → Ran → Ran
ended context exit (failed e) = failed e
ended (some e) exit (answered answer) = failed (go e)
ended none (some e) (answered answer) =
    runtime_failure "codex_execution_failed" "Codex exited without a successful final answer"
      (some e)
ended none none (answered answer) = answered answer

-- Run
unfoldable pub run : Attempt → Ran
unfolding parse_final_agent_message ended
run a =
    if not a.has_stdin
    then runtime_failure "codex_stdin_required" "Codex stdin is required" none
    else or_fail a.resolve "agent_repository_unavailable" "The Agent repository is unavailable" (
        if not a.is_directory
        then runtime_failure "agent_repository_unavailable" "The Agent repository is unavailable"
            a.stat
        else or_fail a.stat "agent_repository_unavailable" "The Agent repository is unavailable" (
            or_fail a.make_root "isolated_runtime_unavailable"
              "The isolated runtime directory could not be created"
              (or_fail a.make_directories "isolated_runtime_unavailable"
                "The isolated runtime directory could not be prepared"
                (or_fail a.link_auth "isolated_runtime_unavailable"
                  "The verified auth.json bridge could not be mounted"
                  (or_fail a.write_config "isolated_runtime_unavailable"
                    "The isolated Codex config could not be written"
                    (or_fail a.open_stdout "codex_execution_failed"
                      "Codex stdout could not be opened"
                      (or_fail a.open_stderr "codex_execution_failed"
                        "Codex stderr could not be opened"
                        (or_fail a.start "codex_execution_failed" "Codex could not be started" (
                          ended a.context a.exit (
                            parse_final_agent_message max_response_body_bytes "2097152" a.output
                              none))))))))))

-- publicRuntimeFailure of internal/service/daemon.go: a code, a message and whether to retry
unfoldable pub public_runtime_failure : RunError → String × String × Bool
unfolding run_error_is
public_runtime_failure (go e) =
    if run_error_is canceled (go e) || run_error_is deadline_exceeded (go e)
    then ("request_canceled", "The isolated Codex request was canceled.", false)
    else ("codex_execution_failed", "The isolated Codex request failed.", true)
public_runtime_failure (runtime e) =
    if run_error_is canceled (runtime e) || run_error_is deadline_exceeded (runtime e)
    then ("request_canceled", "The isolated Codex request was canceled.", false)
    else (
      e.code,
      e.message,
      e.code == "codex_execution_failed" || e.code == "isolated_runtime_unavailable",
    )
