-- ===== src/Failure.antt =====
-- internal/failure/error.go: structured errors that cross the control socket.
pub mod Crossing
use peercontext.Common.{Bool, true, false, Option, none, some, String, if◌then◌else◌}
use peercontext.Errors.{
  GoError, sentinel, plain, wrap, wrap_as, structured, structured_by, errors_is, message,
  deadline_exceeded, canceled,
}

-- The fields that JSON carries; `Cause` is left out there.
pub record Failure : Type 0 where
  pub code : String
  pub message : String
  pub retryable : Bool

-- (e *Error) Error(), of a pointer that may be nil
unfoldable pub error_text : Option Failure → String
error_text none = "PeerContext operation failed"
error_text (some e) = e.message

-- New
unfoldable pub new : String → String → Bool → Failure
new code message retryable = record { code = code; message = message; retryable = retryable }

-- errors.As(err, &structured): the first *Error of the chain
unfoldable pub as_structured : GoError → Option Failure
unfolding new
as_structured (sentinel s) = none
as_structured (plain t) = none
as_structured (wrap e t) = as_structured e
as_structured (wrap_as t e) = as_structured e
as_structured (structured c m r) = some (new c m r)
as_structured (structured_by c m r e) = some (new c m r)

generic : GoError → Option Failure → Failure
unfolding new
generic e none = new "peerctx_error" (message e) false
generic e (some f) = record { code = f.code; message = f.message; retryable = f.retryable }

-- Normalize
unfoldable pub normalize : Option GoError → Option Failure
unfolding generic as_structured new errors_is
normalize none = none
normalize (some e) = some (
    if errors_is deadline_exceeded e
    then new "request_timeout" "The PeerContext request timed out." true
    else if errors_is canceled e
    then new "request_canceled" "The PeerContext request was canceled." false
    else generic e (as_structured e))
