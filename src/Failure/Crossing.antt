-- ===== src/Failure/Crossing.antt =====
-- Errors that cross the control socket: `Normalize` of internal/failure/error.go, twice.
use peercontext.Common.{◌≡◌, Option, some, arith}
use peercontext.Errors.{GoError, structured, errors_is}
use peercontext.Failure.{Failure, normalize, as_structured, generic, new}

-- the error that the other end builds from the fields it received
abbrev pub received : Failure → GoError
received f = structured f.code f.message f.retryable

-- What `Normalize` made of an error, whichever it was, stays as it is when the other end builds
-- an error of its code, text and flag and normalizes that again.
pub normalize-received :
    (e : Option GoError) (f : Failure)
    → normalize e ≡ some f
    → normalize (some (received f)) ≡ normalize e
unfolding normalize generic as_structured new errors_is
normalize-received e f h = ground arith
