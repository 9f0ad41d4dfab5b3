-- ===== src/Service/Requests/Replies.antt =====
-- That `Do` of internal/service/client.go reports what the daemon of internal/service/daemon.go
-- answered with `writeReply`.
use peercontext.Common.{◌≡◌, ◌≢◌, refl, subst, Option, some, length, arith, nat_eq, ==_iff}
use peercontext.Common.Text.{Bytes}
use peercontext.Errors.{GoError, structured, Result, ok, err}
use peercontext.Failure.{Failure, normalize}
use peercontext.Lanhost.Wire.{JoinResult}
use peercontext.Protocol.Invitation.{Invitation}
use peercontext.Service.Control.{Reply, control_do}
use peercontext.Service.Daemon.{Setup}
use peercontext.Service.Agents.{Answers}
use peercontext.Service.Requests.{Value, ControlJson, Turn, write_reply}

module _ (setup : Setup) (answers : Answers) (read_join : Bytes → Option JoinResult)
    (json : ControlJson) (empty_invitation : Invitation) (turn : Turn) where
  -- What a client gets for a result of the daemon: the normalized error, or the data.
  pub record IsReported (r : Result Value) (got : Result (Option Bytes)) : Type 0 where
    pub error :
        (e : GoError)
        → r ≡ err e
        → (f : Failure) × (normalize (some e) ≡ some f)
          × (got ≡ err (structured f.code f.message f.retryable))
    pub value :
        (v : Value) (bytes : Bytes)
        → r ≡ ok v
        → json.marshal v ≡ some bytes
        → length bytes ≢ 0
        → got ≡ ok (some bytes)

  normalized : (e : GoError) → (f : Failure) × (normalize (some e) ≡ some f)
  unfolding normalize
  normalized e = (_, refl)

  reported_error :
      (read_reply : Bytes → Option Reply) (e : GoError) (body : Bytes)
      → read_reply body
        ≡ some (write_reply setup answers read_join json empty_invitation turn (err e))
      → (f : Failure) × (normalize (some e) ≡ some f)
        × (control_do read_reply (ok body) ≡ err (structured f.code f.message f.retryable))
  unfolding control_do write_reply
  reported_error read_reply e body read = let (f, n) = normalized e in (f, n, rw (read, n) refl)

  -- What `Do` returns for the reply to a command is the normalized error of the command, with its
  -- code, message and retryable flag, or the encoded data of its result, where that is not empty; the
  -- JSON of the reply is assumed to be read back.
  pub control_do-write_reply :
      (read_reply : Bytes → Option Reply) (r : Result Value) (body : Bytes)
      → read_reply body ≡ some (write_reply setup answers read_join json empty_invitation turn r)
      → IsReported r (control_do read_reply (ok body))
  unfolding control_do write_reply
  control_do-write_reply read_reply (err e) body read = record {
    error = λ x h.
        let same : e ≡ x = ground arith in
        subst
          (λ (y : GoError).
            (f : Failure) × (normalize (some y) ≡ some f)
            × (control_do read_reply (ok body) ≡ err (structured f.code f.message f.retryable)))
          same (reported_error read_reply e body read);
    value = λ v bytes h. absurd (ground arith);
  }
  control_do-write_reply read_reply (ok v) body read = record {
    error = λ x h. absurd (ground arith);
    value = λ w bytes h marshals some_data.
        let same : v ≡ w = ground arith in
        rw (read, same, write_reply, marshals) (ground (arith, ==_iff (length bytes) 0));
  }
