-- ===== src/Lanhost/Server/Failures.antt =====
-- `encodeResult`, `rpcFailure` and `rpcFailureFor` of internal/lanhost/server.go.
use peercontext.Common.{ℕ, Bool, true, false, none, some, [], String, if◌then◌else◌}
use peercontext.Errors.{
  GoError, plain, errors_is, message, invite_expired, invite_consumed, invite_invalid,
  request_replayed, clock_skew, signature_invalid, member_forbidden, not_found, Result, ok, err,
}
use peercontext.Lanhost.Wire.{RpcResult}
use peercontext.Lanhost.Server.Host.{Json, Value}

-- rpcFailure
unfoldable pub rpc_failure : String → GoError → Bool → RpcResult
unfolding message
rpc_failure code e retryable = record {
  ok = false;
  body = [];
  error = some (record { code = code; message = message e; retryable = retryable });
}

-- rpcFailureFor
unfoldable pub rpc_failure_for : String → GoError → Bool → RpcResult
unfolding rpc_failure errors_is
rpc_failure_for default_code e retryable =
    if errors_is invite_expired e
    then rpc_failure "invite_expired" e false
    else if errors_is invite_consumed e
    then rpc_failure "invite_consumed" e false
    else if errors_is invite_invalid e
    then rpc_failure "invalid_invitation" e false
    else if errors_is request_replayed e
    then rpc_failure "request_replayed" e false
    else if errors_is clock_skew e
    then rpc_failure "clock_skew" e false
    else if errors_is signature_invalid e
    then rpc_failure "signature_invalid" e false
    else if errors_is member_forbidden e
    then rpc_failure "authorization_failed" e false
    else if errors_is not_found e
    then rpc_failure "not_found" e false
    else rpc_failure default_code e retryable

-- encodeResult
unfoldable pub encode_result : Json → Result Value → RpcResult × ℕ
unfolding rpc_failure_for rpc_failure
encode_result json (err e) = (rpc_failure_for "operation_failed" e false, 400)
encode_result json (ok v) = elim (json.marshal v) [
  | none ↦ (rpc_failure "encode_failed" (plain "json") false, 500)
  | some bytes ↦ (record { ok = true; body = bytes; error = none }, 200)
]
