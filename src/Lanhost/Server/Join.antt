-- ===== src/Lanhost/Server/Join.antt =====
-- `handleJoin` and `handleIdentity` of internal/lanhost/server.go.
use peercontext.Common.{
  ℕ, ◌*◌, true, false, not, ◌||◌, none, some, String, ◌==◌, string_eq, if◌then◌else◌, [],
}
use peercontext.Common.Text.{Bytes}
use peercontext.Errors.{plain, Result, ok, err}
use peercontext.Protocol.Platform.{Platform}
use peercontext.Protocol.Model.{Project, Member}
use peercontext.Protocol.Invitation.{JoinRequest}
use peercontext.Lanhost.Store.Projects.{project}
use peercontext.Lanhost.Store.Members.{member}
use peercontext.Lanhost.Store.Invitations.{consume_invitation, member_id_from_public_key}
use peercontext.Lanhost.Wire.{RpcResult}
use peercontext.Lanhost.Server.Host.{
  Host, Json, World, HttpResponse, Value, http_error, project_value, join_value, on_store,
  write_signed,
}
use peercontext.Lanhost.Server.Failures.{rpc_failure, rpc_failure_for}
use peercontext.Lanhost.Server.Rpc.{decode_json}

-- RPCResult{OK: true, Data: data}, where `data, _ := json.Marshal(value)`
unfoldable pub marshalled : Json → Value → RpcResult
marshalled json v = record {
  ok = true;
  body = elim (json.marshal v) [ none ↦ [] | some bytes ↦ bytes ];
  error = none;
}

module _ (p : Platform) (json : Json) (w : World) where
  answer_join : JoinRequest → RpcResult → ℕ → HttpResponse
  unfolding write_signed
  answer_join r result status =
      write_signed p json w r.project_id "join.response" "POST" "/v2/join" r.nonce result status

  with_member : JoinRequest → Project → Result Member → HttpResponse
  unfolding answer_join marshalled rpc_failure
  with_member r joined (err e) = answer_join r (rpc_failure "join_failed" e false) 500
  with_member r joined (ok m) =
      answer_join r (marshalled json (join_value (record { project = joined; member = m }))) 200

  with_project : JoinRequest → Result Project × Host → HttpResponse × Host
  unfolding answer_join with_member rpc_failure_for on_store
  with_project r (err e, s) = (answer_join r (rpc_failure_for "invalid_invitation" e false) 403, s)
  with_project r (ok joined, s) =
      let (found, s') =
        on_store (member p r.project_id (member_id_from_public_key p r.member_public_key)) s in
      (with_member r joined found, s')

  -- handleJoin
  unfoldable pub handle_join : Bytes → Host → HttpResponse × Host
  unfolding with_project decode_json
  handle_join body s = elim (decode_json json.join_request (64 * 1024) body) [
    | none ↦ (http_error 400 "invalid join request", s)
    | some r ↦
        if not (r.method == "POST") || not (r.path == "/v2/join")
        then (
          answer_join r
              (rpc_failure "invalid_invitation" (plain "join signature route mismatch") false) 403,
          s,
        )
        else with_project r (on_store (consume_invitation p r w.now) s)
  ]

  unfoldable pub identity_reply : String → String → Result Project → HttpResponse
  unfolding write_signed marshalled
  identity_reply project_id challenge (err e) = http_error 404 "404 page not found"
  identity_reply project_id challenge (ok found) =
      write_signed p json w project_id "identity.response" "GET" "/v2/identity" challenge
        (marshalled json (project_value found)) 200

  -- handleIdentity
  unfoldable pub handle_identity : String → String → Host → HttpResponse × Host
  unfolding identity_reply on_store
  handle_identity project_id challenge s =
      if challenge == ""
      then (http_error 400 "identity challenge is required", s)
      else let (found, s') = on_store (project p project_id) s in
        (identity_reply project_id challenge found, s')
