-- ===== src/Lanhost/Store/Requests.antt =====
-- `CreateRequest` and `UpdateRequest` of internal/lanhost/store.go.
use peercontext.Common.{◌+◌, none, some, String, length, string_eq}
use peercontext.Errors.{GoError, Result, ok, err}
use peercontext.Errors
use peercontext.Protocol.Time.{Time}
use peercontext.Protocol.Platform.{Platform}
use peercontext.Protocol.Model.{Request, RequestStatus, running, default_request_timeout}
use peercontext.Lanhost.Sql.{exec, insert_row, update_where}
use peercontext.Lanhost.Store.Tables.{RequestRow, Tables, StoreM, request_at}

-- INSERT INTO requests(…)
unfoldable pub insert_request : RequestRow → Tables → Result (Unit {0} × Tables)
unfolding insert_row
insert_request row t =
    Errors.◌>>=◌ (insert_row (request_at row.project_id row.id) row t.requests)
      (λ rows. ok (tt, record t { requests = rows }))

-- SET status=? and started_at=? or completed_at=?
unfoldable pub set_status : RequestStatus → String → RequestRow → RequestRow
set_status running at r = record r { status = running; started_at = some at }
set_status status at r = record r { status = status; completed_at = some at }

-- UPDATE requests SET status=?,…=? WHERE project_id=? AND id=?
unfoldable pub update_status :
    String → String → RequestStatus → String → Tables → Result (Unit {0} × Tables)
unfolding set_status update_where
update_status project_id id status at t = ok (
  tt,
  record t { requests = update_where (request_at project_id id) (set_status status at) t.requests },
)

module _ (p : Platform) where
  unfoldable pub request_row : Request → RequestRow
  request_row r = record {
    project_id = r.project_id;
    id = r.id;
    requester_member_id = r.requester_id;
    agent_id = r.agent_id;
    status = running;
    body_bytes = length r.body;
    body_sha256 = r.body_sha256;
    created_at = p.format_time r.created_at;
    expires_at = p.format_time (r.created_at + default_request_timeout);
    started_at = none;
    completed_at = none;
  }

  -- CreateRequest
  unfoldable pub create_request : Request → StoreM (Unit {0})
  unfolding insert_request request_row
  create_request r = exec (insert_request (request_row r))

  -- UpdateRequest; every status of the type is one that its `switch` lists
  unfoldable pub update_request : String → String → RequestStatus → Time → StoreM (Unit {0})
  unfolding update_status
  update_request project_id id status at =
      exec (update_status project_id id status (p.format_time at))
