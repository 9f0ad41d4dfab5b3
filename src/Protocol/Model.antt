-- ===== src/Protocol/Model.antt =====
-- pkg/protocol/v2/model.go: the constants, the records and their validation.
use peercontext.Common.{
  ℕ, ◌*◌, Bool, not, ◌||◌, Option, List, String, length, ltb, ◌==◌, nat_eq, string_eq,
}
use peercontext.Common.Text.{Bytes, trim_space}
use peercontext.Errors.{plain, Result, ok, ◌>>◌, fail_if}
use peercontext.Protocol.Time.{Time, minute, is_zero}
use peercontext.Protocol.Platform.{Platform}

abbrev pub schema_version : ℕ
schema_version = 2

abbrev pub protocol_version : String
protocol_version = "v2"

abbrev pub invitation_prefix : String
invitation_prefix = "peerctx2_"

abbrev pub max_request_body_bytes : ℕ
max_request_body_bytes = 256 * 1024

abbrev pub max_response_body_bytes : ℕ
max_response_body_bytes = 2 * 1024 * 1024

abbrev pub default_invite_ttl : ℕ
default_invite_ttl = 10 * minute

abbrev pub default_request_timeout : ℕ
default_request_timeout = 5 * minute

abbrev pub default_signature_max_age : ℕ
default_signature_max_age = 2 * minute

pub record Project : Type 0 where
  pub schema_version : ℕ
  pub id : String
  pub name : String
  pub host_public_key : Bytes
  pub created_at : Time

pub record Member : Type 0 where
  pub schema_version : ℕ
  pub id : String
  pub project_id : String
  pub name : String
  pub public_key : Bytes
  pub owner : Bool
  pub created_at : Time

pub record AgentManifest : Type 0 where
  pub schema_version : ℕ
  pub name : String
  pub summary : String
  pub tags : List String
  pub capabilities : List String

pub record Agent : Type 0 where
  pub schema_version : ℕ
  pub id : String
  pub project_id : String
  pub owner_member_id : String
  pub manifest : AgentManifest
  pub online : Bool
  pub updated_at : Time

-- (m AgentManifest) Validate()
unfoldable pub validate_manifest : AgentManifest → Result (Unit {0})
validate_manifest m = do
  fail_if (not (m.schema_version == schema_version)) (plain "unsupported schema_version")
  fail_if (trim_space m.name == "") (plain "agent name is required")
  ok tt

pub data RequestStatus : Type 0 where
  running succeeded failed canceled expired : RequestStatus

pub record Request : Type 0 where
  pub schema_version : ℕ
  pub id : String
  pub project_id : String
  pub requester_id : String
  pub agent_id : String
  pub body : Bytes
  pub body_sha256 : String
  pub created_at : Time

-- BodySHA256
unfoldable pub body_sha256 : Platform → Bytes → String
body_sha256 p body = p.hex (p.sha256 body)

-- (r Request) Validate()
unfoldable pub validate_request : Platform → Request → Result (Unit {0})
unfolding body_sha256 is_zero
validate_request p r = do
  fail_if (not (r.schema_version == schema_version)) (plain "unsupported schema_version")
  fail_if (r.id == "" || r.project_id == "" || r.requester_id == "" || r.agent_id == "")
      (plain "request identity fields are required")
  fail_if (ltb max_request_body_bytes (length r.body)) (plain "request body exceeds 262144 bytes")
  fail_if (not (body_sha256 p r.body == r.body_sha256))
      (plain "body_sha256 does not match request body")
  fail_if (is_zero r.created_at) (plain "created_at is required")
  ok tt

pub record RequestMetadata : Type 0 where
  pub schema_version : ℕ
  pub id : String
  pub project_id : String
  pub requester_id : String
  pub agent_id : String
  pub status : RequestStatus
  pub body_bytes : ℕ
  pub body_sha256 : String
  pub created_at : Time
  pub updated_at : Time

-- (r Request) Metadata(status, at)
unfoldable pub metadata : Request → RequestStatus → Time → RequestMetadata
metadata r status at = record {
  schema_version = 2;
  id = r.id;
  project_id = r.project_id;
  requester_id = r.requester_id;
  agent_id = r.agent_id;
  status = status;
  body_bytes = length r.body;
  body_sha256 = r.body_sha256;
  created_at = r.created_at;
  updated_at = at;
}

pub record Response : Type 0 where
  pub schema_version : ℕ
  pub request_id : String
  pub status : RequestStatus
  pub answer : Bytes

pub record RequestFailure : Type 0 where
  pub schema_version : ℕ
  pub request_id : String
  pub code : String
  pub message : String
  pub retryable : Bool

pub data ProviderMessageType : Type 0 where
  ready request response failure cancel ping pong : ProviderMessageType

pub record ProviderPayload : Type 0 where
  pub schema_version : ℕ
  pub type : ProviderMessageType
  pub agent_id : String
  pub request_id : String
  pub request : Option Request
  pub response : Option Response
  pub failure : Option RequestFailure
