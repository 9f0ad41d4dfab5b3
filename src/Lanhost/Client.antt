-- ===== src/Lanhost/Client.antt =====
-- The checks and the retries of `RPC` in internal/lanhost/client.go, over a network that answers.
pub mod Replies
pub mod Calls
pub mod Joining
pub mod Providing
pub mod Requests
use Prim.Native.String
use peercontext.Common.{
  ℕ, ◌≡◌, ◌⊎◌, inl, inr, Bool, true, false, not, ◌&&◌, ◌||◌, Option, none, some, List, [], ◌∷◌,
  String, length, select, ◌==◌, nat_eq, string_eq, if◌then◌else◌,
}
use peercontext.Common.Text.{Bytes, concat}
use peercontext.Errors.{
  GoError, plain, structured, structured_by, errors_is, clock_skew, request_replayed, Result, ok,
  err, fail_if, or_error,
}
use peercontext.Errors
use peercontext.Failure.{Failure, as_structured}
use peercontext.Protocol.Time.{Time}
use peercontext.Protocol.Platform.{Platform}
use peercontext.Protocol.Model.{default_signature_max_age}
use peercontext.Protocol.Signing.{SignedMessage, verify_message}
use peercontext.Lanhost.Replay.{ReplayGuard, accept}
use peercontext.Lanhost.Wire.{RpcResult}
use peercontext.Lanhost.Remote.{Network, is_direct_lan_remote}
use peercontext.Lanhost.Server.Rpc.{decode_json, max_wire_message_bytes}

-- What the host's answer is: the status, the body, and the clock when it is verified and accepted.
pub record Answer : Type 0 where
  pub status : ℕ
  pub body : Bytes
  pub at : Time
  pub later : Time

-- The fields of the profile that a call reads, the nonces, the endpoint that answered last, and the
-- calls of OnEndpoint.
pub record Client : Type 0 where
  pub project_id : String
  pub host_public_key : Bytes
  pub endpoints : List String
  pub replays : ReplayGuard
  pub endpoint : String
  pub told : List String

-- JSON of messages and results, and net/url with JoinHostPort
pub record Reading : Type 1 where
  pub signed_message : Bytes → Option SignedMessage
  pub rpc_result : Bytes → Option RpcResult
  pub network : Network
  pub scheme : String → Option String
  pub hostname : String → String
  pub port : String → String
  pub join_host_port : String → String → String

-- a structured error that need not be tried again
unfoldable pub terminal : Option Failure → Bool
terminal none = false
terminal (some f) =
    not (f.code == "project_host_offline") && not (f.code == "lan_discovery_unavailable")

-- terminalEndpointError
unfoldable pub terminal_endpoint_error : GoError → Bool
unfolding terminal as_structured
terminal_endpoint_error e = terminal (as_structured e)

-- prioritizeEndpoint
unfoldable pub prioritize_endpoint : String → List String → List String
unfolding select
prioritize_endpoint first endpoints = first ∷ select (λ e. not (e == first)) endpoints

-- (c *Client) endpoints()
unfoldable pub client_endpoints : Client → List String
unfolding prioritize_endpoint
client_endpoints c =
    if c.endpoint == "" then c.endpoints else prioritize_endpoint c.endpoint c.endpoints

abbrev is_first : String → List String → Bool
is_first endpoint [] = false
is_first endpoint (e ∷ es) = e == endpoint

-- rememberEndpoint; OnEndpoint is called where the endpoint changed
unfoldable pub remember_endpoint : String → Client → Client
remember_endpoint endpoint c =
    let changed = not (c.endpoint == endpoint) && not (is_first endpoint c.endpoints) in
    record c { endpoint = endpoint; told = if changed then endpoint ∷ c.told else c.told }

-- rpcResultError
unfoldable pub rpc_result_error : RpcResult → GoError
rpc_result_error result = elim result.error [
  | none ↦ plain "PeerContext host rejected the request"
  | some e ↦ structured e.code e.message e.retryable
]

abbrev pub mismatch : String → GoError
mismatch text = structured "host_identity_mismatch" text false

unverified : GoError → GoError
unverified e =
    if errors_is clock_skew e
    then structured_by "clock_skew" "The Project host clock differs too much from this Mac." false e
    else structured_by "host_identity_mismatch"
        "The Project host response could not be verified with the saved host key." false e

wrapped : (GoError → GoError) → Result (Unit {0}) → Result (Unit {0})
wrapped f (ok _) = ok tt
wrapped f (err e) = err (f e)

abbrev peer_required : GoError
peer_required =
    structured "lan_peer_required" "The Project host only accepts directly connected LAN peers."
      false

-- the error of an answer with the status 403 that is not a terminal one
unfoldable pub forbidden : ℕ → GoError → GoError
unfolding terminal_endpoint_error
forbidden status e = if status == 403 && not (terminal_endpoint_error e) then peer_required else e

-- What one round of the loop over the endpoints comes to.
pub data Verdict : Type 0 where
  retry : GoError → Verdict
  refused : GoError → Verdict
  accepted : RpcResult → Verdict

unfoldable pub judge : String → String → Result (SignedMessage × RpcResult) → Verdict
unfolding terminal_endpoint_error rpc_result_error
judge project_id kind (err e) = if terminal_endpoint_error e then refused e else retry e
judge project_id kind (ok (m, rpc)) =
    if not (m.project_id == project_id) || not (m.kind == concat kind ".response")
    then refused (mismatch "The Project host response does not match the request.")
    else if not rpc.ok
    then refused (rpc_result_error rpc)
    else accepted rpc

replay_error : GoError → GoError
replay_error e =
    if errors_is request_replayed e
    then structured_by "request_replayed" "The Project host response nonce was already used." false
        e
    else e

module _ (p : Platform) (reading : Reading) where
  -- decodeSignedResponse
  unfoldable pub decode_signed_response :
      Bytes → Bytes → String → String → String → Time → Result (SignedMessage × RpcResult)
  unfolding wrapped unverified decode_json
  decode_signed_response body host_public_key method path reply_to at =
      Errors.◌>>=◌
        (or_error (decode_json reading.signed_message max_wire_message_bytes body) (plain "json"))
        (λ m.
          Errors.◌>>◌
            (wrapped unverified (verify_message p m host_public_key at default_signature_max_age))
            (Errors.◌>>◌
              (fail_if (not (m.method == method) || not (m.path == path))
                (mismatch "The Project host response does not match the request route."))
              (Errors.◌>>◌
                (fail_if (not (m.reply_to == reply_to))
                  (mismatch "The Project host response does not match the current request."))
                (Errors.◌>>=◌ (or_error (reading.rpc_result m.payload) (plain "json"))
                  (λ rpc. ok (m, rpc))))))

  -- requireDirectLANEndpoint
  unfoldable pub require_direct_lan_endpoint : String → Result (Unit {0})
  require_direct_lan_endpoint endpoint = elim (reading.scheme endpoint) [
    | none ↦
        err (
          structured "invalid_invitation" "The Project endpoint in the invitation is invalid."
            false)
    | some scheme ↦
        if not (scheme == "http")
        then err (
            structured "invalid_invitation" "The Project endpoint in the invitation is invalid."
              false)
        else let host = reading.hostname endpoint in
          let port = if reading.port endpoint == "" then "80" else reading.port endpoint in
          let remote = is_direct_lan_remote reading.network (reading.join_host_port host port) in
          elim (reading.network.parse_ip host) [
            | none ↦ err (
                structured "lan_peer_required"
                  "The Project endpoint is not on a directly connected LAN." false)
            | some _ ↦ fail_if (not remote) (
                structured "lan_peer_required"
                  "The Project endpoint is not on a directly connected LAN." false)
          ]
  ]

  -- the nonce of a verified answer
  noted :
      Time
      → Client
      → Result (SignedMessage × RpcResult)
      → Result (SignedMessage × RpcResult) × Client
  unfolding wrapped replay_error
  noted later c (err e) = (err e, c)
  noted later c (ok (m, rpc)) =
      let (r, replays) = accept c.replays m later in
      (Errors.◌>>◌ (wrapped replay_error r) (ok (m, rpc)), record c { replays = replays })

  -- what postRPC makes of the answer of the HTTP client
  answered : Result Answer → String → Client → Result (SignedMessage × RpcResult) × Client
  unfolding noted forbidden decode_signed_response
  answered (err e) reply_to c = (err e, c)
  answered (ok a) reply_to c =
      elim (decode_signed_response a.body c.host_public_key "POST" "/v2/rpc" reply_to a.at) [
        | err e ↦ (err (forbidden a.status e), c)
        | ok (m, rpc) ↦ noted a.later c (ok (m, rpc))
      ]

  -- postRPC, given what the HTTP client answers
  unfoldable pub post_rpc :
      String → Result Answer → String → Client → Result (SignedMessage × RpcResult) × Client
  unfolding answered require_direct_lan_endpoint
  post_rpc endpoint fetched reply_to c = elim (require_direct_lan_endpoint endpoint) [
    | err e ↦ (err e, c)
    | ok _ ↦ answered fetched reply_to c
  ]

  -- The rounds over the endpoints of one attempt: the result of the call, or the last error.
  unfoldable pub try_endpoints :
      (String → ℕ → Result Answer)
      → String
      → String
      → List String
      → Option GoError
      → Client
      → (Result RpcResult ⊎ Option GoError) × Client
  unfolding post_rpc judge remember_endpoint
  try_endpoints fetch kind reply_to [] last c = (inr last, c)
  try_endpoints fetch kind reply_to (endpoint ∷ more) last c =
      let (r, c') = post_rpc endpoint (fetch endpoint (length more)) reply_to c in
      elim (judge c.project_id kind r) [
        | retry e ↦ try_endpoints fetch kind reply_to more (some e) c'
        | refused e ↦ (inl (err e), c')
        | accepted rpc ↦ (inl (ok rpc), remember_endpoint endpoint c')
      ]

-- What a call of `RPC` meets: the answers of each attempt, the context's error after each, and what
-- the Discover function returns, if there is one.
pub record Surroundings : Type 0 where
  pub first : String → ℕ → Result Answer
  pub second : String → ℕ → Result Answer
  pub canceled_first : Option GoError
  pub canceled_second : Option GoError
  pub discovered : Option (List String × Option GoError)

abbrev pub offline : Option GoError → GoError
offline (some e) = e
offline none =
    structured "project_host_offline" "The Project host is offline or unreachable on this LAN." true

abbrev pub or_canceled : Option GoError → GoError → GoError
or_canceled none e = e
or_canceled (some canceled) e = canceled

-- the endpoints and the last error of the second attempt
abbrev rediscovered :
    Option (List String × Option GoError)
    → List String
    → Option GoError
    → List String × Option GoError
rediscovered none endpoints last = (endpoints, last)
rediscovered (some found) endpoints last = found

module _ (p : Platform) (reading : Reading) (around : Surroundings) (kind reply_to : String) where
  last_attempt : (Result RpcResult ⊎ Option GoError) × Client → Result RpcResult × Client
  last_attempt (inl r, c) = (r, c)
  last_attempt (inr last, c) = (err (or_canceled around.canceled_second (offline last)), c)

  first_attempt :
      List String → (Result RpcResult ⊎ Option GoError) × Client → Result RpcResult × Client
  unfolding try_endpoints last_attempt
  first_attempt endpoints (inl r, c) = (r, c)
  first_attempt endpoints (inr last, c) = elim around.canceled_first [
    | some e ↦ (err e, c)
    | none ↦
        let (again, last') = rediscovered around.discovered endpoints last in
        last_attempt (try_endpoints p reading around.second kind reply_to again last' c)
  ]

  -- RPC, after its message is signed, up to the decoding of the result's data
  unfoldable pub rpc : Client → Result RpcResult × Client
  unfolding try_endpoints first_attempt client_endpoints
  rpc c =
      first_attempt (client_endpoints c)
        (try_endpoints p reading around.first kind reply_to (client_endpoints c) none c)
