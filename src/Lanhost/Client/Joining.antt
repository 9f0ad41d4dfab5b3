-- ===== src/Lanhost/Client/Joining.antt =====
-- `Join` and `postJoin` of internal/lanhost/client.go, over the answers of an HTTP client.
pub mod Admission
use Prim.Native.String
use peercontext.Common.{
  ℕ, ◌⊎◌, inl, inr, Bool, not, ◌||◌, Option, none, some, List, [], ◌∷◌, String, length, ◌==◌,
  string_eq, bytes_eq, if◌then◌else◌,
}
use peercontext.Common.Text.{Bytes}
use peercontext.Errors.{GoError, plain, Result, ok, err, ◌>>=◌, ◌>>◌, fail_if, or_error}
use peercontext.Protocol.Time.{Time}
use peercontext.Protocol.Platform.{Platform}
use peercontext.Protocol.Model.{Project, Member, schema_version}
use peercontext.Protocol.Signing.{SignedMessage}
use peercontext.Protocol.Invitation.{Invitation, JoinRequest, sign_join}
use peercontext.Lanhost.Wire.{JoinResult, RpcResult}
use peercontext.Lanhost.Client.{
  Answer, Reading, Surroundings, terminal_endpoint_error, rpc_result_error, forbidden, mismatch,
  prioritize_endpoint, require_direct_lan_endpoint, decode_signed_response, offline, or_canceled,
  rediscovered,
}

-- Profile
pub record ClientProfile : Type 0 where
  pub project_id : String
  pub project_name : String
  pub member_id : String
  pub member_name : String
  pub host_public_key : Bytes
  pub endpoints : List String
  pub project : Project
  pub member : Member

-- the profile that `Join` builds from the host's result
joined_profile : Bytes → List String → JoinResult → ClientProfile
joined_profile host_public_key endpoints result = record {
  project_id = result.project.id;
  project_name = result.project.name;
  member_id = result.member.id;
  member_name = result.member.name;
  host_public_key = host_public_key;
  endpoints = endpoints;
  project = result.project;
  member = result.member;
}

module _ (p : Platform) where
  -- the request that `Join` signs with the key of the invitation
  unfoldable pub join_request : Invitation → String → Bytes → String → Time → JoinRequest
  unfolding sign_join
  join_request invitation member_name private_key nonce now =
      sign_join p
        (record {
          schema_version = schema_version;
          project_id = invitation.project_id;
          invite_id = invitation.invite_id;
          member_name = member_name;
          member_public_key = p.public_key private_key;
          method = "POST";
          path = "/v2/join";
          nonce = nonce;
          timestamp = now;
          signature = [];
        })
        invitation.invite_private_key

-- The key pair, the nonce and the clock that `Join` reads.
pub record Drawn : Type 0 where
  pub private_key : Result Bytes
  pub nonce : Result String
  pub now : Time

-- `read_join` is json.Unmarshal into a JoinResult
module _ (p : Platform) (reading : Reading) (read_join : Bytes → Option JoinResult) where
  -- the checks of `postJoin` on a verified message
  checked : Bytes → SignedMessage × RpcResult → Result JoinResult
  checked host_public_key (message, rpc) =
      if not (message.kind == "join.response") || not rpc.ok
      then err (rpc_result_error rpc)
      else (do
        result ← or_error (read_join rpc.body) (plain "json")
        fail_if
            (not (result.project.id == message.project_id)
              || not (result.project.host_public_key == host_public_key))
            (mismatch "The responding host does not match the invitation.")
        ok result)

  -- what `postJoin` makes of the answer of the HTTP client
  received : Result Answer → Bytes → String → Result JoinResult
  unfolding forbidden decode_signed_response checked
  received (err e) host_public_key nonce = err e
  received (ok a) host_public_key nonce =
      elim (decode_signed_response p reading a.body host_public_key "POST" "/v2/join" nonce a.at) [
        | err e ↦ err (forbidden a.status e)
        | ok m ↦ checked host_public_key m
      ]

  -- postJoin, given what the HTTP client answers
  unfoldable pub post_join : String → Result Answer → Bytes → String → Result JoinResult
  unfolding received require_direct_lan_endpoint
  post_join endpoint fetched host_public_key nonce =
      elim (require_direct_lan_endpoint p reading endpoint) [
        | err e ↦ err e
        | ok _ ↦ received fetched host_public_key nonce
      ]

  -- The rounds over the endpoints of one attempt, of which `all` are the endpoints.
  unfoldable pub join_endpoints :
      (String → ℕ → Result Answer)
      → Bytes
      → String
      → List String
      → List String
      → Option GoError
      → Result ClientProfile ⊎ Option GoError
  unfolding post_join joined_profile prioritize_endpoint terminal_endpoint_error
  join_endpoints fetch key nonce all [] last = inr last
  join_endpoints fetch key nonce all (endpoint ∷ more) last =
      elim (post_join endpoint (fetch endpoint (length more)) key nonce) [
        | ok result ↦ inl (ok (joined_profile key (prioritize_endpoint endpoint all) result))
        | err e ↦
            let rest = join_endpoints fetch key nonce all more (some e) in
            if terminal_endpoint_error e then inl (err e) else rest
      ]

  module _ (around : Surroundings) where
    second_join : Result ClientProfile ⊎ Option GoError → Result ClientProfile
    second_join (inl r) = r
    second_join (inr last) = err (or_canceled around.canceled_second (offline last))

    first_join :
        Bytes → String → List String → Result ClientProfile ⊎ Option GoError → Result ClientProfile
    unfolding join_endpoints second_join
    first_join key nonce endpoints (inl r) = r
    first_join key nonce endpoints (inr last) = elim around.canceled_first [
      | some e ↦ err e
      | none ↦
          let (again, last') = rediscovered around.discovered endpoints last in
          second_join (join_endpoints around.second key nonce again again last')
    ]

    -- the attempts of `Join`
    unfoldable pub join_attempts : Invitation → String → Result ClientProfile
    unfolding join_endpoints first_join
    join_attempts i nonce =
        first_join i.host_public_key nonce i.endpoints
          (join_endpoints around.first i.host_public_key nonce i.endpoints i.endpoints none)

    -- Join: the profile, the new private key and the request that was sent
    unfoldable pub join_host :
        Drawn → Invitation → String → Result (ClientProfile × Bytes × JoinRequest)
    unfolding join_attempts join_request
    join_host drawn invitation member_name = do
      private_key ← drawn.private_key
      nonce ← drawn.nonce
      profile ← join_attempts invitation nonce
      ok (profile, private_key, join_request p invitation member_name private_key nonce drawn.now)
