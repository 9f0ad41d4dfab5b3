-- ===== src/Lanhost/Client/Joining/Admission.antt =====
-- Whom `Join` of internal/lanhost/client.go takes for the host of an invitation, and that the host's
-- check accepts the request that it signs.
use peercontext.Common.{
  ◌≡◌, ◌≢◌, refl, ◌+◌, ◌≤◌, true, false, ◌==◌, Option, some, String, length, arith, nat_eq,
  string_eq, bytes_eq, ==_iff,
}
use peercontext.Common.Text.{Bytes, trim_space}
use peercontext.Errors.{ok}
use peercontext.Protocol.Time.{Time, age_within}
use peercontext.Protocol.Platform.{Platform}
use peercontext.Protocol.Model.{default_signature_max_age}
use peercontext.Protocol.Signing.{SignedMessage, public_key_size}
use peercontext.Protocol.Invitation.{
  Invitation, validate_invitation, verify_join, sign_join, join_signing_bytes,
}
use peercontext.Lanhost.Wire.{JoinResult, RpcResult}
use peercontext.Lanhost.Client.{Answer, Reading}
use peercontext.Lanhost.Client.Replies.{Replies}
use peercontext.Lanhost.Client.Joining.{ClientProfile, join_request}

module _ (p : Platform) where
  -- The host's check of a request to join accepts the one that `Join` signs for a valid invitation
  -- and a member name that is not blank, while the clocks are at most two minutes apart, given that
  -- signatures of the invitation's key verify, that the new public key has 32 bytes and that the
  -- nonce is not empty.
  pub verify_join-join_request :
      (i : Invitation) (member_name : String) (private_key : Bytes) (nonce : String)
      (sent seen valid_at : Time)
      → ((b : Bytes)
          → p.verify (p.public_key i.invite_private_key) b (p.sign i.invite_private_key b) ≡ true)
      → length (p.public_key private_key) ≡ public_key_size
      → validate_invitation i valid_at ≡ ok tt
      → trim_space member_name ≢ ""
      → nonce ≢ ""
      → sent ≤ seen + default_signature_max_age
      → seen ≤ sent + default_signature_max_age
      → verify_join p
          (join_request p i member_name private_key nonce sent)
          (p.public_key i.invite_private_key)
          seen
          default_signature_max_age
        ≡ ok tt
  unfolding join_request sign_join verify_join join_signing_bytes validate_invitation
  verify_join-join_request i member_name private_key nonce sent seen valid_at signs size valid named
        drawn early late =
      let request = join_request p i member_name private_key nonce sent in
      let young = age_within seen sent default_signature_max_age (omega arith) late early in
      let project : (i.project_id == "") ≡ false = ground arith in
      let invite : (i.invite_id == "") ≡ false = ground arith in
      let name : (trim_space member_name == "") ≡ false =
        ground (arith, ==_iff (trim_space member_name) "") in
      let fresh : (nonce == "") ≡ false = ground (arith, ==_iff nonce "") in
      rw (project, invite, name, fresh, size, young, signs (join_signing_bytes p request)) refl

module _ (p : Platform) (reading : Reading) (read_join : Bytes → Option JoinResult) where
  -- The profile is what the host of the invitation answered in one of the answers that were fetched, in
  -- a message that it signed under the invitation's key, in reply to this request to join, and the
  -- Project is the one of the message, with that key.
  pub record IsAdmitted (Fetched : Answer → Type 0) (key : Bytes) (nonce : String)
      (c : ClientProfile) : Type 0 where
    pub answer : Answer
    pub fetched : Fetched answer
    pub message : SignedMessage
    pub result : RpcResult
    pub joined : JoinResult
    pub replies : Replies p reading answer key "/v2/join" nonce message result
    pub same_kind : message.kind ≡ "join.response"
    pub succeeded : result.ok ≡ true
    pub carried : read_join result.body ≡ some joined
    pub project : c.project ≡ joined.project
    pub member : c.member ≡ joined.member
    pub same_project : c.project_id ≡ message.project_id
    pub project_key : c.project.host_public_key ≡ key
    pub saved_key : c.host_public_key ≡ key

  -- A result that `postJoin` returns.
  record IsResult (a : Answer) (key : Bytes) (nonce : String) (joined : JoinResult) : Type 0 where
    message : SignedMessage
    result : RpcResult
    replies : Replies p reading a key "/v2/join" nonce message result
    same_kind : message.kind ≡ "join.response"
    succeeded : result.ok ≡ true
    carried : read_join result.body ≡ some joined
    project : joined.project.id ≡ message.project_id
    project_key : joined.project.host_public_key ≡ key
