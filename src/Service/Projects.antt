-- ===== src/Service/Projects.antt =====
-- `createProject` and `joinProject` of internal/service/daemon.go.
pub mod Quiet
pub mod Rollback
use Prim.Native.String
use peercontext.Common.{
  Bool, true, false, ◌||◌, Option, none, some, List, [], ◌∷◌, String, ◌==◌, string_eq,
  if◌then◌else◌,
}
use peercontext.Common.Text.{Bytes, concat, trim_space}
use peercontext.Errors.{
  GoError, plain, structured_by, errors_is, invitation_expired, Result, ok, err, fail_if,
}
use peercontext.Protocol.Time.{Time}
use peercontext.Protocol.Platform.{Platform}
use peercontext.Protocol.Model.{Project, Member}
use peercontext.Protocol.Invitation.{Invitation, JoinRequest, encode_invitation, decode_invitation}
use peercontext.Lanhost.Wire.{JoinResult, kind_invite_create}
use peercontext.Lanhost.Store.Projects.{delete_project}
use peercontext.Lanhost.Store.Projects
use peercontext.Lanhost.Client.{Surroundings}
use peercontext.Lanhost.Client.Joining.{ClientProfile, Drawn, join_host}
use peercontext.State.Model.{Profile}
use peercontext.State.Profiles.{put_profile, remove_profile}
use peercontext.Service.Control.{
  ProjectCreateInput, ProjectCreateResult, ProjectJoinInput, ProjectJoinResult,
}
use peercontext.Service.Daemon.{
  Act, Call, Setup, pure, lift, on_machine, on_store, or_undo, ignoring, new_client, call, ◌>>=◌,
  ◌>>◌,
}

-- What `createProject` draws and reads: the key pair, the clock, the two identifiers, the direct
-- endpoints, the call for the invitation, and the clock when that is encoded.
pub record Creation : Type 0 where
  pub private_key : Result Bytes
  pub now : Time
  pub project_uuid : String
  pub member_uuid : String
  pub endpoints : List String
  pub invite : Call
  pub encoded_at : Time

abbrev pub new_project_id : Creation → String
new_project_id turn = concat "prj_" turn.project_uuid

abbrev pub new_member_id : Creation → String
new_member_id turn = concat "mem_" turn.member_uuid

module _ (setup : Setup) (turn : Creation) (empty_invitation : Invitation) where
  unfoldable pub new_project : ProjectCreateInput → Bytes → Project
  new_project input key = record {
    schema_version = 2;
    id = new_project_id turn;
    name = input.name;
    host_public_key = setup.platform.public_key key;
    created_at = turn.now;
  }

  unfoldable pub new_owner : ProjectCreateInput → Bytes → Member
  new_owner input key = record {
    schema_version = 2;
    id = new_member_id turn;
    project_id = new_project_id turn;
    name = input.member_name;
    public_key = setup.platform.public_key key;
    owner = true;
    created_at = turn.now;
  }

  unfoldable pub hosted_profile : ProjectCreateInput → Bytes → Profile
  hosted_profile input key = record {
    project_id = new_project_id turn;
    project_name = input.name;
    member_id = new_member_id turn;
    member_name = input.member_name;
    hosted = true;
    host_public_key = setup.platform.public_key key;
    endpoints = turn.endpoints;
    private_key_store = "";
  }

  -- _ = d.store.DeleteProject(…, projectID)
  abbrev pub undo_project : Act (Unit {0})
  undo_project = ignoring (on_store (delete_project (new_project_id turn)))

  -- _ = d.State.RemoveProfile(projectID), and then DeleteProject
  unfoldable pub undo_profile : Act (Unit {0})
  unfolding ◌>>=◌
  undo_profile = do
    ignoring (
        on_machine
          (remove_profile setup.platform setup.state_json setup.manager (new_project_id turn)))
    undo_project

  -- the calls after the Project is in the store
  unfoldable pub finish_project : ProjectCreateInput → Bytes → Act ProjectCreateResult
  finish_project input key = do
    or_undo
        (on_machine (
          put_profile setup.platform setup.state_json setup.manager (hosted_profile input key) key))
        undo_project
    (invitation, client) ←
        or_undo
          (call setup setup.invitation.unmarshal empty_invitation turn.invite kind_invite_create
            (new_client (hosted_profile input key)))
          undo_profile
    encoded ←
        or_undo
          (lift (encode_invitation setup.platform setup.invitation invitation turn.encoded_at))
          undo_profile
    pure (record {
      project = new_project input key;
      member = new_owner input key;
      invitation = encoded;
    })

  -- createProject
  unfoldable pub create_project : ProjectCreateInput → Act ProjectCreateResult
  create_project input = do
    lift (
        fail_if (trim_space input.name == "" || trim_space input.member_name == "")
          (plain "Project name and member name are required"))
    key ← lift turn.private_key
    on_store (Projects.create_project setup.platform (new_project input key) (new_owner input key))
    finish_project input key

-- the error of a text that is no invitation
unfoldable pub invitation_error : GoError → GoError
invitation_error e =
    if errors_is invitation_expired e
    then structured_by "invite_expired" "This invitation has expired." false e
    else structured_by "invalid_invitation" "This invitation is invalid or has been changed." false
        e

unfoldable pub member_profile : ClientProfile → Profile
member_profile r = record {
  project_id = r.project_id;
  project_name = r.project_name;
  member_id = r.member_id;
  member_name = r.member_name;
  hosted = false;
  host_public_key = r.host_public_key;
  endpoints = r.endpoints;
  private_key_store = "";
}

abbrev decoded_or_error : Result Invitation → Result Invitation
decoded_or_error (ok i) = ok i
decoded_or_error (err e) = err (invitation_error e)

module _ (setup : Setup) (drawn : Drawn) (around : Surroundings)
    (read_join : Bytes → Option JoinResult) where
  -- joinProject; the clock is read once more when the request to join is signed
  unfoldable pub join_project : Time → ProjectJoinInput → Act ProjectJoinResult
  unfolding invitation_error
  join_project now input = do
    invitation ←
        lift (
          decoded_or_error (decode_invitation setup.platform setup.invitation input.invitation now))
    (joined, key, request) ←
        lift (
          join_host setup.platform setup.reading read_join around drawn invitation
            input.member_name)
    on_machine
        (put_profile setup.platform setup.state_json setup.manager (member_profile joined) key)
    pure (record { project = joined.project; member = joined.member })
