-- ===== src/Examples/HostRuns.antt =====
-- The theorems on the host, at the household.
use peercontext.Common.{
  ℕ, ◌+◌, ◌*◌, ◌^◌, ◌≤◌, ◌≡◌, ◌≢◌, refl, Bool, true, false, Option, none, some, List, [], ◌∷◌,
  String, arith, find, select, any, count, bytes_beq, ◌==◌, nat_eq, string_eq, bytes_eq,
}
use peercontext.Common.Dict.{lookup, insert, delete_if}
use peercontext.Common.Text.{codes}
use peercontext.Errors.{ok, err}
use peercontext.Protocol.Time.{exceeds, sub}
use peercontext.Protocol.Platform.{decoded, parsed}
use peercontext.Protocol.Model.{Project, Member, body_sha256, default_signature_max_age}
use peercontext.Protocol.Signing.{new_signed_reply, signing_bytes, verify_message}
use peercontext.Protocol.Signing.Lines.{lines}
use peercontext.Protocol.Invitation.{sign_join, join_signing_bytes, verify_join}
use peercontext.Lanhost.Sql
use peercontext.Lanhost.Sql.{query, exec, transaction, driver_error, update_where, insert_row}
use peercontext.Lanhost.Remote.{checked_public_key}
use peercontext.Lanhost.Replay.{accept, outdated, new_replay_guard, replay_key, replayed}
use peercontext.Lanhost.Replay.Memory.{Holds, accept-Holds, accept-max_age, accept-replayed}
use peercontext.Lanhost.Server.Auth.{authenticate}
use peercontext.Lanhost.Server.Auth.Once.{Call, answer, after_calls, authenticate_once}
use peercontext.Lanhost.Store.Tables.{HostDb}
use peercontext.Lanhost.Store.Projects.{project, delete_project}
use peercontext.Lanhost.Store.Projects.Deletion.{IsDeleted, delete_project-IsDeleted}
use peercontext.Lanhost.Store.Members.{
  member, select_member, with_owner, remove_member, remove_rows, or_forbidden,
}
use peercontext.Lanhost.Store.Members.Removal.{IsOwner, IsGone, remove_member_ok}
use peercontext.Lanhost.Store.Invitations.{
  consume_invitation, join_rows, check_join, mark_consumed, select_invitation,
}
use peercontext.Lanhost.Operations.{removing, deleting, perform, perform_all}
use peercontext.Lanhost.Operations.Atomic.{perform-Atomic}
use peercontext.Lanhost.Operations.Invited.Once.{consume_once}
use peercontext.Lanhost.Operations.Keys.{HasKeys}
use peercontext.Lanhost.Operations.Keys.Kept.{perform_all-HasKeys}
use peercontext.Examples.Toy.{toy, tallies, tally, zeros, read_tallies, count_marks, first_32}
use peercontext.Examples.Household.{
  host, greeting, nonces, household, database, join, manifests, owner_key,
}

abbrev guest : Member
guest = record {
  schema_version = 2;
  id = "guest";
  project_id = "p";
  name = "Bo";
  public_key = toy.public_key (1 ∷ zeros 63);
  owner = false;
  created_at = 2;
}

abbrev garden : Project
garden = record {
  schema_version = 2;
  id = "p";
  name = "Garden";
  host_public_key = toy.public_key owner_key;
  created_at = 1;
}

abbrev call : ℕ → Call
call now = record { message = greeting; method = "POST"; path = "/v2/rpc"; now = now; rest = host }

greeted : (answer toy (call 6) nonces).0 ≡ ok guest
unfolding authenticate member Sql.◌>>=◌ query select_member find new_signed_reply with_owner project
    read_tallies tallies first_32 zeros verify_message exceeds sub bytes_beq delete_if insert lookup
    codes tally checked_public_key accept outdated parsed lines signing_bytes new_replay_guard
    count_marks body_sha256
greeted = refl

new_age : nonces.max_age ≡ default_signature_max_age
unfolding new_replay_guard
new_age = refl

authenticate_once_example :
    (answer toy (call 8) (after_calls toy (call 7 ∷ []) (answer toy (call 6) nonces).1.replays)).0
    ≢ ok guest
authenticate_once_example =
    authenticate_once toy nonces (call 6) (call 7 ∷ []) (call 8) guest guest new_age greeted refl
      (omega arith, omega arith)

joined : (consume_invitation toy join 7 database).0 ≡ ok garden
unfolding consume_invitation join_rows Sql.◌>>=◌ project query find sign_join transaction
    select_invitation check_join count_marks tally read_tallies tallies first_32 zeros
    peercontext.Common.Text.trim_space exceeds sub any count codes peercontext.Common.Text.is_space
    peercontext.Common.Text.take_nine peercontext.Common.Text.trim_left
    peercontext.Common.Text.trim_right peercontext.Examples.Toy.marks exec insert_row Sql.lift
    Sql.pure update_where peercontext.Lanhost.Store.Invitations.check_expiry
    peercontext.Lanhost.Store.Invitations.invitation_key
    peercontext.Lanhost.Store.Invitations.joined_member
    peercontext.Lanhost.Store.Invitations.member_id_from_public_key mark_consumed
    peercontext.Lanhost.Store.Invitations.open_invitation verify_join join_signing_bytes lines
    bytes_beq peercontext.Lanhost.Store.Projects.insert_member
    peercontext.Lanhost.Store.Projects.member_row peercontext.Lanhost.Store.Projects.project_of_row
    peercontext.Lanhost.Store.Projects.select_project decoded parsed
joined = refl

consume_once_example :
    (consume_invitation toy join 8 (
      perform_all toy manifests
        (removing "p" "owner" "guest" ∷ [])
        (consume_invitation toy join 7 database).1)).0
    ≢ ok garden
consume_once_example =
    consume_once toy manifests join join 7 8 database garden garden
      (removing "p" "owner" "guest" ∷ []) joined refl refl (tt, tt)

removed : (remove_member toy "p" "owner" "guest" database).0 ≡ ok tt
unfolding remove_member Sql.◌>>=◌ project query find or_forbidden member select_member with_owner
    bytes_beq read_tallies tallies first_32 zeros remove_rows transaction exec
    peercontext.Lanhost.Store.Members.delete_agents_of count select peercontext.Examples.Toy.marks
    Sql.attempt Sql.lift Sql.pure peercontext.Lanhost.Store.Members.delete_member
    peercontext.Lanhost.Store.Members.member_of_row peercontext.Lanhost.Store.Members.owned_by
    peercontext.Lanhost.Store.Projects.project_of_row
    peercontext.Lanhost.Store.Projects.select_project decoded parsed count_marks
removed = refl

remove_member_ok_example :
    IsOwner toy "p" "owner" household
    × IsGone "p" "guest" household (remove_member toy "p" "owner" "guest" database).1.tables
remove_member_ok_example = remove_member_ok toy "p" "owner" "guest" database removed

deleted : (delete_project "p" database).0 ≡ ok tt
unfolding delete_project transaction Sql.◌>>=◌ exec
    peercontext.Lanhost.Store.Projects.delete_requests
    peercontext.Lanhost.Store.Projects.delete_agents
    peercontext.Lanhost.Store.Projects.delete_invitations
    peercontext.Lanhost.Store.Projects.delete_members
    peercontext.Lanhost.Store.Projects.delete_project_row
deleted = refl

delete_project-IsDeleted_example : IsDeleted "p" household (delete_project "p" database).1.tables
delete_project-IsDeleted_example = delete_project-IsDeleted "p" database deleted

-- the second deletion of the transaction fails
abbrev faulty : HostDb
faulty = record database {
  faults = false ∷ false ∷ false ∷ false ∷ false ∷ false ∷ false ∷ true ∷ [];
}

failed_removal : (perform toy manifests (removing "p" "owner" "guest") faulty).0 ≡ err driver_error
unfolding perform remove_member Sql.◌>>=◌ project query find or_forbidden member select_member
    with_owner bytes_beq read_tallies tallies first_32 zeros remove_rows transaction exec
    peercontext.Lanhost.Store.Members.delete_agents_of count select peercontext.Examples.Toy.marks
    Sql.attempt Sql.lift Sql.pure peercontext.Lanhost.Store.Members.delete_member
    peercontext.Lanhost.Store.Members.member_of_row peercontext.Lanhost.Store.Members.owned_by
    peercontext.Lanhost.Store.Projects.project_of_row
    peercontext.Lanhost.Store.Projects.select_project decoded parsed count_marks
failed_removal = refl

perform-Atomic_example :
    (perform toy manifests (removing "p" "owner" "guest") faulty).1.tables ≡ household
perform-Atomic_example =
    perform-Atomic toy manifests (removing "p" "owner" "guest") faulty driver_error failed_removal

pub household-HasKeys : HasKeys household
unfolding any tallies first_32 zeros peercontext.Examples.Toy.marks
household-HasKeys = record {
  projects = (refl, tt);
  members = (refl, (refl, tt));
  member_keys = (refl, (refl, tt));
  invitations = (refl, tt);
  agents = (refl, tt);
  agent_names = (refl, tt);
  requests = tt;
}

perform_all-HasKeys_example :
    HasKeys
      (perform_all toy manifests (removing "p" "owner" "guest" ∷ deleting "p" ∷ []) database).tables
perform_all-HasKeys_example =
    perform_all-HasKeys toy manifests (removing "p" "owner" "guest" ∷ deleting "p" ∷ []) database
      household-HasKeys

heard : (accept nonces greeting 6).0 ≡ ok tt
unfolding accept new_replay_guard replay_key delete_if lookup insert
heard = refl

held : Holds (accept nonces greeting 6).1 (replay_key greeting) 6
held = accept-Holds nonces greeting 6 heard

aged : (accept nonces greeting 6).1.max_age ≤ 2 ^ 61
aged = rw (accept-max_age nonces greeting 6, new_age) (omega arith)

in_time : 7 ≤ 6 + (accept nonces greeting 6).1.max_age * 2
in_time = rw (accept-max_age nonces greeting 6, new_age) (omega arith)

accept-replayed_example : (accept (accept nonces greeting 6).1 greeting 7).0 ≡ err replayed
accept-replayed_example =
    accept-replayed (accept nonces greeting 6).1 greeting 7 6 aged held in_time
