-- ===== src/Lanhost/Store/Invitations.antt =====
-- `AddInvitation` and `ConsumeInvitation` of internal/lanhost/store.go.
use peercontext.Common.{
  ℕ, Bool, true, false, not, ◌&&◌, Option, none, some, String, length, find, count, ltb, ◌==◌,
  nat_eq, string_eq, if◌then◌else◌,
}
use peercontext.Common.Text.{Bytes, concat, take_nine}
use peercontext.Errors.{
  GoError, sentinel, invite_invalid, invite_consumed, invite_expired, Result, ok, err, or_error,
  fail_if,
}
use peercontext.Errors
use peercontext.Protocol.Time.{Time}
use peercontext.Protocol.Platform.{Platform}
use peercontext.Protocol.Model.{Project, Member, default_signature_max_age}
use peercontext.Protocol.Signing.{public_key_size}
use peercontext.Protocol.Invitation.{JoinRequest, verify_join}
use peercontext.Lanhost.Sql.{
  query, exec, transaction, pure, lift, insert_row, update_where, ◌>>=◌, ◌>>◌,
}
use peercontext.Lanhost.Store.Tables.{InvitationRow, Tables, StoreM, invitation_at}
use peercontext.Lanhost.Store.Projects.{project, insert_member, member_row}

-- INSERT INTO invitations(…)
unfoldable pub insert_invitation : InvitationRow → Tables → Result (Unit {0} × Tables)
unfolding insert_row
insert_invitation row t =
    Errors.◌>>=◌ (insert_row (invitation_at row.project_id row.id) row t.invitations)
      (λ rows. ok (tt, record t { invitations = rows }))

-- SELECT public_key,expires_at,consumed_at FROM invitations WHERE project_id=? AND id=?
unfoldable pub select_invitation : String → String → Tables → Result InvitationRow
select_invitation project_id id t =
    or_error (find (invitation_at project_id id) t.invitations) (sentinel invite_invalid)

is_none : Option String → Bool
is_none none = true
is_none (some s) = false

-- WHERE project_id=? AND id=? AND consumed_at IS NULL
unfoldable pub open_invitation : String → String → InvitationRow → Bool
unfolding is_none
open_invitation project_id id r = invitation_at project_id id r && is_none r.consumed_at

-- UPDATE invitations SET consumed_at=?, with the number of rows
unfoldable pub mark_consumed : String → String → String → Tables → Result (ℕ × Tables)
unfolding update_where open_invitation
mark_consumed project_id id at t = ok (
  count (open_invitation project_id id) t.invitations,
  record t {
    invitations =
        update_where (open_invitation project_id id) (λ r. record r { consumed_at = some at })
          t.invitations;
  },
)

module _ (p : Platform) where
  -- AddInvitation
  unfoldable pub add_invitation : String → String → Bytes → Time → StoreM (Unit {0})
  unfolding insert_invitation
  add_invitation project_id invitation_id public_key expires_at = exec (
      insert_invitation (record {
        project_id = project_id;
        id = invitation_id;
        public_key = p.base64 public_key;
        expires_at = p.format_time expires_at;
        consumed_at = none;
      }))

  -- memberIDFromPublicKey: the first nine bytes of the digest
  unfoldable pub member_id_from_public_key : Bytes → String
  unfolding take_nine
  member_id_from_public_key key = concat "mem_" (p.base64 (take_nine (p.sha256 key)))

  -- the expiry of a stored invitation: text that is no time counts as expired
  unfoldable pub check_expiry : String → Time → Result (Unit {0})
  check_expiry text now = elim (p.parse_time text) [
    | none ↦ err (sentinel invite_expired)
    | some expires_at ↦ fail_if (not (ltb now expires_at)) (sentinel invite_expired)
  ]

  -- the stored public key of an invitation, of the size of a key
  unfoldable pub invitation_key : String → Result Bytes
  invitation_key text = elim (p.base64_decode text) [
    | none ↦ err (sentinel invite_invalid)
    | some key ↦
        if not (length key == public_key_size) then err (sentinel invite_invalid) else ok key
  ]

  -- the checks between the SELECT and the INSERT
  unfoldable pub check_join : JoinRequest → Time → InvitationRow → Result (Unit {0})
  unfolding check_expiry invitation_key verify_join is_none
  check_join request now row =
      Errors.◌>>◌ (fail_if (not (is_none row.consumed_at)) (sentinel invite_consumed)) (
        Errors.◌>>◌ (check_expiry row.expires_at now) (
          Errors.◌>>=◌ (invitation_key row.public_key) (λ key.
            Errors.◌>>◌ (verify_join p request key now default_signature_max_age) (
              fail_if (not (length request.member_public_key == public_key_size))
                (sentinel invite_invalid)))))

  unfoldable pub joined_member : JoinRequest → Time → Member
  unfolding member_id_from_public_key
  joined_member request now = record {
    schema_version = 2;
    id = member_id_from_public_key request.member_public_key;
    project_id = request.project_id;
    name = request.member_name;
    public_key = request.member_public_key;
    owner = false;
    created_at = now;
  }

  -- the body of the transaction
  unfoldable pub join_rows : JoinRequest → Time → StoreM (Unit {0})
  join_rows request now = do
    row ← query (select_invitation request.project_id request.invite_id)
    lift (check_join request now row)
    exec (insert_member (member_row p (joined_member request now)))
    n ← exec (mark_consumed request.project_id request.invite_id (p.format_time now))
    lift (fail_if (not (n == 1)) (sentinel invite_consumed))

  -- ConsumeInvitation
  unfoldable pub consume_invitation : JoinRequest → Time → StoreM Project
  consume_invitation request now = do
    found ← project p request.project_id
    transaction (join_rows request now)
    pure found
