-- ===== src/Lanhost/Server/Invite.antt =====
-- `createInvitation` of internal/lanhost/server.go.
pub mod Ttl
use peercontext.Common.{
  ℕ, zero, suc, ◌+◌, ◌-◌, ◌*◌, ◌%◌, ◌^◌, ◌≡◌, Bool, false, ◌&&◌, not, ltb, leb, String,
  if◌then◌else◌,
}
use peercontext.Common.Int.{ℤ, pos, negsuc, ltb_ℤ}
use peercontext.Common.Text.{Bytes, concat}
use peercontext.Errors.{GoError, Result, ok, err}
use peercontext.Protocol.Time.{Time, second, hour}
use peercontext.Protocol.Platform.{Platform}
use peercontext.Protocol.Model.{Project, default_invite_ttl}
use peercontext.Protocol.Invitation.{Invitation}
use peercontext.Lanhost.Sql.{◌>>=◌, ◌>>◌, lift, pure}
use peercontext.Lanhost.Store.Tables.{StoreM}
use peercontext.Lanhost.Store.Projects.{project}
use peercontext.Lanhost.Store.Invitations.{add_invitation}
use peercontext.Lanhost.Wire.{InviteCreateInput}
use peercontext.Lanhost.Server.Host.{World}

-- the 64-bit pattern x as a signed number
unfoldable pub signed_64 : ℕ → ℤ
signed_64 x = if ltb x (2 ^ 63) then pos x else negsuc (2 ^ 64 - x - 1)

-- time.Duration(n) * time.Second for n that is not negative, modulo 2^64
unfoldable pub seconds : ℕ → ℤ
unfolding signed_64
seconds n = signed_64 ((n * second) % 2 ^ 64)

-- The choice of the lifetime: what was asked for, if it is positive and at most an hour.
unfoldable pub invite_ttl : ℤ → ℤ
unfolding seconds
invite_ttl (negsuc n) = pos default_invite_ttl
invite_ttl (pos zero) = pos default_invite_ttl
invite_ttl (pos (suc n)) =
    if not (ltb_ℤ (pos hour) (seconds (suc n))) then seconds (suc n) else pos default_invite_ttl

-- t.Add(d)
unfoldable pub add_duration : Time → ℤ → Time
add_duration t (pos d) = t + d
add_duration t (negsuc d) = t - suc d

module _ (p : Platform) (w : World) where
  unfoldable pub make_invitation : Project → InviteCreateInput → Bytes → Invitation
  unfolding invite_ttl add_duration
  make_invitation host input private_key = record {
    schema_version = 2;
    protocol_version = "v2";
    project_id = host.id;
    project_name = host.name;
    endpoints = w.endpoints;
    host_public_key = host.host_public_key;
    invite_id = concat "inv_" w.new_id;
    invite_private_key = private_key;
    expires_at = add_duration w.later (invite_ttl input.ttl_seconds);
  }

  -- createInvitation
  unfoldable pub create_invitation : String → InviteCreateInput → StoreM Invitation
  unfolding make_invitation
  create_invitation project_id input = do
    host ← project p project_id
    private_key ← lift w.new_key
    let invitation = make_invitation host input private_key
    add_invitation p project_id invitation.invite_id (p.public_key private_key)
        invitation.expires_at
    pure invitation
