-- ===== src/Lanhost/Server/Invite/Ttl.antt =====
-- The lifetime that `createInvitation` of internal/lanhost/server.go gives an invitation.
use peercontext.Common.{ℕ, zero, suc, ◌+◌, ◌*◌, ◌^◌, ◌≤◌, ◌<◌, ◌≡◌, arith}
use peercontext.Common.Int.{ℤ, pos, negsuc}
use peercontext.Protocol.Time.{Time, second, hour}
use peercontext.Lanhost.Server.Invite.{signed_64, seconds, invite_ttl, add_duration}

-- Whatever lifetime is asked for, an invitation expires at most an hour after it is made.
pub add_duration-invite_ttl :
    (asked : ℤ) (now : Time) → add_duration now (invite_ttl asked) ≤ now + hour
unfolding invite_ttl add_duration seconds signed_64
add_duration-invite_ttl (negsuc n) now = omega arith
add_duration-invite_ttl (pos zero) now = omega arith
add_duration-invite_ttl (pos (suc n)) now = ground arith

-- What was asked for is given, from a second to an hour.
pub invite_ttl-kept : (n : ℕ) → 1 ≤ n → n ≤ 3600 → invite_ttl (pos n) ≡ pos (n * second)
unfolding invite_ttl seconds signed_64
invite_ttl-kept zero low high = absurd (ground arith)
invite_ttl-kept (suc n) low high = ground arith

-- From 2^63 nanoseconds up to below 2^64, the product wraps around to a negative number, which is below an
-- hour: if the clock is past its
-- zero, the invitation has expired before it is made.
pub add_duration-invite_ttl_wraps :
    (n : ℕ) (now : Time)
    → 1 ≤ now
    → 2 ^ 63 ≤ n * second
    → n * second < 2 ^ 64
    → add_duration now (invite_ttl (pos n)) < now
unfolding invite_ttl add_duration seconds signed_64
add_duration-invite_ttl_wraps zero now first low high = absurd (ground arith)
add_duration-invite_ttl_wraps (suc n) now first low high = ground arith
