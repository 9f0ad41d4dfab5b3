-- ===== src/Lanhost/Replay/Memory.antt =====
-- What the nonce memory of internal/lanhost/auth.go remembers, and for how long.
use peercontext.Common.{
  ℕ, ◌+◌, ◌*◌, ◌≤◌, ◌^◌, ◌≡◌, false, Option, some, String, arith, string_eq, ==_iff,
}
use peercontext.Common.Dict.{lookup, delete_if, lookup-insert, lookup-insert_self, lookup-delete_if}
use peercontext.Errors.{ok, err}
use peercontext.Protocol.Time.{Time, sub}
use peercontext.Protocol.Signing.{SignedMessage}
use peercontext.Lanhost.Replay.{ReplayGuard, replay_key, outdated, replayed, accept}

-- The key was accepted at the time `at`, and is still held.
abbrev pub Holds : ReplayGuard → String → Time → Type 0
Holds g key at = lookup key g.seen ≡ some at

-- What was seen at most twice the age ago is not dropped.
recent-not-outdated :
    (age now : ℕ) (key : String) (at : Time)
    → age ≤ 2 ^ 61
    → now ≤ at + age * 2
    → outdated age now key at ≡ false
unfolding outdated sub
recent-not-outdated age now key at small h = ground arith

abbrev swept : ReplayGuard → Time → String → Option Time
swept g now key = lookup key (delete_if (outdated g.max_age now) g.seen)

swept-Holds :
    (g : ReplayGuard) (now : Time) (key : String) (at : Time)
    → g.max_age ≤ 2 ^ 61
    → Holds g key at
    → now ≤ at + g.max_age * 2
    → swept g now key ≡ some at
swept-Holds g now key at small held h =
    lookup-delete_if (outdated g.max_age now) key at g.seen held
      (recent-not-outdated g.max_age now key at small h)

module _ (g : ReplayGuard) (m : SignedMessage) (now : Time) where
  pub accept-max_age : (accept g m now).1.max_age ≡ g.max_age
  unfolding accept
  accept-max_age = ground arith

  -- An accepted message is held from then on.
  pub accept-Holds : (accept g m now).0 ≡ ok tt → Holds (accept g m now).1 (replay_key m) now
  unfolding accept
  accept-Holds h =
      ground
        (arith, lookup-insert_self (replay_key m) now (delete_if (outdated g.max_age now) g.seen))

  -- A held key stays held under another message, as long as it is recent.
  pub Holds-accept :
      (key : String) (at : Time)
      → g.max_age ≤ 2 ^ 61
      → Holds g key at
      → now ≤ at + g.max_age * 2
      → Holds (accept g m now).1 key at
  unfolding accept
  Holds-accept key at small held h =
      let kept : swept g now key ≡ some at = swept-Holds g now key at small held h in
      ground (
        arith,
        kept,
        lookup-insert (replay_key m) key now (delete_if (outdated g.max_age now) g.seen),
        ==_iff (replay_key m) key,
      )

  -- A message whose project, sender and nonce are held since a time is refused up to twice the
  -- maximal age after that time, if that age is at most 2^61 nanoseconds.
  pub accept-replayed :
      (at : Time)
      → g.max_age ≤ 2 ^ 61
      → Holds g (replay_key m) at
      → now ≤ at + g.max_age * 2
      → (accept g m now).0 ≡ err replayed
  unfolding accept
  accept-replayed at small held h =
      let kept : swept g now (replay_key m) ≡ some at =
        swept-Holds g now (replay_key m) at small held h in
      ground (arith, kept)
