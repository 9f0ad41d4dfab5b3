-- ===== src/Lanhost/Replay.antt =====
-- `replayGuard` of internal/lanhost/auth.go, the memory of nonces.
pub mod Memory
use Prim.Native.Char.{nul}
use Prim.Native.String
use peercontext.Common.{
  ℕ, ◌*◌, ◌≡◌, Bool, Option, none, some, [], ◌∷◌, String, ◌==◌, string_eq, if◌then◌else◌,
}
use peercontext.Common.Int.{ℤ, pos, ltb_ℤ}
use peercontext.Common.Dict.{Dict, lookup, insert, delete_if}
use peercontext.Common.Text.{concat}
use peercontext.Errors.{GoError, sentinel, wrap, request_replayed, Result, ok, err}
use peercontext.Protocol.Time.{Time, sub}
use peercontext.Protocol.Signing.{SignedMessage}

pub record ReplayGuard : Type 0 where
  pub seen : Dict String Time
  pub max_age : ℕ

-- newReplayGuard
unfoldable pub new_replay_guard : ℕ → ReplayGuard
new_replay_guard max_age = record { seen = []; max_age = max_age }

-- the text "\x00"
abbrev pub zero_byte : String
zero_byte = String.◌∷◌ nul ""

-- message.ProjectID + "\x00" + message.SenderID + "\x00" + message.Nonce
unfoldable pub replay_key : SignedMessage → String
replay_key m =
    concat m.project_id (concat zero_byte (concat m.sender_id (concat zero_byte m.nonce)))

-- now.Sub(seenAt) > g.maxAge*2
unfoldable pub outdated : ℕ → Time → String → Time → Bool
outdated max_age now key seen_at = ltb_ℤ (pos (max_age * 2)) (sub now seen_at)

abbrev pub replayed : GoError
replayed = wrap (sentinel request_replayed) "signed message nonce was already used"

-- Accept
unfoldable pub accept : ReplayGuard → SignedMessage → Time → Result (Unit {0}) × ReplayGuard
accept g m now =
    let key = replay_key m in
    let seen = delete_if (outdated g.max_age now) g.seen in
    elim (lookup key seen) [
      | some _ ↦ (err replayed, record g { seen = seen })
      | none ↦ (ok tt, record g { seen = insert key now seen })
    ]
