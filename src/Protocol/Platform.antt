-- ===== src/Protocol/Platform.antt =====
-- What the protocol takes from Go's libraries for cryptography, encodings and the layout of times.
-- They are parameters; a lemma that needs more of them than their types says so in its hypotheses.
use peercontext.Common.{Bool, Option, none, some, String}
use peercontext.Common.Text.{Bytes}
use peercontext.Protocol.Time.{Time, zero_time}

pub record Platform : Type 0 where
  -- crypto/sha256 and crypto/ed25519
  pub sha256 : Bytes → Bytes
  pub sign : Bytes → Bytes → Bytes
  pub verify : Bytes → Bytes → Bytes → Bool
  pub public_key : Bytes → Bytes
  -- encoding/hex, and encoding/base64's RawURLEncoding
  pub hex : Bytes → String
  pub base64 : Bytes → String
  pub base64_decode : String → Option Bytes
  -- what the decoder returns beside an error: the bytes before the fault
  pub base64_prefix : String → Bytes
  -- t.UTC().Format(time.RFC3339Nano), and time.Parse of that layout
  pub format_time : Time → String
  pub parse_time : String → Option Time

-- encoding/json at one type
pub record Codec (A : Type 0) : Type 0 where
  pub marshal : A → Option Bytes
  pub unmarshal : Bytes → Option A

-- value, _ = base64.RawURLEncoding.DecodeString(text)
unfoldable pub decoded : Platform → String → Bytes
decoded p text = elim (p.base64_decode text) [ some b ↦ b | none ↦ p.base64_prefix text ]

-- t, _ = time.Parse(time.RFC3339Nano, text)
unfoldable pub parsed : Platform → String → Time
parsed p text = elim (p.parse_time text) [ some t ↦ t | none ↦ zero_time ]
