-- ===== src/Protocol/Time.antt =====
-- Go's `time`, as far as the program uses it. A time counts nanoseconds from two days before the
-- year 0000, which is earlier than any time that RFC 3339 writes; a duration is a signed number.
use peercontext.Common.{
  ℕ, zero, suc, ◌+◌, ◌-◌, ◌*◌, ◌≤◌, ◌^◌, ◌≡◌, Bool, false, ◌||◌, ltb, arith, ◌==◌, nat_eq,
  if◌then◌else◌,
}
use peercontext.Common.Int.{ℤ, pos, negsuc, sub_ℕ, ltb_ℤ}

abbrev pub Time : Type 0
Time = ℕ

abbrev pub second : ℕ
second = 1_000_000_000

abbrev pub minute : ℕ
minute = 60 * second

abbrev pub hour : ℕ
hour = 60 * minute

-- 0001-01-01: the year 0000 has 366 days
abbrev pub zero_time : Time
zero_time = 368 * 24 * hour

-- t.IsZero()
unfoldable pub is_zero : Time → Bool
is_zero t = t == zero_time

-- math.MaxInt64
abbrev pub max_duration : ℕ
max_duration = 2 ^ 63 - 1

-- t.Sub(u): the difference, held at the largest and the smallest duration
unfoldable pub sub : Time → Time → ℤ
sub t u =
    if ltb max_duration (t - u)
    then pos max_duration
    else if ltb max_duration (u - t)
    then negsuc max_duration
    else sub_ℕ t u

-- -d
abbrev negated : ℕ → ℤ
negated zero = pos 0
negated (suc d) = negsuc d

-- delta > maxAge || delta < -maxAge
unfoldable pub exceeds : ℤ → ℕ → Bool
exceeds delta max_age = ltb_ℤ (pos max_age) delta || ltb_ℤ delta (negated max_age)

-- A difference that does not exceed the age bounds each time by the other.
pub within_age :
    (now t age : ℕ)
    → age ≤ 2 ^ 62
    → exceeds (sub now t) age ≡ false
    → (now ≤ t + age) × (t ≤ now + age)
unfolding exceeds sub
within_age now t zero small h = ground arith
within_age now t (suc age) small h = ground arith

pub age_within :
    (now t age : ℕ) → age ≤ 2 ^ 62 → now ≤ t + age → t ≤ now + age → exceeds (sub now t) age ≡ false
unfolding exceeds sub
age_within now t zero small h k = ground arith
age_within now t (suc age) small h k = ground arith
