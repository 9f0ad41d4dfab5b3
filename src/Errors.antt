-- ===== src/Errors.antt =====
-- Go's errors as values: the sentinel errors of pkg/protocol/v2/errors.go and
-- internal/lanhost/{store,auth,broker}.go, wrapping by `%w`, `errors.Is`, and fallible results.
use peercontext.Common.{
  ◌⊎◌, inl, inr, refl, ◌≡◌, ℕ, Bool, true, false, Option, none, some, String, nat_beq,
}
use peercontext.Common.Text.{concat}

pub data Sentinel : Type 0 where
  not_found invite_invalid invite_consumed invite_expired member_forbidden : Sentinel
  request_replayed : Sentinel
  agent_offline : Sentinel
  invalid_invitation invitation_expired clock_skew signature_invalid : Sentinel
  deadline_exceeded canceled : Sentinel

abbrev number : Sentinel → ℕ
number not_found = 0
number invite_invalid = 1
number invite_consumed = 2
number invite_expired = 3
number member_forbidden = 4
number request_replayed = 5
number agent_offline = 6
number invalid_invitation = 7
number invitation_expired = 8
number clock_skew = 9
number signature_invalid = 10
number deadline_exceeded = 11
number canceled = 12

-- The texts that `errors.New` is given; the last two are of the package `context`.
abbrev pub sentinel_text : Sentinel → String
sentinel_text not_found = "not found"
sentinel_text invite_invalid = "invitation is invalid"
sentinel_text invite_consumed = "invitation has already been used"
sentinel_text invite_expired = "invitation has expired"
sentinel_text member_forbidden = "member is not allowed"
sentinel_text request_replayed = "request replayed"
sentinel_text agent_offline = "agent is offline"
sentinel_text invalid_invitation = "invalid invitation"
sentinel_text invitation_expired = "invitation expired"
sentinel_text clock_skew = "clock skew"
sentinel_text signature_invalid = "signature invalid"
sentinel_text deadline_exceeded = "context deadline exceeded"
sentinel_text canceled = "context canceled"

pub data GoError : Type 0 where
  -- a package variable
  sentinel : Sentinel → GoError
  -- errors.New of a text that nothing compares with, or an error of a library
  plain : String → GoError
  -- fmt.Errorf("%w: text", e)
  wrap : GoError → String → GoError
  -- fmt.Errorf("text: %w", e)
  wrap_as : String → GoError → GoError
  -- a *failure.Error without and with a cause: its code, message and retryable flag
  structured : String → String → Bool → GoError
  structured_by : String → String → Bool → GoError → GoError

-- errors.Is(e, s)
unfoldable pub errors_is : Sentinel → GoError → Bool
errors_is s (sentinel t) = nat_beq (number s) (number t)
errors_is s (plain t) = false
errors_is s (wrap e t) = errors_is s e
errors_is s (wrap_as t e) = errors_is s e
errors_is s (structured c m r) = false
errors_is s (structured_by c m r e) = errors_is s e

-- err.Error()
unfoldable pub message : GoError → String
message (sentinel s) = sentinel_text s
message (plain t) = t
message (wrap e t) = concat (message e) (concat ": " t)
message (wrap_as t e) = concat t (concat ": " (message e))
message (structured c m r) = m
message (structured_by c m r e) = m

pub data Result {ℓ} (A : Type ℓ) : Type ℓ where
  ok : A → Result A
  err : GoError → Result A

infixl 5 ◌>>=◌ ◌>>◌
abbrev pub ◌>>=◌ {ℓ κ} : {A : Type ℓ} {B : Type κ} → Result A → (A → Result B) → Result B
err e >>= next = err e
ok a >>= next = next a

abbrev pub ◌>>◌ {ℓ} : {B : Type ℓ} → Result (Unit {0}) → Result B → Result B
m >> k = m >>= λ _. k

-- if test { return e }
abbrev pub fail_if : Bool → GoError → Result (Unit {0})
fail_if true e = err e
fail_if false e = ok tt

abbrev pub or_error {ℓ} : {A : Type ℓ} → Option A → GoError → Result A
or_error none e = err e
or_error (some a) e = ok a

pub Result-cases {ℓ} :
    {A : Type ℓ} (r : Result A) → ((a : A) × (r ≡ ok a)) ⊎ ((e : GoError) × (r ≡ err e))
Result-cases (ok a) = inl (a, refl)
Result-cases (err e) = inr (e, refl)
