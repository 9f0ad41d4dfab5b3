-- ===== src/Cli/Asking.antt =====
-- When `runAsk` of internal/cli/v2_commands.go ends well, and the timeout that it asks for.
use peercontext.Common.{
  ℕ, zero, suc, ◌+◌, ◌*◌, ◌/◌, ◌%◌, ◌^◌, ◌≤◌, ◌<◌, ◌≡◌, ◌≢◌, refl, ap, sym, subst, ◌∙◌, Option,
  none, some, List, [], ◌∷◌, String, length, ltb, arith, Bool-cases, Option-cases, inl, inr, ◌==◌,
  nat_eq,
}
use peercontext.Common.Int.{ℤ, pos, negsuc}
use peercontext.Common.Text.{Bytes}
use peercontext.Errors.{GoError, ok, Result-cases}
use peercontext.Protocol.Model.{Response, max_request_body_bytes}
use peercontext.Lanhost.Server.Invite.{signed_64}
use peercontext.Service.Control.{AskInput}
use peercontext.Service.Asking.{request_timeout}
use peercontext.Cli.{
  ExitCode, exit_ok, ApiError, exit_code_of, Written, answer, write_error, write_success, AskFlags,
  AskRun, milliseconds, usage, ask_usage, ask_service, ask_with, run_ask,
}

exit_code_of-failed : (e : ApiError) → exit_code_of e ≢ exit_ok
unfolding exit_code_of
exit_code_of-failed e h = ground arith

write_error-failed : (w : Option GoError) (e : ApiError) → (write_error w e).1 ≢ exit_ok
unfolding write_error
write_error-failed none e h = exit_code_of-failed e h
write_error-failed (some x) e h = ground arith

write_success-ok :
    (w : Option GoError) (r : Response)
    → (write_success w r).1 ≡ exit_ok
    → (w ≡ none) × (write_success w r ≡ (answer r, exit_ok))
unfolding write_success
write_success-ok none r h = (refl, refl)
write_success-ok (some x) r h = absurd (ground arith)

module _ (r : AskRun) where
  -- A command line with an Agent and no more than its flags, a timeout that is positive, a body within
  -- the limit, and an answer of the service to them, which is written.
  pub record IsAnswered (args : List String) (out : Written) : Type 0 where
    pub agent : String
    pub more : List String
    pub command : args ≡ agent ∷ more
    pub flags : AskFlags
    pub parsed : r.parse more ≡ some flags
    pub none_left : flags.left_over ≡ 0
    pub timeout : ℕ
    pub positive : flags.timeout ≡ pos (suc timeout)
    pub body : Bytes
    pub read : r.stdin ≡ ok body
    pub within : length body ≤ max_request_body_bytes
    pub response : Response
    pub asked :
        r.control (record {
          agent = agent;
          request_id = flags.request_id;
          body = body;
          timeout_ms = pos (milliseconds (suc timeout));
        })
        ≡ ok response
    pub shown : out ≡ answer response

  -- what comes after the flags
  with_timeout : String → AskFlags → ℤ → Written × ExitCode
  with_timeout agent flags (negsuc n) = write_error r.written (usage ask_usage)
  with_timeout agent flags (pos zero) = write_error r.written (usage ask_usage)
  with_timeout agent flags (pos (suc n)) = ask_with r agent flags (suc n)

  service-IsAnswered :
      (agent : String) (more : List String) (flags : AskFlags) (n : ℕ) (body : Bytes)
      → r.parse more ≡ some flags
      → flags.left_over ≡ 0
      → flags.timeout ≡ pos (suc n)
      → r.stdin ≡ ok body
      → length body ≤ max_request_body_bytes
      → (ask_service r agent flags (suc n) body).1 ≡ exit_ok
      → IsAnswered (agent ∷ more) (ask_service r agent flags (suc n) body).0
  unfolding ask_service
  service-IsAnswered agent more flags n body parsed left positive read within h =
      let input : AskInput = record {
        agent = agent;
        request_id = flags.request_id;
        body = body;
        timeout_ms = pos (milliseconds (suc n));
      } in
      elim (Result-cases (r.control input)) [
        | inr (x, e) ↦ absurd (write_error-failed r.written _ (rw (e, ask_service) at h))
        | inl (response, e) ↦ record {
          agent = agent;
          more = more;
          command = refl;
          flags = flags;
          parsed = parsed;
          none_left = left;
          timeout = n;
          positive = positive;
          body = body;
          read = read;
          within = within;
          response = response;
          asked = e;
          shown =
              rw (e, ask_service)
                (ap (λ (w : Written × ExitCode). w.0)
                  (write_success-ok r.written response (rw (e, ask_service) at h)).1);
        }
      ]

  with-IsAnswered :
      (agent : String) (more : List String) (flags : AskFlags) (n : ℕ)
      → r.parse more ≡ some flags
      → flags.left_over ≡ 0
      → flags.timeout ≡ pos (suc n)
      → (ask_with r agent flags (suc n)).1 ≡ exit_ok
      → IsAnswered (agent ∷ more) (ask_with r agent flags (suc n)).0
  unfolding ask_with
  with-IsAnswered agent more flags n parsed left positive h = elim (Result-cases r.stdin) [
    | inr (x, e) ↦ absurd (write_error-failed r.written _ (rw (e, ask_with) at h))
    | inl (body, e) ↦ elim (Bool-cases (ltb max_request_body_bytes (length body))) [
      | inl f ↦ absurd (write_error-failed r.written _ (rw (e, f, ask_with) at h))
      | inr f ↦
          let same : ask_with r agent flags (suc n) ≡ ask_service r agent flags (suc n) body =
            rw (ask_with, e, f) refl in
          subst (λ (w : Written × ExitCode). IsAnswered (agent ∷ more) w.0) (sym same)
            (service-IsAnswered agent more flags n body parsed left positive e (ground (arith, f))
              (ap (λ (w : Written × ExitCode). w.1) (sym same) ∙ h))
    ]
  ]

  timed-IsAnswered :
      (agent : String) (more : List String) (flags : AskFlags) (t : ℤ)
      → r.parse more ≡ some flags
      → flags.left_over ≡ 0
      → flags.timeout ≡ t
      → (with_timeout agent flags t).1 ≡ exit_ok
      → IsAnswered (agent ∷ more) (with_timeout agent flags t).0
  unfolding with_timeout
  timed-IsAnswered agent more flags (negsuc n) parsed left same h =
      absurd (write_error-failed r.written _ h)
  timed-IsAnswered agent more flags (pos zero) parsed left same h =
      absurd (write_error-failed r.written _ h)
  timed-IsAnswered agent more flags (pos (suc n)) parsed left same h =
      with-IsAnswered agent more flags n parsed left same h

  -- A `runAsk` that exits with ExitOK was given an Agent, flags that parse with nothing left over, a
  -- positive timeout and a body of at most 256 KiB; the service answered the request that was made of
  -- them, and this answer is what is written.
  pub run_ask-IsAnswered :
      (args : List String) → (run_ask r args).1 ≡ exit_ok → IsAnswered args (run_ask r args).0
  unfolding run_ask with_timeout
  run_ask-IsAnswered [] h = absurd (write_error-failed r.written _ h)
  run_ask-IsAnswered (agent ∷ more) h = elim (Option-cases (r.parse more)) [
    | inl e ↦ absurd (write_error-failed r.written _ (rw (e, run_ask) at h))
    | inr (flags, e) ↦ elim (Bool-cases (flags.left_over == 0)) [
      | inr f ↦ absurd (write_error-failed r.written _ (rw (e, f, run_ask) at h))
      | inl f ↦
          rw (e, f, run_ask)
            (timed-IsAnswered agent more flags flags.timeout e (ground (arith, f)) refl
              (rw (e, f, run_ask) at h))
    ]
  ]

signed_64-small : (x : ℕ) → x < 2 ^ 63 → signed_64 (x % 2 ^ 64) ≡ pos x
unfolding signed_64
signed_64-small x small =
    let same : x % 2 ^ 64 ≡ x = omega (arith, small) in rw same (ground (arith, small))

request_timeout-whole :
    (q : ℕ) → 1 ≤ q → q * 1_000_000 < 2 ^ 63 → request_timeout (pos q) ≡ pos (q * 1_000_000)
unfolding request_timeout
request_timeout-whole zero least fits = absurd (omega (arith, least))
request_timeout-whole (suc k) least fits = signed_64-small (suc k * 1_000_000) fits

-- A timeout of the daemon that is at most a duration, and less than a millisecond shorter.
pub record IsTimeoutOf (d : ℕ) (timeout : ℤ) : Type 0 where
  pub nanoseconds : ℕ
  pub positive : timeout ≡ pos nanoseconds
  pub at_most : nanoseconds ≤ d
  pub close : d < nanoseconds + 1_000_000

-- For a timeout of at least a millisecond that fits 63 bits, the timeout that the daemon takes for the
-- milliseconds of the command line is at most the one that was asked for, and less than a
-- millisecond shorter.
pub request_timeout-milliseconds :
    (d : ℕ) → 1_000_000 ≤ d → d < 2 ^ 63 → IsTimeoutOf d (request_timeout (pos (milliseconds d)))
unfolding milliseconds
request_timeout-milliseconds d least fits = record {
  nanoseconds = d / 1_000_000 * 1_000_000;
  positive = request_timeout-whole (d / 1_000_000) (omega (arith, least)) (omega (arith, fits));
  at_most = omega arith;
  close = omega arith;
}
