-- ===== src/Service/Agents/Waiting.antt =====
-- What `registerAgent` of internal/service/daemon.go has heard when it returns an Agent.
use peercontext.Common.{
  ℕ, zero, suc, ◌+◌, ◌*◌, ◌≤◌, ◌<◌, ◌≡◌, ◌≢◌, refl, sym, ap, subst, ◌∙◌, true, some, inl, inr,
  String, arith, ltb, Bool-cases, Option-cases,
}
use peercontext.Common.Text.{Bytes}
use peercontext.Errors.{Result, ok, err}
use peercontext.Protocol.Time.{Time, second}
use peercontext.Protocol.Model.{Agent}
use peercontext.State.Model.{State, Profile, LocalAgent}
use peercontext.State.Agents.{put_agent}
use peercontext.State.Profiles.{current}
use peercontext.Lanhost.Wire.{kind_agent_register, kind_agent_get}
use peercontext.Lanhost.Client.{Client}
use peercontext.Lanhost.Client.Replies.{SameHost}
use peercontext.Service.Control.{AgentRegisterInput}
use peercontext.Service.Daemon.{
  Daemon, Call, Setup, new_client, current_client, rpc, call, lift, on_machine,
}
use peercontext.Service.Daemon.Calling.{
  Answered, InUse, bind-ok, current_client-InUse, rpc-Answered, rpc-SameHost, call-Answered,
}
use peercontext.Service.Providers.{start_provider}
use peercontext.Service.Agents.{
  Answers, Round, Registration, Registered, registered, Waited, online, interrupted, late,
  unfinished, await, after_wait, online_agent, no_agent, check_repository, registration,
  start_and_wait, register_agent,
}

-- what the loop waits between two rounds: 25 milliseconds
abbrev pub pause : ℕ
pause = 25_000_000

-- a fact on the host of a Project, where its key and its id are spelled another way
moved :
    {X : Type 0} (P : Bytes → String → X → Type 0) {k k' : Bytes} {q q' : String}
    → k ≡ k'
    → q ≡ q'
    → (x : X) → P k q x
    → P k' q' x
moved P {k' = k'} {q = q} same_key same_project x h =
    subst (λ p. P k' p x) same_project (subst (λ b. P b q x) same_key h)

module _ (setup : Setup) (answers : Answers) (deadline : Time) (rounds : ℕ → Round)
    (agent_id : String) where
  -- So many rounds as there are pauses up to the deadline, and one more.
  await_fuel :
      (steps n : ℕ) (c : Client) (d : Daemon)
      → ((k : ℕ) → (rounds k).now + pause ≤ (rounds (suc k)).now)
      → deadline ≤ (rounds n).now + pause * steps
      → (await setup answers deadline rounds agent_id (suc steps) n c d).0 ≢ unfinished
  unfolding await
  await_fuel zero n c d paused near h = elim (Bool-cases (ltb (rounds n).now deadline)) [
    | inl e ↦ ground (arith, e)
    | inr e ↦ ground (arith, e)
  ]
  await_fuel (suc steps) n c d paused near h = elim (Bool-cases (ltb (rounds n).now deadline)) [
    | inr e ↦ ground (arith, e)
    | inl e ↦
        let asked =
          rpc setup answers.agent no_agent ((rounds n).asked agent_id) kind_agent_get c d in
        elim (Option-cases (online_agent asked.0.0)) [
          | inr (a, f) ↦ ground (arith, e, f)
          | inl f ↦ elim (Option-cases (rounds n).canceled) [
            | inr (x, g) ↦ ground (arith, e, f, g)
            | inl g ↦
                await_fuel steps (suc n) asked.0.1 asked.1 paused (omega (arith, paused n, near))
                  (rw (e, await, f, g) at h)
          ]
        ]
  ]

  online_agent_online :
      (answer : Result Agent) (a : Agent)
      → online_agent answer ≡ some a
      → (answer ≡ ok a) × (a.online ≡ true)
  unfolding online_agent
  online_agent_online (err e) a h = absurd (ground arith)
  online_agent_online (ok b) a h = elim (Bool-cases b.online) [
    | inl e ↦
        let same : b ≡ a = ground (arith, e) in
        (ap ok same, subst (λ (x : Agent). x.online ≡ true) same e)
    | inr e ↦ absurd (ground (arith, e))
  ]

  -- A round of the loop before the deadline in which the host has answered the call for the Agent
  -- with this Agent, online.
  pub record SeenOnline (key : Bytes) (project_id : String) (a : Agent) : Type 0 where
    pub round : ℕ
    pub early : (rounds round).now < deadline
    pub reported :
        Answered setup answers.agent no_agent
          ((rounds round).asked agent_id)
          kind_agent_get
          key
          project_id
          a
    pub online : a.online ≡ true

  -- The Agent that the loop finds was reported.
  await_online :
      (fuel n : ℕ) (c : Client) (d : Daemon) (a : Agent)
      → (await setup answers deadline rounds agent_id fuel n c d).0 ≡ online a
      → SeenOnline c.host_public_key c.project_id a
  unfolding await
  await_online zero n c d a h = absurd (ground arith)
  await_online (suc fuel) n c d a h = elim (Bool-cases (ltb (rounds n).now deadline)) [
    | inr e ↦ absurd (ground (arith, e))
    | inl e ↦
        let met = (rounds n).asked agent_id in
        let asked = rpc setup answers.agent no_agent met kind_agent_get c d in
        elim (Option-cases (online_agent asked.0.0)) [
          | inr (b, f) ↦
              let same : b ≡ a = ground (arith, e, f) in
              let (said, is_online) = online_agent_online asked.0.0 b f in
              subst (λ (x : Agent). SeenOnline c.host_public_key c.project_id x) same
                (record {
                  round = n;
                  early = ground (arith, e);
                  reported =
                      rpc-Answered setup answers.agent no_agent met kind_agent_get c d b said;
                  online = is_online;
                })
          | inl f ↦ elim (Option-cases (rounds n).canceled) [
            | inr (x, g) ↦ absurd (ground (arith, e, f, g))
            | inl g ↦
                let same = rpc-SameHost setup answers.agent no_agent met kind_agent_get c d in
                moved SeenOnline same.key same.project a
                  (await_online fuel (suc n) asked.0.1 asked.1 a (rw (e, await, f, g) at h))
          ]
        ]
  ]

module _ (setup : Setup) (answers : Answers) (r : Registration) where
  -- The wait for an Agent ended with an Agent that the host has reported as online.
  pub record IsFound (agent_id : String) (key : Bytes) (project_id : String) (result : Registered)
      : Type 0 where
    pub agent : Agent
    pub ended : result ≡ registered agent
    pub seen :
        SeenOnline setup answers
          (r.registered_at + 3 * second)
          r.rounds
          agent_id
          key
          project_id
          agent

  after_wait-IsFound :
      (agent_id : String) (key : Bytes) (project_id : String) (w : Waited) (result : Registered)
      → w ≢ unfinished
      → ((a : Agent)
          → w ≡ online a
          → SeenOnline setup answers
              (r.registered_at + 3 * second)
              r.rounds
              agent_id
              key
              project_id
              a)
      → after_wait setup answers w ≡ ok result
      → IsFound agent_id key project_id result
  unfolding after_wait
  after_wait-IsFound agent_id key project_id (online a) result ended seen h =
      let same : registered a ≡ result = ground arith in
      record { agent = a; ended = sym same; seen = seen a refl }
  after_wait-IsFound agent_id key project_id (interrupted e) result ended seen h =
      absurd (ground arith)
  after_wait-IsFound agent_id key project_id late result ended seen h = absurd (ground arith)
  after_wait-IsFound agent_id key project_id unfinished result ended seen h = absurd (ended refl)

  start_and_wait-IsFound :
      (agent : LocalAgent) (c : Client) (d : Daemon) (result : Registered)
      → ((k : ℕ) → (r.rounds k).now + pause ≤ (r.rounds (suc k)).now)
      → r.registered_at ≤ (r.rounds 0).now
      → (start_and_wait setup answers r agent c d).0 ≡ ok result
      → IsFound agent.agent_id c.host_public_key c.project_id result
  unfolding start_and_wait
  start_and_wait-IsFound agent c d result paused first h =
      let deadline = r.registered_at + 3 * second in
      let from = start_provider r.runtime_again agent d in
      after_wait-IsFound agent.agent_id c.host_public_key c.project_id _ result
        (await_fuel setup answers deadline r.rounds agent.agent_id 120 0 c from paused
          (omega (arith, first)))
        (λ a e. await_online setup answers deadline r.rounds agent.agent_id 121 0 c from a e) h

  -- A registration in the Project in use at a daemon: its host has answered the call that registers
  -- with an Agent, and a later call for the Agent of that id with one that is online.
  pub record IsOnline (input : AgentRegisterInput) (d : Daemon) (result : Registered) : Type 0 where
    pub state : State
    pub profile : Profile
    pub in_use : (current setup.state_json setup.legacy d.machine).0 ≡ ok (state, profile)
    pub made : Agent
    pub accepted :
        Answered setup answers.agent no_agent
          (r.register (registration setup answers r input profile))
          kind_agent_register
          profile.host_public_key
          profile.project_id
          made
    pub found : IsFound made.id profile.host_public_key profile.project_id result

  abbrev register_call : AgentRegisterInput → Profile → Call
  register_call input profile = r.register (registration setup answers r input profile)

  found-IsOnline :
      (input : AgentRegisterInput) (d : Daemon) (c c' : Client) (profile : Profile) (made : Agent)
      (result : Registered)
      → InUse setup d c profile
      → Answered setup answers.agent no_agent
          (register_call input profile)
          kind_agent_register
          c.host_public_key
          c.project_id
          made
      → SameHost setup.platform setup.reading c c'
      → IsFound made.id c'.host_public_key c'.project_id result
      → IsOnline input d result
  unfolding new_client
  found-IsOnline input d c c' profile made result used accepted same found =
      let key : c.host_public_key ≡ profile.host_public_key =
        ap (λ (q : Client). q.host_public_key) used.client in
      let project : c.project_id ≡ profile.project_id =
        ap (λ (q : Client). q.project_id) used.client in
      record {
        state = used.state;
        profile = profile;
        in_use = used.read;
        made = made;
        accepted =
            moved
              (Answered setup answers.agent no_agent (register_call input profile)
                kind_agent_register)
              key project made accepted;
        found = moved (IsFound made.id) (same.key ∙ key) (same.project ∙ project) result found;
      }

  -- Where each round of the loop begins at least 25 milliseconds after the one before it, as
  -- time.After sees to, and the first not before the Agent was registered, a `registerAgent` that
  -- succeeds returns an Agent that the host of the Project in use has reported as online, in a
  -- signed answer to a call that began less than 3 seconds after the registration, and that asked
  -- for the id of the Agent with which the host had answered the registration: the loop does not run
  -- out of the 121 rounds that it is given.
  pub register_agent-IsOnline :
      (input : AgentRegisterInput) (d : Daemon) (result : Registered)
      → ((k : ℕ) → (r.rounds k).now + pause ≤ (r.rounds (suc k)).now)
      → r.registered_at ≤ (r.rounds 0).now
      → (register_agent setup answers r input d).0 ≡ ok result
      → IsOnline input d result
  unfolding register_agent lift
  register_agent-IsOnline input d result paused first h =
      let (_, _, h₁) = bind-ok (lift (check_repository setup answers r)) _ d result h in
      let ((c, profile), client, h₂) = bind-ok (current_client setup) _ d result h₁ in
      let used = current_client-InUse setup d c profile client in
      let d₁ = (current_client setup d).1 in
      let met = register_call input profile in
      let ((made, c'), said, h₃) =
        bind-ok (call setup answers.agent no_agent met kind_agent_register c) _ d₁ result h₂ in
      let (accepted, same) =
        call-Answered setup answers.agent no_agent met kind_agent_register c d₁ made c' said in
      let local : LocalAgent = record {
        agent_id = made.id;
        project_id = profile.project_id;
        repository = input.repository;
      } in
      let (_, _, h₄) =
        bind-ok (on_machine (put_agent setup.state_json r.absolute local)) _ _ result h₃ in
      let found = start_and_wait-IsFound local c' _ result paused first h₄ in
      found-IsOnline input d c c' profile made result used accepted same found
