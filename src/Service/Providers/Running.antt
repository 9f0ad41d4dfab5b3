-- ===== src/Service/Providers/Running.antt =====
-- That the maps of internal/service/daemon.go hold entries only for providers whose goroutine runs.
use peercontext.Common.{
  ℕ, ◌≡◌, ◌*◌, ◌⊎◌, refl, sym, ap, ◌∙◌, subst, Bool, true, false, not, Option, none, some, List, [],
  ◌∷◌, String, any, any-imply, select, All, All-select, arith, Option-cases, Bool-cases, inl, inr,
  ◌==◌, nat_eq, string_eq, ==_iff,
}
use peercontext.Common.Dict.{lookup, lookup-insert, lookup-delete}
use peercontext.Errors.{GoError}
use peercontext.Protocol.Time.{second}
use peercontext.State.Model.{LocalAgent}
use peercontext.Service.Daemon.{Daemon}
use peercontext.Service.Providers.{
  Loop, Loops, Step, Reach, start, stop, report, wait, leave, shut_down, begin, step, is_loop,
  add_provider, start_provider, forget_provider, stop_provider, report_online, next_backoff,
  started, waited, left,
}

-- One, two, four, eight or sixteen seconds.
abbrev pub IsBackoff : ℕ → Type 0
IsBackoff b =
    (b ≡ second) ⊎ ((b ≡ 2 * second) ⊎ ((b ≡ 4 * second) ⊎ ((b ≡ 8 * second) ⊎ (b ≡ 16 * second))))

-- Every entry of `providers` is of a goroutine with its Agent and its context, every entry of
-- `connected` is of a goroutine with its Agent, and every goroutine waits for one, two, four, eight or sixteen seconds.
pub record IsRunning (s : Loops) : Type 0 where
  pub provider :
      (id : String) (context : ℕ)
      → lookup id s.daemon.providers ≡ some context
      → any (is_loop id context) s.running ≡ true
  pub connection :
      (id : String) (online : Bool)
      → lookup id s.daemon.connected ≡ some online
      → any (λ k. k.agent_id == id) s.running ≡ true
  pub backoffs : All (λ l. IsBackoff l.backoff) s.running

any-select_kept :
    {A : Type 0} (p keep : A → Bool) (xs : List A)
    → ((x : A) → p x ≡ true → keep x ≡ true)
    → any p xs ≡ true
    → any p (select keep xs) ≡ true
unfolding any select
any-select_kept p keep [] kept h = h
any-select_kept p keep (x ∷ xs) kept h = ground (arith, kept x, any-select_kept p keep xs kept)

any-waited_loop :
    (id : String) (c context : ℕ) (ls : List Loop)
    → any (is_loop id c) (waited context ls) ≡ any (is_loop id c) ls
unfolding any waited
any-waited_loop id c context [] = refl
any-waited_loop id c context (l ∷ ls) = ground (arith, any-waited_loop id c context ls)

any-waited_agent :
    (id : String) (context : ℕ) (ls : List Loop)
    → any (λ k. k.agent_id == id) (waited context ls) ≡ any (λ k. k.agent_id == id) ls
unfolding any waited
any-waited_agent id context [] = refl
any-waited_agent id context (l ∷ ls) = ground (arith, any-waited_agent id context ls)

next_backoff-IsBackoff : (b : ℕ) → IsBackoff b → IsBackoff (next_backoff b)
unfolding next_backoff
next_backoff-IsBackoff b (inl e) = inr (inl (ground arith))
next_backoff-IsBackoff b (inr (inl e)) = inr (inr (inl (ground arith)))
next_backoff-IsBackoff b (inr (inr (inl e))) = inr (inr (inr (inl (ground arith))))
next_backoff-IsBackoff b (inr (inr (inr (inl e)))) = inr (inr (inr (inr (ground arith))))
next_backoff-IsBackoff b (inr (inr (inr (inr e)))) = inr (inr (inr (inr (ground arith))))

waited-IsBackoff :
    (context : ℕ) (ls : List Loop)
    → All (λ l. IsBackoff l.backoff) ls
    → All (λ l. IsBackoff l.backoff) (waited context ls)
unfolding waited
waited-IsBackoff context [] h = tt
waited-IsBackoff context (l ∷ ls) h = (
  elim (Bool-cases (l.context == context)) [
    | inl e ↦ rw e (next_backoff-IsBackoff l.backoff h.0)
    | inr e ↦ rw e h.0
  ],
  waited-IsBackoff context ls h.1,
)

start_fresh :
    (agent : LocalAgent) (s : Loops)
    → lookup agent.agent_id s.daemon.providers ≡ none
    → IsRunning s
    → IsRunning (started none agent s)
unfolding started start_provider add_provider any
start_fresh agent s e i =
    rw (e, started, start_provider, add_provider)
      (record {
        provider = λ id context h. ground (
          arith,
          i.provider id context,
          lookup-insert agent.agent_id id s.daemon.next_context s.daemon.providers,
          ==_iff agent.agent_id id,
        );
        connection = λ id online h. ground (
          arith,
          i.connection id online,
          lookup-insert agent.agent_id id false s.daemon.connected,
          ==_iff agent.agent_id id,
        );
        backoffs = (inl refl, i.backoffs);
      })

started-IsRunning :
    (check : Option GoError) (agent : LocalAgent) (s : Loops)
    → IsRunning s
    → IsRunning (started check agent s)
unfolding started
started-IsRunning (some e) agent s i = i
started-IsRunning none agent s i = elim (Option-cases (lookup agent.agent_id s.daemon.providers)) [
  | inl e ↦ start_fresh agent s e i
  | inr (context, e) ↦ rw (e, started) i
]

forgotten :
    (id agent_id : String) (s : Loops) (running : List Loop)
    → IsRunning s
    → ((context : ℕ)
        → (id == agent_id) ≡ false
        → any (is_loop id context) s.running ≡ true
        → any (is_loop id context) running ≡ true)
    → ((id == agent_id) ≡ false
        → any (λ k. k.agent_id == id) s.running ≡ true
        → any (λ k. k.agent_id == id) running ≡ true)
    → ((context : ℕ)
        → lookup id (forget_provider agent_id s.daemon).providers ≡ some context
        → any (is_loop id context) running ≡ true)
      × ((online : Bool)
          → lookup id (forget_provider agent_id s.daemon).connected ≡ some online
          → any (λ k. k.agent_id == id) running ≡ true)
unfolding forget_provider
forgotten id agent_id s running i loops agents = (
  λ context h. ground (
    arith,
    i.provider id context,
    loops context,
    lookup-delete agent_id id s.daemon.providers,
    ==_iff agent_id id,
    ==_iff id agent_id,
  ),
  λ online h. ground (
    arith,
    i.connection id online,
    agents,
    lookup-delete agent_id id s.daemon.connected,
    ==_iff agent_id id,
    ==_iff id agent_id,
  ),
)

forgotten-IsRunning :
    (agent_id : String) (s t : Loops)
    → IsRunning s
    → t.daemon.providers ≡ (forget_provider agent_id s.daemon).providers
    → t.daemon.connected ≡ (forget_provider agent_id s.daemon).connected
    → ((id : String) (context : ℕ)
        → (id == agent_id) ≡ false
        → any (is_loop id context) s.running ≡ true
        → any (is_loop id context) t.running ≡ true)
    → ((id : String)
        → (id == agent_id) ≡ false
        → any (λ k. k.agent_id == id) s.running ≡ true
        → any (λ k. k.agent_id == id) t.running ≡ true)
    → All (λ l. IsBackoff l.backoff) t.running
    → IsRunning t
forgotten-IsRunning agent_id s t i providers connected loops agents backoffs = record {
  provider = λ id context h.
      (forgotten id agent_id s t.running i (loops id) (agents id)).0 context
        (ap (lookup id) (sym providers) ∙ h);
  connection = λ id online h.
      (forgotten id agent_id s t.running i (loops id) (agents id)).1 online
        (ap (lookup id) (sym connected) ∙ h);
  backoffs = backoffs;
}

stopped-IsRunning :
    (agent_id : String) (s : Loops)
    → IsRunning s
    → IsRunning (record s { daemon = stop_provider agent_id s.daemon })
unfolding stop_provider
stopped-IsRunning agent_id s i = elim (Option-cases (lookup agent_id s.daemon.providers)) [
  | inl e ↦
      forgotten-IsRunning agent_id s _ i (rw (e, stop_provider) refl) (rw (e, stop_provider) refl)
        (λ id context n h. h) (λ id n h. h) i.backoffs
  | inr (context, e) ↦
      forgotten-IsRunning agent_id s _ i (rw (e, stop_provider) refl) (rw (e, stop_provider) refl)
        (λ id context n h. h) (λ id n h. h) i.backoffs
]

left-IsRunning : (l : Loop) (s : Loops) → IsRunning s → IsRunning (left l s)
unfolding left
left-IsRunning l s i =
    let keep : Loop → Bool = λ k. not (is_loop l.agent_id l.context k) in
    forgotten-IsRunning l.agent_id s (left l s) i refl refl
      (λ id context n h.
        any-select_kept (is_loop id context) keep s.running
          (λ k m.
            ground
              (arith, ==_iff k.agent_id id, ==_iff k.agent_id l.agent_id, ==_iff id l.agent_id))
          h)
      (λ id n h.
        any-select_kept (λ k. k.agent_id == id) keep s.running
          (λ k m.
            ground
              (arith, ==_iff k.agent_id id, ==_iff k.agent_id l.agent_id, ==_iff id l.agent_id))
          h)
      (All-select keep (λ k. IsBackoff k.backoff) s.running i.backoffs)

reported-IsRunning :
    (l : Loop) (online : Bool) (s : Loops)
    → any (is_loop l.agent_id l.context) s.running ≡ true
    → IsRunning s
    → IsRunning (record s { daemon = report_online l.agent_id online s.daemon })
unfolding report_online
reported-IsRunning l online s here i = record {
  provider = i.provider;
  connection = λ id b h. ground (
    arith,
    i.connection id b,
    lookup-insert l.agent_id id online s.daemon.connected,
    ==_iff l.agent_id id,
    any-imply (is_loop l.agent_id l.context) (λ k. k.agent_id == l.agent_id) s.running
        (λ k m. ground arith) here,
  );
  backoffs = i.backoffs;
}

Step-IsRunning : {s t : Loops} → Step s t → IsRunning s → IsRunning t
Step-IsRunning (start s check agent) i = started-IsRunning check agent s i
Step-IsRunning (stop s agent_id) i = stopped-IsRunning agent_id s i
Step-IsRunning (report s l online here) i = reported-IsRunning l online s here i
Step-IsRunning (wait s context) i = record {
  provider = λ id c h.
      subst (λ b. b ≡ true) (sym (any-waited_loop id c context s.running)) (i.provider id c h);
  connection = λ id b h.
      subst (λ c. c ≡ true) (sym (any-waited_agent id context s.running)) (i.connection id b h);
  backoffs = waited-IsBackoff context s.running i.backoffs;
}
Step-IsRunning (leave s l here gone) i = left-IsRunning l s i
Step-IsRunning (shut_down s) i = record {
  provider = i.provider;
  connection = i.connection;
  backoffs = i.backoffs;
}

-- In every state that a daemon comes to from one without providers, by starting and stopping
-- providers, by their rounds, reports and ends, and by shutting down, each entry of `providers` is of
-- a goroutine that runs for this Agent with this context, each entry of `connected` is of a goroutine
-- that runs for this Agent, and each goroutine waits one, two, four, eight or sixteen seconds.
pub Reach-IsRunning : (d : Daemon) (s : Loops) → Reach d s → IsRunning s
unfolding lookup
Reach-IsRunning d s (begin a b) = record {
  provider = λ id c h. absurd (ground (arith, a));
  connection = λ id c h. absurd (ground (arith, b));
  backoffs = tt;
}
Reach-IsRunning d t (step {s} r by) = Step-IsRunning by (Reach-IsRunning d s r)
