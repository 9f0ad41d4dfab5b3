-- ===== src/Lanhost/Server/Auth/Once.antt =====
-- `authenticate` of internal/lanhost/server.go lets a message through once: its nonce is held for
-- as long as its time is accepted, whatever else is authenticated meanwhile.
use peercontext.Common.{
  ◌+◌, ◌*◌, ◌≤◌, ◌≡◌, ◌≢◌, ap, refl, List, [], ◌∷◌, ◌⊎◌, inl, inr, String, arith, ◌∙◌,
}
use peercontext.Errors.{Result, ok, err}
use peercontext.Protocol.Time.{Time}
use peercontext.Protocol.Platform.{Platform}
use peercontext.Protocol.Model.{Member, default_signature_max_age}
use peercontext.Protocol.Signing.{SignedMessage}
use peercontext.Protocol.Signing.Fresh.{verify_message-IsVerified}
use peercontext.Lanhost.Replay.{ReplayGuard, replay_key, accept, replayed}
use peercontext.Lanhost.Replay.Memory.{
  Holds, accept-max_age, accept-Holds, Holds-accept, accept-replayed,
}
use peercontext.Lanhost.Server.Host.{Host}
use peercontext.Lanhost.Server.Auth.{check_message, note_nonce, admit, admit_found, authenticate}

module _ (p : Platform) (m : SignedMessage) (method path : String) (now : Time) where
  -- Either the nonces are untouched, or `Accept` ran on the message.
  admit-replays :
      (sender : Member) (s : Host) (checked : Result (Unit {0}))
      → check_message p m method path now sender ≡ checked
      → ((admit p m method path now sender s).1.replays ≡ s.replays)
        ⊎ ((admit p m method path now sender s).1.replays ≡ (accept s.replays m now).1)
  unfolding admit note_nonce
  admit-replays sender s (ok u) e = inr (rw (e, admit))
  admit-replays sender s (err x) e = inl (rw (e, admit))

  admit_found-replays :
      (found : Result Member) (s : Host)
      → ((admit_found p m method path now found s).1.replays ≡ s.replays)
        ⊎ ((admit_found p m method path now found s).1.replays ≡ (accept s.replays m now).1)
  unfolding admit_found
  admit_found-replays (err e) s = inl refl
  admit_found-replays (ok sender) s = admit-replays sender s _ refl

  -- What a success went through.
  admit_success :
      (sender sent : Member) (s : Host) (checked : Result (Unit {0}))
      → check_message p m method path now sender ≡ checked
      → (admit p m method path now sender s).0 ≡ ok sent
      → (check_message p m method path now sender ≡ ok tt)
        × ((accept s.replays m now).0 ≡ ok tt)
        × ((admit p m method path now sender s).1.replays ≡ (accept s.replays m now).1)
  unfolding admit note_nonce
  admit_success sender sent s (ok u) e h = ground (arith, e)
  admit_success sender sent s (err x) e h = absurd (ground (arith, e))

  -- A success: what was checked of the message, and what became of the nonces.
  pub record Admitted (before after : ReplayGuard) : Type 0 where
    pub sender : Member
    pub checked : check_message p m method path now sender ≡ ok tt
    pub fresh : (accept before m now).0 ≡ ok tt
    pub noted : after ≡ (accept before m now).1

  admit_found_success :
      (found : Result Member) (sent : Member) (s : Host)
      → (admit_found p m method path now found s).0 ≡ ok sent
      → Admitted s.replays (admit_found p m method path now found s).1.replays
  unfolding admit_found
  admit_found_success (err e) sent s h = absurd (ground arith)
  admit_found_success (ok sender) sent s h =
      let (checked, fresh, noted) = admit_success sender sent s _ refl h in
      record { sender = sender; checked = checked; fresh = fresh; noted = noted }

  pub authenticate_success :
      (sent : Member) (s : Host)
      → (authenticate p m method path now s).0 ≡ ok sent
      → Admitted s.replays (authenticate p m method path now s).1.replays
  unfolding authenticate
  authenticate_success sent s h = admit_found_success _ sent _ h

  pub replays-authenticate :
      (s : Host)
      → ((authenticate p m method path now s).1.replays ≡ s.replays)
        ⊎ ((authenticate p m method path now s).1.replays ≡ (accept s.replays m now).1)
  unfolding authenticate
  replays-authenticate s = admit_found-replays _ _

  -- The time of a message that passes is within two minutes of the clock.
  pub check_message_window :
      (sender : Member)
      → check_message p m method path now sender ≡ ok tt
      → (now ≤ m.timestamp + default_signature_max_age)
        × (m.timestamp ≤ now + default_signature_max_age)
  unfolding check_message
  check_message_window sender h =
      let v = verify_message-IsVerified p m sender.public_key now (ground arith) in
      (v.not_old, v.not_early)

-- A call of `authenticate`: the message, the route, the time, and what the rest of the host is by
-- then, which other handlers may have changed in any way but for the nonces.
pub record Call : Type 0 where
  pub message : SignedMessage
  pub method : String
  pub path : String
  pub now : Time
  pub rest : Host

-- The calls come one after another from the time `from` on, and end by `until`.
abbrev pub Ordered : Time → List Call → Time → Type 0
Ordered from [] until = from ≤ until
Ordered from (c ∷ cs) until = (from ≤ c.now) × Ordered c.now cs until

Ordered-le : (from : Time) (cs : List Call) (until : Time) → Ordered from cs until → from ≤ until
Ordered-le from [] until h = h
Ordered-le from (c ∷ cs) until h = omega (arith, Ordered-le c.now cs until h.1)

module _ (p : Platform) where
  -- The call on a host with these nonces.
  abbrev pub answer : Call → ReplayGuard → Result Member × Host
  answer c g = authenticate p c.message c.method c.path c.now (record c.rest { replays = g })

  unfoldable pub after_calls : List Call → ReplayGuard → ReplayGuard
  after_calls [] g = g
  after_calls (c ∷ cs) g = after_calls cs (answer c g).1.replays

  -- The memory has the age of the server, and holds the key.
  pub record Remembers (g : ReplayGuard) (key : String) (at : Time) : Type 0 where
    pub age : g.max_age ≡ default_signature_max_age
    pub held : Holds g key at

  Remembers-accept :
      (g : ReplayGuard) (m : SignedMessage) (now : Time) (key : String) (at : Time)
      → Remembers g key at
      → now ≤ at + default_signature_max_age * 2
      → Remembers (accept g m now).1 key at
  Remembers-accept g m now key at r h = record {
    age = accept-max_age g m now ∙ r.age;
    held = Holds-accept g m now key at (rw r.age (omega arith)) r.held (rw r.age h);
  }

  Remembers-answer :
      (c : Call) (g : ReplayGuard) (key : String) (at : Time)
      → Remembers g key at
      → c.now ≤ at + default_signature_max_age * 2
      → Remembers (answer c g).1.replays key at
  Remembers-answer c g key at r h =
      elim (replays-authenticate p c.message c.method c.path c.now
        (record c.rest { replays = g })) [
          | inl same ↦ rw same r
          | inr noted ↦ rw noted (Remembers-accept g c.message c.now key at r h)
        ]

  Remembers-after_calls :
      (cs : List Call) (g : ReplayGuard) (key : String) (at from until : Time)
      → Remembers g key at
      → Ordered from cs until
      → until ≤ at + default_signature_max_age * 2
      → Remembers (after_calls cs g) key at
  unfolding after_calls
  Remembers-after_calls [] g key at from until r o h = r
  Remembers-after_calls (c ∷ cs) g key at from until r o h =
      Remembers-after_calls cs (answer c g).1.replays key at c.now until
        (Remembers-answer c g key at r (omega (arith, Ordered-le c.now cs until o.1))) o.1 h

  -- While the key of a message is held, and its time was not early, the message is refused.
  refused :
      (again : Call) (cs : List Call) (g : ReplayGuard) (c : Call) (other : Member)
      → Remembers g (replay_key c.message) c.now
      → again.message ≡ c.message
      → Ordered c.now cs again.now
      → c.message.timestamp ≤ c.now + default_signature_max_age
      → (answer again (after_calls cs g)).0 ≢ ok other
  refused again cs g c other r same o early second =
      let b : Admitted p again.message again.method again.path again.now (after_calls cs g)
          (answer again (after_calls cs g)).1.replays =
        authenticate_success p again.message again.method again.path again.now other _ second in
      let late : again.now ≤ again.message.timestamp + default_signature_max_age =
        (check_message_window p again.message again.method again.path again.now b.sender
          b.checked).0 in
      let times : again.message.timestamp ≡ c.message.timestamp =
        ap (λ (m : SignedMessage). m.timestamp) same in
      let recent : again.now ≤ c.now + default_signature_max_age * 2 = omega arith in
      let r' : Remembers (after_calls cs g) (replay_key again.message) c.now =
        rw same
          (Remembers-after_calls cs g (replay_key c.message) c.now c.now again.now r o recent) in
      let no_ : (accept (after_calls cs g) again.message again.now).0 ≡ err replayed =
        accept-replayed (after_calls cs g) again.message again.now c.now (rw r'.age (omega arith))
          r'.held (rw r'.age recent) in
      ground (arith, no_, b.fresh)

  -- On a host whose nonce memory has the age of two minutes, as `NewServer` makes it, a message that
  -- `authenticate` has let through is never let through again, on whatever route, whatever messages
  -- are authenticated and whatever happens to the database in between, if the clock does not run
  -- backwards.
  pub authenticate_once :
      (g : ReplayGuard) (c : Call) (cs : List Call) (again : Call) (sent other : Member)
      → g.max_age ≡ default_signature_max_age
      → (answer c g).0 ≡ ok sent
      → again.message ≡ c.message
      → Ordered c.now cs again.now
      → (answer again (after_calls cs (answer c g).1.replays)).0 ≢ ok other
  authenticate_once g c cs again sent other age first same o second =
      let a : Admitted p c.message c.method c.path c.now g (answer c g).1.replays =
        authenticate_success p c.message c.method c.path c.now sent _ first in
      let held : Remembers (answer c g).1.replays (replay_key c.message) c.now =
        rw a.noted (record {
          age = accept-max_age g c.message c.now ∙ age;
          held = accept-Holds g c.message c.now a.fresh;
        }) in
      let early : c.message.timestamp ≤ c.now + default_signature_max_age =
        (check_message_window p c.message c.method c.path c.now a.sender a.checked).1 in
      refused again cs (answer c g).1.replays c other held same o early second
