-- ===== src/State/Profiles/Update.antt =====
-- What `loadUnlocked`, a change and `saveUnlocked` of internal/v2state/state.go come to together.
use peercontext.Common.{◌≡◌, refl, ◌∙◌, some, inl, inr, nat_eq, arith, Bool-cases}
use peercontext.Common.Text.{Bytes}
use peercontext.Errors.{GoError, Result, ok, err}
use peercontext.State.Model.{State, StateJson, as_decoded}
use peercontext.State.Disk.{
  Machine, load, save, system, lift, decode_state, normalized, read_file, next_fault, continue,
  ◌>>=◌,
}
use peercontext.State.Disk.Atomic.{Replaced, save-Replaced, save_err, written_text}
use peercontext.State.Profiles.{update}

-- The decoder reads back what the encoder writes, with a line feed after it.
pub record Trips (json : StateJson) : Type 0 where
  pub back :
      (s : State) (bytes : Bytes)
      → json.marshal s ≡ some bytes
      → json.unmarshal (written_text bytes) ≡ some (as_decoded s)

abbrev pub at_version_2 : State → State
at_version_2 s = record s { schema_version = 2 }

-- A change either leaves the state file as it was, or reads a state, changes it, and leaves a file
-- that reads as the changed state.
pub record Updated (json : StateJson) (change : State → Result State) (before : Machine)
    (r : Result (Unit {0}) × Machine) : Type 0 where
  pub on_error : (e : GoError) → r.0 ≡ err e → r.1.file ≡ before.file
  pub on_success :
      r.0 ≡ ok tt
      → (s : State) × (s' : State) × (decode_state json before.file ≡ ok s)
        × (change s ≡ ok s')
        × (decode_state json r.1.file ≡ ok (at_version_2 s'))

module _ (json : StateJson) where
  pub load_lem :
      (m : Machine)
      → ((load json m).1.file ≡ m.file)
        × ((s : State) → (load json m).0 ≡ ok s → decode_state json m.file ≡ ok s)
  unfolding load read_file system ◌>>=◌
  load_lem m = elim (Bool-cases (next_fault m.faults).0) [
    | inl bad ↦ rw (bad, load, system) (refl, λ s h. absurd (ground arith))
    | inr good ↦ rw (good, load, system) (refl, λ s h. h)
  ]

  -- What was saved is what is read.
  pub saved_read :
      Trips json
      → (s : State) (before : Machine) (r : Result (Unit {0}) × Machine) → Replaced json s before r
      → r.0 ≡ ok tt
      → decode_state json r.1.file ≡ ok (at_version_2 s)
  unfolding decode_state normalized
  saved_read trips s before r saved h =
      let (bytes, e, file) = saved.on_success h in
      let back = trips.back (at_version_2 s) bytes e in rw (file, back) refl

  changed-Updated :
      Trips json
      → (change : State → Result State) (before m : Machine) (s : State) (changed : Result State)
      → m.file ≡ before.file
      → decode_state json before.file ≡ ok s
      → change s ≡ changed
      → Updated json change before (continue changed (save json) m)
  changed-Updated trips change before m s (err e) same reads by = record {
    on_error = λ x h. same;
    on_success = λ h. absurd (ground arith);
  }
  changed-Updated trips change before m s (ok s') same reads by =
      let saved = save-Replaced json s' m in
      record {
        on_error = λ e h. saved.on_error e h ∙ same;
        on_success = λ h. (s, s', reads, by, saved_read trips s' m (save json s' m) saved h);
      }

  loaded-Updated :
      Trips json
      → (change : State → Result State) (before m : Machine) (loaded : Result State)
      → m.file ≡ before.file
      → ((s : State) → loaded ≡ ok s → decode_state json before.file ≡ ok s)
      → Updated json change before (continue loaded (λ s. lift (change s) >>= save json) m)
  unfolding ◌>>=◌ lift
  loaded-Updated trips change before m (err e) same reads = record {
    on_error = λ x h. same;
    on_success = λ h. absurd (ground arith);
  }
  loaded-Updated trips change before m (ok s) same reads =
      changed-Updated trips change before m s (change s) same (reads s refl) refl

  pub update-Updated :
      Trips json
      → (change : State → Result State) (m : Machine) → Updated json change m (update json change m)
  unfolding update ◌>>=◌
  update-Updated trips change m =
      let (same, reads) = load_lem m in
      loaded-Updated trips change m (load json m).1 (load json m).0 same reads

  changed_err :
      (m : Machine) (changed : Result State) (e : GoError)
      → (continue changed (save json) m).0 ≡ err e
      → (continue changed (save json) m).1.file ≡ m.file
  changed_err m (err x) e h = refl
  changed_err m (ok s) e h = save_err json s m e h

  loaded_err :
      (change : State → Result State) (m : Machine) (loaded : Result State) (e : GoError)
      → (continue loaded (λ s. lift (change s) >>= save json) m).0 ≡ err e
      → (continue loaded (λ s. lift (change s) >>= save json) m).1.file ≡ m.file
  unfolding ◌>>=◌ lift
  loaded_err change m (err x) e h = refl
  loaded_err change m (ok s) e h = changed_err m (change s) e h

  -- A change of the state that fails, in reading, in changing or in writing, leaves the state file
  -- as it was.
  pub update_err :
      (change : State → Result State) (m : Machine) (e : GoError)
      → (update json change m).0 ≡ err e
      → (update json change m).1.file ≡ m.file
  unfolding update ◌>>=◌
  update_err change m e h = loaded_err change (load json m).1 (load json m).0 e h ∙ (load_lem m).0

  -- A change of the state that succeeds has read a state and changed it, and the new file reads as
  -- the changed state, if the decoder reads back what the encoder writes.
  pub update_ok :
      Trips json
      → (change : State → Result State) (m : Machine) → (update json change m).0 ≡ ok tt
      → (s : State) × (s' : State) × (decode_state json m.file ≡ ok s)
        × (change s ≡ ok s')
        × (decode_state json (update json change m).1.file ≡ ok (at_version_2 s'))
  update_ok trips change m h = (update-Updated trips change m).on_success h
