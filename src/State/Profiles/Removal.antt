-- ===== src/State/Profiles/Removal.antt =====
-- What `RemoveProfile` of internal/v2state/state.go leaves on disk and among the keys.
use peercontext.Common.{
  ◌≡◌, ◌≢◌, refl, ◌∙◌, false, none, inl, inr, [], ◌∷◌, String, All, select, not, arith, Bool-cases,
  ◌==◌, string_eq, ==_iff, ==_refl,
}
use peercontext.Common.Dict.{Dict, lookup, delete_if, lookup-delete}
use peercontext.Errors.{GoError, Result, ok, err}
use peercontext.Protocol.Platform.{Platform}
use peercontext.State.Model.{State, StateJson, LocalAgent}
use peercontext.State.Disk.{Machine, load, save, system, decode_state, next_fault, continue, ◌>>=◌}
use peercontext.State.Disk.Atomic.{save-Replaced, save_err}
use peercontext.State.Keys.{Manager, key_name, delete_private_key}
use peercontext.State.Profiles.{without_profile, remove_profile}
use peercontext.State.Profiles.Update.{Trips, at_version_2, load_lem, saved_read}

abbrev pub OfOther : String → String × LocalAgent → Type 0
OfOther project_id entry = (entry.1.project_id == project_id) ≡ false

delete_if-All :
    (project_id : String) (m : Dict String LocalAgent)
    → All (OfOther project_id) (delete_if (λ _ a. a.project_id == project_id) m)
unfolding delete_if
delete_if-All project_id [] = tt
delete_if-All project_id ((k, a) ∷ m) = elim (Bool-cases (a.project_id == project_id)) [
  | inl e ↦ rw (e, delete_if) (delete_if-All project_id m)
  | inr e ↦ rw (e, delete_if) (e, delete_if-All project_id m)
]

-- Nothing of the Project is in the state. The other Projects, the Agents of other Projects in their
-- order, the port and another Project in use are as they were.
pub record IsWithout (project_id : String) (before after : State) : Type 0 where
  pub profile : lookup project_id after.profiles ≡ none
  pub agents : All (OfOther project_id) after.agents
  pub others :
      (other : String)
      → other ≢ project_id
      → lookup other after.profiles ≡ lookup other before.profiles
  pub current : project_id ≢ "" → after.current_project_id ≢ project_id
  pub other_agents : after.agents ≡ select (λ e. not (e.1.project_id == project_id)) before.agents
  pub port : after.listen_port ≡ before.listen_port
  pub other_current :
      before.current_project_id ≢ project_id → after.current_project_id ≡ before.current_project_id
  pub no_current : before.current_project_id ≡ project_id → after.current_project_id ≡ ""

delete_if-select :
    (project_id : String) (m : Dict String LocalAgent)
    → delete_if (λ _ a. a.project_id == project_id) m
      ≡ select (λ e. not (e.1.project_id == project_id)) m
unfolding delete_if select
delete_if-select project_id [] = refl
delete_if-select project_id ((k, a) ∷ m) = ground (arith, delete_if-select project_id m)

without_profile-IsWithout :
    (project_id : String) (s : State)
    → IsWithout project_id s (at_version_2 (without_profile project_id s))
unfolding without_profile
without_profile-IsWithout project_id s = record {
  profile = rw (lookup-delete project_id project_id s.profiles, ==_refl project_id) refl;
  agents = delete_if-All project_id s.agents;
  others = λ other ne.
      ground (arith, lookup-delete project_id other s.profiles, ==_iff project_id other);
  current = λ ne h. ground (arith, ==_iff s.current_project_id project_id);
  other_agents = delete_if-select project_id s.agents;
  port = refl;
  other_current = λ ne. ground (arith, ==_iff s.current_project_id project_id);
  no_current = λ e. ground (arith, ==_iff s.current_project_id project_id);
}

module _ (p : Platform) (json : StateJson) (mgr : Manager) where
  key_deleted :
      (project_id : String) (m : Machine)
      → let r = delete_private_key p mgr project_id m in
        (r.1.file ≡ m.file) × (r.0 ≡ ok tt → lookup (key_name p mgr project_id) r.1.keys ≡ none)
  unfolding delete_private_key system
  key_deleted project_id m = elim (Bool-cases (next_fault m.faults).0) [
    | inl bad ↦ rw (bad, delete_private_key, system) (refl, λ h. absurd (ground arith))
    | inr good ↦
        let gone = lookup-delete (key_name p mgr project_id) (key_name p mgr project_id) m.keys in
        let self = ==_refl (key_name p mgr project_id) in
        rw (good, delete_private_key, system) (refl, λ h. rw (gone, self) refl)
  ]

  -- What `RemoveProfile` comes to.
  pub record Removed (project_id : String) (before : Machine) (r : Result (Unit {0}) × Machine)
      : Type 0 where
    pub on_error : (e : GoError) → r.0 ≡ err e → r.1.file ≡ before.file
    pub on_success :
        r.0 ≡ ok tt
        → (s : State) × (s' : State) × (decode_state json before.file ≡ ok s)
          × (decode_state json r.1.file ≡ ok s')
          × IsWithout project_id s s'
          × (lookup (key_name p mgr project_id) r.1.keys ≡ none)

  saved-Removed :
      Trips json
      → (project_id : String) (before m : Machine) (s : State) (deleted : Result (Unit {0}))
      → m.file ≡ before.file
      → decode_state json before.file ≡ ok s
      → (deleted ≡ ok tt → lookup (key_name p mgr project_id) m.keys ≡ none)
      → Removed project_id before
          (continue deleted (λ _. save json (without_profile project_id s)) m)
  saved-Removed trips project_id before m s (err e) same reads gone = record {
    on_error = λ x h. same;
    on_success = λ h. absurd (ground arith);
  }
  saved-Removed trips project_id before m s (ok _) same reads gone =
      let s' : State = without_profile project_id s in
      let saved = save-Replaced json s' m in
      record {
        on_error = λ e h. saved.on_error e h ∙ same;
        on_success = λ h. (
          s,
          at_version_2 s',
          reads,
          saved_read json trips s' m (save json s' m) saved h,
          without_profile-IsWithout project_id s,
          rw saved.keys (gone refl),
        );
      }

  loaded-Removed :
      Trips json
      → (project_id : String) (before m : Machine) (loaded : Result State) → m.file ≡ before.file
      → ((s : State) → loaded ≡ ok s → decode_state json before.file ≡ ok s)
      → Removed project_id before (
          continue loaded
            (λ s.
              delete_private_key p mgr project_id >>= λ _. save json (without_profile project_id s))
            m)
  unfolding ◌>>=◌
  loaded-Removed trips project_id before m (err e) same reads = record {
    on_error = λ x h. same;
    on_success = λ h. absurd (ground arith);
  }
  loaded-Removed trips project_id before m (ok s) same reads =
      let (kept, gone) = key_deleted project_id m in
      saved-Removed trips project_id before _ s _ (kept ∙ same) (reads s refl) gone

  pub remove_profile-Removed :
      Trips json
      → (project_id : String) (m : Machine)
      → Removed project_id m (remove_profile p json mgr project_id m)
  unfolding remove_profile ◌>>=◌
  remove_profile-Removed trips project_id m =
      let (same, reads) = load_lem json m in
      loaded-Removed trips project_id m (load json m).1 (load json m).0 same reads

  deleted_err :
      (project_id : String) (m : Machine) (s : State) (deleted : Result (Unit {0})) (e : GoError)
      → (continue deleted (λ _. save json (without_profile project_id s)) m).0 ≡ err e
      → (continue deleted (λ _. save json (without_profile project_id s)) m).1.file ≡ m.file
  deleted_err project_id m s (err x) e h = refl
  deleted_err project_id m s (ok _) e h = save_err json (without_profile project_id s) m e h

  loaded_err :
      (project_id : String) (m : Machine) (loaded : Result State) (e : GoError)
      → let r =
          continue loaded
            (λ s.
              delete_private_key p mgr project_id >>= λ _. save json (without_profile project_id s))
            m in
        r.0 ≡ err e → r.1.file ≡ m.file
  unfolding ◌>>=◌
  loaded_err project_id m (err x) e h = refl
  loaded_err project_id m (ok s) e h =
      deleted_err project_id _ s _ e h ∙ (key_deleted project_id m).0

  -- A `RemoveProfile` that fails, in reading, in deleting the key or in writing, leaves the state
  -- file as it was.
  pub remove_profile_err :
      (project_id : String) (m : Machine) (e : GoError)
      → (remove_profile p json mgr project_id m).0 ≡ err e
      → (remove_profile p json mgr project_id m).1.file ≡ m.file
  unfolding remove_profile ◌>>=◌
  remove_profile_err project_id m e h =
      loaded_err project_id (load json m).1 (load json m).0 e h ∙ (load_lem json m).0

  -- After a `RemoveProfile` that succeeds the state file reads as the old state without the Project
  -- and its Agents: every other Project, the Agents of other Projects in their order and the port are
  -- as they were, another Project in use stays in use, the removed one leaves none in use, and one
  -- with a name is not in use. The Project has no key. The decoder is assumed to read back what the
  -- encoder writes.
  pub remove_profile_ok :
      Trips json
      → (project_id : String) (m : Machine) → (remove_profile p json mgr project_id m).0 ≡ ok tt
      → (s : State) × (s' : State) × (decode_state json m.file ≡ ok s)
        × (decode_state json (remove_profile p json mgr project_id m).1.file ≡ ok s')
        × IsWithout project_id s s'
        × (lookup (key_name p mgr project_id) (remove_profile p json mgr project_id m).1.keys
            ≡ none)
  remove_profile_ok trips project_id m h = (remove_profile-Removed trips project_id m).on_success h
