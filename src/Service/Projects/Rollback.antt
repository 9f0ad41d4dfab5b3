-- ===== src/Service/Projects/Rollback.antt =====
-- What a `createProject` of internal/service/daemon.go that fails leaves behind.
use peercontext.Common.{◌≡◌, refl, sym, ap, subst, ◌∙◌, inl, inr, [], arith, ◌||◌, ◌==◌, string_eq}
use peercontext.Common.Text.{Bytes, trim_space}
use peercontext.Errors.{GoError, plain, Result, ok, err, fail_if}
use peercontext.Protocol.Platform.{Platform}
use peercontext.Protocol.Model.{Project, Member}
use peercontext.Protocol.Invitation.{Invitation, encode_invitation}
use peercontext.Lanhost.Sql.Effects.{Atomic, transaction-Atomic}
use peercontext.Lanhost.Wire.{kind_invite_create}
use peercontext.Lanhost.Store.Projects
use peercontext.Lanhost.Store.Projects.Deletion.{IsDeleted}
use peercontext.Lanhost.Client.{Client}
use peercontext.State.Disk.{Local}
use peercontext.State.Profiles.{put_profile, remove_profile}
use peercontext.State.Profiles.Putting.{put_profile_err}
use peercontext.Service.Control.{ProjectCreateInput, ProjectCreateResult}
use peercontext.Service.Daemon.{
  Daemon, Act, pure, lift, on_machine, on_store, or_undo, ignoring, new_client, call, Setup, ◌>>=◌,
  ◌>>◌,
}
use peercontext.Service.Daemon.Calling.{call-db}
use peercontext.Service.Daemon.Cases.{bind-cases, or_undo-cases}
use peercontext.Service.Projects.{
  Creation, new_project_id, new_project, new_owner, hosted_profile, undo_project, undo_profile,
  finish_project, create_project,
}
use peercontext.Service.Projects.Quiet.{create_project-Quiet, quiet-IsDeleted}

create_project-Atomic :
    (p : Platform) (project : Project) (owner : Member)
    → Atomic (Projects.create_project p project owner)
unfolding Projects.create_project
create_project-Atomic p project owner = transaction-Atomic _

module _ (setup : Setup) (turn : Creation) (empty_invitation : Invitation)
    (input : ProjectCreateInput) where
  put : Bytes → Local (Unit {0})
  put key =
      put_profile setup.platform setup.state_json setup.manager
        (hosted_profile setup turn empty_invitation input key) key

  store : Bytes → Act (Unit {0})
  store key = on_store (
      Projects.create_project setup.platform (new_project setup turn empty_invitation input key)
        (new_owner setup turn empty_invitation input key))

  abbrev ask : Bytes → Act (Invitation × Client)
  ask key =
      call setup setup.invitation.unmarshal empty_invitation turn.invite kind_invite_create
        (new_client (hosted_profile setup turn empty_invitation input key))

  -- The daemon after `CreateProject` of its store, then after `PutProfile`, and then after the call
  -- for the invitation.
  pub created : Bytes → Daemon → Daemon
  unfolding store
  created key before = (store key before).1

  pub profiled : Bytes → Daemon → Daemon
  unfolding put
  profiled key before = (on_machine (put key) (created key before)).1

  pub asked : Bytes → Daemon → Daemon
  asked key before = (ask key (profiled key before)).1

  -- What a failure leaves behind.
  pub data IsUndone (before after : Daemon) : Type 0 where
    -- nothing was done
    untouched :
        after.db.tables ≡ before.db.tables → after.machine ≡ before.machine → IsUndone before after
    -- the Project was stored and is deleted, and the state file was never written
    unstored :
        (key : Bytes)
        → turn.private_key ≡ ok key
        → IsDeleted (new_project_id turn) (created key before).db.tables after.db.tables
        → after.machine.file ≡ before.machine.file
        → IsUndone before after
    -- the profile was put, `RemoveProfile` was run on what the call for the invitation left of the
    -- machine, and the Project is deleted
    unprofiled :
        (key : Bytes)
        → turn.private_key ≡ ok key
        → IsDeleted (new_project_id turn) (asked key before).db.tables after.db.tables
        → after.machine
          ≡ (remove_profile setup.platform setup.state_json setup.manager
              (new_project_id turn)
              (asked key before).machine).1
        → IsUndone before after

  created-quiet :
      (key : Bytes) (before : Daemon) → before.db.faults ≡ [] → (created key before).db.faults ≡ []
  unfolding created store on_store
  created-quiet key before quiet = create_project-Quiet setup.platform _ _ before.db quiet

  asked-quiet :
      (key : Bytes) (before : Daemon)
      → ((d : Daemon) → d.db.faults ≡ [] → (turn.invite.meanwhile d).db.faults ≡ [])
      → before.db.faults ≡ []
      → (asked key before).db.faults ≡ []
  unfolding asked profiled on_machine
  asked-quiet key before calm quiet =
      rw
        (call-db setup setup.invitation.unmarshal empty_invitation turn.invite kind_invite_create
          (new_client (hosted_profile setup turn empty_invitation input key)) (profiled key before))
        (calm (profiled key before) (created-quiet key before quiet))

  abbrev Step : Type 0
  Step = Result ProjectCreateResult × Daemon

  -- If the result is an error, everything was undone.
  abbrev Undoes : Daemon → Step → Type 0
  Undoes before r = (e : GoError) → r.0 ≡ err e → IsUndone before r.1

  -- A step with its undoing, and what comes after it.
  or_undo-Undoes :
      {A : Type 0} (act : Act A) (cleanup : Act (Unit {0})) (f : A → Act ProjectCreateResult)
      (before d : Daemon)
      → ((e : GoError) → (act d).0 ≡ err e → IsUndone before (cleanup (act d).1).1)
      → ((a : A) → Undoes before (f a (act d).1))
      → Undoes before ((or_undo act cleanup >>= f) d)
  or_undo-Undoes {A} act cleanup f before d undone onward e h = elim (or_undo-cases act cleanup d) [
    | inl (x, failed, same) ↦ elim (bind-cases (or_undo act cleanup) f d) [
      | inl (y, g, again) ↦
          subst (λ (r : Step). IsUndone before r.1) (sym again)
            (subst (λ (r : Result A × Daemon). IsUndone before r.1) (sym same) (undone x failed))
      | inr (a, g, again) ↦ absurd (ground (arith, same))
    ]
    | inr (a, done, same) ↦ elim (bind-cases (or_undo act cleanup) f d) [
      | inl (y, g, again) ↦ absurd (ground (arith, same))
      | inr (b, g, again) ↦
          let onto : (or_undo act cleanup >>= f) d ≡ f b (act d).1 =
            again ∙ ap (λ (r : Result A × Daemon). f b r.1) same in
          subst (λ (r : Step). IsUndone before r.1) (sym onto)
            (onward b e (ap (λ (r : Step). r.0) (sym onto) ∙ h))
    ]
  ]

  -- the undoing after `PutProfile` has failed
  put-IsUndone :
      (before : Daemon) (key : Bytes) (e : GoError)
      → turn.private_key ≡ ok key
      → before.db.faults ≡ []
      → (on_machine (put key) (created key before)).0 ≡ err e
      → IsUndone before (undo_project setup turn empty_invitation (profiled key before)).1
  unfolding put created store profiled on_machine on_store ignoring
  put-IsUndone before key e drawn quiet h =
      unstored key drawn
        (quiet-IsDeleted (new_project_id turn) (created key before).db
          (created-quiet key before quiet))
        (put_profile_err setup.platform setup.state_json setup.manager
          (hosted_profile setup turn empty_invitation input key) key before.machine e h)

  -- the undoing after the call for the invitation
  asked-IsUndone :
      (before : Daemon) (key : Bytes)
      → turn.private_key ≡ ok key
      → (asked key before).db.faults ≡ []
      → IsUndone before (undo_profile setup turn empty_invitation (asked key before)).1
  unfolding undo_profile ignoring on_store on_machine ◌>>=◌
  asked-IsUndone before key drawn quiet =
      unprofiled key drawn (quiet-IsDeleted (new_project_id turn) (asked key before).db quiet) refl

  finish_project-Undoes :
      (before : Daemon) (key : Bytes)
      → turn.private_key ≡ ok key
      → before.db.faults ≡ []
      → (asked key before).db.faults ≡ []
      → Undoes before (finish_project setup turn empty_invitation input key (created key before))
  unfolding finish_project put profiled asked pure lift
  finish_project-Undoes before key drawn quiet still =
      or_undo-Undoes (on_machine (put key)) (undo_project setup turn empty_invitation) _ before
        (created key before) (λ e h. put-IsUndone before key e drawn quiet h)
        (λ _.
          or_undo-Undoes (ask key) (undo_profile setup turn empty_invitation) _ before
            (profiled key before) (λ e h. asked-IsUndone before key drawn still)
            (λ answer.
              or_undo-Undoes
                (lift (encode_invitation setup.platform setup.invitation answer.0 turn.encoded_at))
                (undo_profile setup turn empty_invitation) _ before (asked key before)
                (λ e h. asked-IsUndone before key drawn still)
                (λ encoded e h. absurd (ground arith))))

  stored-IsUndone :
      (before : Daemon) (key : Bytes)
      → turn.private_key ≡ ok key
      → before.db.faults ≡ []
      → (asked key before).db.faults ≡ []
      → Undoes before
          ((store key >>= λ _. finish_project setup turn empty_invitation input key) before)
  unfolding on_store store created
  stored-IsUndone before key drawn quiet still e h =
      let rest : Act ProjectCreateResult = finish_project setup turn empty_invitation input key in
      elim (bind-cases (store key) (λ _. rest) before) [
        | inl (x, g, same) ↦
            subst (λ (r : Step). IsUndone before r.1) (sym same)
              (untouched
                ((create_project-Atomic setup.platform _
                    (new_owner setup turn empty_invitation input key)).undone
                  before.db x g)
                refl)
        | inr (u, g, same) ↦
            subst (λ (r : Step). IsUndone before r.1) (sym same)
              (finish_project-Undoes before key drawn quiet still e
                (ap (λ (r : Step). r.0) (sym same) ∙ h))
      ]

  -- A `createProject` that fails, at a database that does not fail and that the daemon does not let
  -- fail while the call for the invitation waits, leaves one of three things behind: the tables and
  -- the machine as they were; or, where the profile could not be put, the tables after
  -- `CreateProject` without a row of the new Project in any of the five, every other Project's rows
  -- kept, and the state file as it was; or, from the call for the invitation on, the tables that this
  -- call left without a row of the new Project, every other Project's rows kept, and the machine that
  -- it left after `RemoveProfile` of the new Project.
  pub create_project-IsUndone :
      (before : Daemon) (e : GoError)
      → before.db.faults ≡ []
      → ((d : Daemon) → d.db.faults ≡ [] → (turn.invite.meanwhile d).db.faults ≡ [])
      → (create_project setup turn empty_invitation input before).0 ≡ err e
      → IsUndone before (create_project setup turn empty_invitation input before).1
  unfolding create_project lift store
  create_project-IsUndone before e quiet calm h =
      let check : Act (Unit {0}) = lift (
        fail_if (trim_space input.name == "" || trim_space input.member_name == "")
          (plain "Project name and member name are required")) in
      let rest : Bytes → Act ProjectCreateResult =
        λ key. store key >> finish_project setup turn empty_invitation input key in
      elim (bind-cases check (λ _. lift turn.private_key >>= rest) before) [
        | inl (x, f, same) ↦
            subst (λ (r : Step). IsUndone before r.1) (sym same) (untouched refl refl)
        | inr (u, f, same) ↦ elim (bind-cases (lift turn.private_key) rest before) [
          | inl (x, g, again) ↦
              subst (λ (r : Step). IsUndone before r.1) (sym (same ∙ again)) (untouched refl refl)
          | inr (key, g, again) ↦
              subst (λ (r : Step). IsUndone before r.1) (sym (same ∙ again))
                (stored-IsUndone before key g quiet (asked-quiet key before calm quiet) e
                  (ap (λ (r : Step). r.0) (sym (same ∙ again)) ∙ h))
        ]
      ]
