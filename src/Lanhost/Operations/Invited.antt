-- ===== src/Lanhost/Operations/Invited.antt =====
-- When an invitation of internal/lanhost/store.go is used, and that it stays used.
pub mod Once
use peercontext.Common.{
  ℕ, ◌≡◌, ◌≢◌, refl, Bool, true, false, not, ◌&&◌, Option, none, some, ◌⊎◌, inl, inr, List, [], ◌∷◌,
  ◌++◌, String, find, select, any, count, arith, subst, Bool-cases, ◌==◌, string_eq, ==_iff,
  if◌then◌else◌,
}
use peercontext.Errors.{GoError, Result, ok, err, Result-cases}
use peercontext.Protocol.Model.{AgentManifest}
use peercontext.Lanhost.Sql.{update_where, insert_row}
use peercontext.Lanhost.Store.Tables.{InvitationRow, Tables, invitation_at}
use peercontext.Lanhost.Store.Projects.{delete_invitations}
use peercontext.Lanhost.Store.Invitations.{insert_invitation, mark_consumed, open_invitation}
use peercontext.Lanhost.Operations.{Operation, deleting}

module _ (project_id id : String) where
  -- when the invitation of these identifiers was used
  abbrev pub consumption : List InvitationRow → Option String
  consumption rows = elim (find (invitation_at project_id id) rows) [
    | none ↦ none
    | some r ↦ r.consumed_at
  ]

  -- the invitation is there and was used
  pub record IsUsed (t : Tables) : Type 0 where
    pub at : String
    pub used : consumption t.invitations ≡ some at

  consumption-append :
      (rows : List InvitationRow) (row : InvitationRow) (at : String)
      → consumption rows ≡ some at
      → consumption (rows ++ row ∷ []) ≡ some at
  unfolding find
  consumption-append [] row at h = absurd (ground arith)
  consumption-append (r ∷ rs) row at h = ground (arith, consumption-append rs row at)

  consumption-mark :
      (other_project other at' : String) (rows : List InvitationRow) (at : String)
      → consumption rows ≡ some at
      → consumption (
          update_where
            (open_invitation other_project other)
            (λ r. record r { consumed_at = some at' })
            rows)
        ≡ some at
  unfolding find update_where open_invitation
  consumption-mark other_project other at' [] at h = absurd (ground arith)
  consumption-mark other_project other at' (r ∷ rs) at h =
      ground (arith, consumption-mark other_project other at' rs at)

  consumption-select :
      (other : String) (rows : List InvitationRow) (at : String)
      → other ≢ project_id
      → consumption rows ≡ some at
      → consumption (select (λ r. not (r.project_id == other)) rows) ≡ some at
  unfolding find select
  consumption-select other [] at ne h = absurd (ground arith)
  consumption-select other (r ∷ rs) at ne h = ground (
    arith,
    consumption-select other rs at ne,
    ==_iff r.project_id project_id,
    ==_iff r.project_id other,
  )

  -- Marking a found, unused invitation makes it used.
  pub mark_first :
      (at : String) (rows : List InvitationRow) (row : InvitationRow)
      → find (invitation_at project_id id) rows ≡ some row
      → row.consumed_at ≡ none
      → consumption (
          update_where
            (open_invitation project_id id)
            (λ r. record r { consumed_at = some at })
            rows)
        ≡ some at
  unfolding find update_where open_invitation
  mark_first at [] row h e = absurd (ground arith)
  mark_first at (r ∷ rs) row h e = ground (arith, mark_first at rs row)

  -- Statements keep a used invitation, but for the deletion of its Project.
  pub insert_invitation-IsUsed :
      (row : InvitationRow) (t : Tables) (a : Unit {0}) (t' : Tables)
      → IsUsed t
      → insert_invitation row t ≡ ok (a, t')
      → IsUsed t'
  unfolding insert_invitation insert_row
  insert_invitation-IsUsed row t a t' u h = record {
    at = u.at;
    used = ground (arith, consumption-append t.invitations row u.at u.used);
  }

  pub mark_consumed-IsUsed :
      (other_project other at : String) (t : Tables) (n : ℕ) (t' : Tables)
      → IsUsed t
      → mark_consumed other_project other at t ≡ ok (n, t')
      → IsUsed t'
  unfolding mark_consumed
  mark_consumed-IsUsed other_project other at t n t' u h = record {
    at = u.at;
    used = ground (arith, consumption-mark other_project other at t.invitations u.at u.used);
  }

  pub delete_invitations-IsUsed :
      (other : String) (t : Tables) (a : Unit {0}) (t' : Tables)
      → other ≢ project_id
      → IsUsed t
      → delete_invitations other t ≡ ok (a, t')
      → IsUsed t'
  unfolding delete_invitations
  delete_invitations-IsUsed other t a t' ne u h = record {
    at = u.at;
    used = ground (arith, consumption-select other t.invitations u.at ne u.used);
  }

  pub IsUsed-same : (t t' : Tables) → t'.invitations ≡ t.invitations → IsUsed t → IsUsed t'
  IsUsed-same t t' e u = record { at = u.at; used = rw e u.used }
