-- ===== src/Lanhost/Operations/Keys/Inserts.antt =====
-- The inserts of internal/lanhost/store.go keep the keys.
use peercontext.Common.{◌≡◌, refl, List, arith, subst, string_eq, ==_comm}
use peercontext.Errors.{GoError, Result, ok, err}
use peercontext.Errors
use peercontext.Lanhost.Sql.Keys.{insert_row-Unique}
use peercontext.Lanhost.Store.Tables.{ProjectRow, MemberRow, InvitationRow, RequestRow, Tables}
use peercontext.Lanhost.Store.Projects.{insert_project, insert_member}
use peercontext.Lanhost.Store.Invitations.{insert_invitation}
use peercontext.Lanhost.Store.Requests.{insert_request}
use peercontext.Lanhost.Operations.Keys.{
  HasKeys, same_project, same_member, same_member_key, same_invitation, same_request, pair_comm,
  any_or_left, any_or_right, with_projects, with_members, with_invitations, with_requests,
}

inserted-HasKeys :
    {R A : Type 0} (set : List R → A × Tables) (r : Result (List R)) (a : A) (t' : Tables)
    → ((rows : List R) → r ≡ ok rows → HasKeys (set rows).1)
    → Errors.◌>>=◌ r (λ rows. ok (set rows)) ≡ ok (a, t')
    → HasKeys t'
inserted-HasKeys set (ok rows) a t' k h =
    let q : (set rows).1 ≡ t' = ground arith in subst HasKeys q (k rows refl)
inserted-HasKeys set (err e) a t' k h = absurd (ground arith)

module _ (t : Tables) (a : Unit {0}) (t' : Tables) (k : HasKeys t) where
  pub insert_project-HasKeys : (row : ProjectRow) → insert_project row t ≡ ok (a, t') → HasKeys t'
  unfolding insert_project
  insert_project-HasKeys row h =
      inserted-HasKeys (λ rows. (tt, record t { projects = rows })) _ a t'
        (λ rows e. with_projects k rows (
          insert_row-Unique same_project (λ x y. ==_comm y.id x.id) _ row t.projects rows k.projects
            (λ c. c) e))
        h

  pub insert_member-HasKeys : (row : MemberRow) → insert_member row t ≡ ok (a, t') → HasKeys t'
  unfolding insert_member
  insert_member-HasKeys row h =
      inserted-HasKeys (λ rows. (tt, record t { members = rows })) _ a t'
        (λ rows e.
          with_members k rows
            (insert_row-Unique same_member (λ x y. pair_comm x.project_id y.project_id x.id y.id) _
              row t.members rows k.members
              (any_or_left (same_member row) (same_member_key row) t.members) e)
            (insert_row-Unique same_member_key
              (λ x y. pair_comm x.project_id y.project_id x.public_key y.public_key) _ row t.members
              rows k.member_keys (any_or_right (same_member row) (same_member_key row) t.members)
              e))
        h

  pub insert_invitation-HasKeys :
      (row : InvitationRow) → insert_invitation row t ≡ ok (a, t') → HasKeys t'
  unfolding insert_invitation
  insert_invitation-HasKeys row h =
      inserted-HasKeys (λ rows. (tt, record t { invitations = rows })) _ a t'
        (λ rows e. with_invitations k rows (
          insert_row-Unique same_invitation (λ x y. pair_comm x.project_id y.project_id x.id y.id) _
            row t.invitations rows k.invitations (λ c. c) e))
        h

  pub insert_request-HasKeys : (row : RequestRow) → insert_request row t ≡ ok (a, t') → HasKeys t'
  unfolding insert_request
  insert_request-HasKeys row h =
      inserted-HasKeys (λ rows. (tt, record t { requests = rows })) _ a t'
        (λ rows e. with_requests k rows (
          insert_row-Unique same_request (λ x y. pair_comm x.project_id y.project_id x.id y.id) _
            row t.requests rows k.requests (λ c. c) e))
        h
