-- ===== src/Lanhost/Operations/Invited/Once.antt =====
-- `ConsumeInvitation` of internal/lanhost/store.go admits one member for an invitation, ever.
use peercontext.Common.{
  ℕ, ◌≡◌, ◌≢◌, ap, ◌∙◌, not, none, some, inl, inr, List, String, All, find, arith, Option-cases,
  ◌==◌, nat_eq,
}
use peercontext.Errors.{sentinel, invite_consumed, Result, ok, fail_if}
use peercontext.Protocol.Time.{Time}
use peercontext.Protocol.Platform.{Platform, Codec}
use peercontext.Protocol.Model.{AgentManifest, Project}
use peercontext.Protocol.Invitation.{JoinRequest}
use peercontext.Lanhost.Sql.{exec, lift, pure, query, transaction, insert_row}
use peercontext.Lanhost.Sql.Effects.{query-Reads}
use peercontext.Lanhost.Sql.Cases.{query_ok, exec_ok, transaction_ok, bind_ok}
use peercontext.Lanhost.Store.Tables.{MemberRow, InvitationRow, Tables, HostDb, invitation_at}
use peercontext.Lanhost.Store.Projects.{
  project, member_row, insert_project, insert_member, delete_requests, delete_agents,
  delete_members, delete_project_row,
}
use peercontext.Lanhost.Store.Members.{delete_agents_of, delete_member}
use peercontext.Lanhost.Store.Invitations.{
  select_invitation, check_join, joined_member, mark_consumed, join_rows, consume_invitation,
}
use peercontext.Lanhost.Store.Agents.{upsert_agent, update_online, delete_agent}
use peercontext.Lanhost.Store.Requests.{insert_request, update_status}
use peercontext.Lanhost.Operations.{Operation, perform_all}
use peercontext.Lanhost.Operations.Atomic.{project-Reads}
use peercontext.Lanhost.Operations.Invariant.{Preserves, Preserved, Allowed, perform_all-Preserved}
use peercontext.Lanhost.Operations.Invited.{
  IsUsed, IsUsed-same, mark_first, insert_invitation-IsUsed, mark_consumed-IsUsed,
  delete_invitations-IsUsed,
}

module _ (project_id id : String) where
  -- any other Project may be deleted
  abbrev pub Other : String → Type 0
  Other other = other ≢ project_id

  untouched :
      {A : Type 0} (write : Tables → Result (A × Tables))
      → ((t : Tables) (a : A) (t' : Tables) → write t ≡ ok (a, t') → t'.invitations ≡ t.invitations)
      → Preserves (IsUsed project_id id) write
  untouched write same t a t' u h = IsUsed-same project_id id t t' (same t a t' h) u

  IsUsed-Preserved : Preserved (IsUsed project_id id) Other
  unfolding insert_project insert_member insert_request upsert_agent insert_row delete_requests
      delete_agents delete_members delete_project_row delete_agents_of delete_member delete_agent
      update_online update_status
  IsUsed-Preserved = record {
    insert_project = λ row. untouched _ (λ t a t' h. ground arith);
    insert_member = λ row. untouched _ (λ t a t' h. ground arith);
    insert_invitation = λ row t a t' u h. insert_invitation-IsUsed project_id id row t a t' u h;
    insert_request = λ row. untouched _ (λ t a t' h. ground arith);
    upsert_agent = λ row. untouched _ (λ t a t' h. ground arith);
    delete_requests = λ other may. untouched _ (λ t a t' h. ground arith);
    delete_agents = λ other may. untouched _ (λ t a t' h. ground arith);
    delete_invitations =
        λ other may t a t' u h. delete_invitations-IsUsed project_id id other t a t' may u h;
    delete_members = λ other may. untouched _ (λ t a t' h. ground arith);
    delete_project_row = λ other may. untouched _ (λ t a t' h. ground arith);
    delete_agents_of = λ other member_id. untouched _ (λ t a t' h. ground arith);
    delete_member = λ other member_id. untouched _ (λ t a t' h. ground arith);
    delete_agent = λ other agent_id. untouched _ (λ t a t' h. ground arith);
    mark_consumed =
        λ other invite at t n t' u h. mark_consumed-IsUsed project_id id other invite at t n t' u h;
    update_online = λ other agent_id member_id online at. untouched _ (λ t a t' h. ground arith);
    update_status = λ other request_id status at. untouched _ (λ t a t' h. ground arith);
  }

member_invitations :
    (row : MemberRow) (t : Tables) (a : Unit {0}) (t' : Tables)
    → insert_member row t ≡ ok (a, t')
    → t'.invitations ≡ t.invitations
unfolding insert_member insert_row
member_invitations row t a t' h = ground arith

module _ (p : Platform) (r : JoinRequest) (now : Time) where
  -- The checks pass only for an unused invitation.
  check_join_unused :
      (row : InvitationRow) → check_join p r now row ≡ ok tt → row.consumed_at ≡ none
  unfolding check_join
  check_join_unused row h = elim (Option-cases row.consumed_at) [
    | inl e ↦ e
    | inr (at, e) ↦ absurd (ground (arith, e))
  ]

  selected_row :
      (db : HostDb) (row : InvitationRow)
      → select_invitation r.project_id r.invite_id db.tables ≡ ok row
      → find (invitation_at r.project_id r.invite_id) db.tables.invitations ≡ some row
  unfolding select_invitation
  selected_row db row h = ground arith

  mark-IsUsed :
      (t : Tables) (n : ℕ) (t' : Tables) (row : InvitationRow)
      → find (invitation_at r.project_id r.invite_id) t.invitations ≡ some row
      → row.consumed_at ≡ none
      → mark_consumed r.project_id r.invite_id (p.format_time now) t ≡ ok (n, t')
      → IsUsed r.project_id r.invite_id t'
  unfolding mark_consumed
  mark-IsUsed t n t' row found unused h = record {
    at = p.format_time now;
    used = ground (
      arith,
      mark_first r.project_id r.invite_id (p.format_time now) t.invitations row found unused,
    );
  }

  join_rows_ok :
      (db : HostDb)
      → (join_rows p r now db).0 ≡ ok tt
      → IsUsed r.project_id r.invite_id (join_rows p r now db).1.tables
  unfolding join_rows lift
  join_rows_ok db h =
      let b = bind_ok (query (select_invitation r.project_id r.invite_id)) _ db tt h in
      let c = bind_ok (lift (check_join p r now b.value)) _ _ tt b.second in
      let d =
        bind_ok (exec (insert_member (member_row p (joined_member p r now)))) _ _ tt c.second in
      let e =
        bind_ok (exec (mark_consumed r.project_id r.invite_id (p.format_time now))) _ _ tt
          d.second in
      let db₁ : HostDb = (query (select_invitation r.project_id r.invite_id) db).1 in
      let db₂ : HostDb = (exec (insert_member (member_row p (joined_member p r now))) db₁).1 in
      let db₃ : HostDb =
        (exec (mark_consumed r.project_id r.invite_id (p.format_time now)) db₂).1 in
      let ended : join_rows p r now db
          ≡ lift (fail_if (not (e.value == 1)) (sentinel invite_consumed)) db₃ =
        b.state ∙ c.state ∙ d.state ∙ e.state in
      let same : db₂.tables.invitations ≡ db.tables.invitations =
        member_invitations _ db₁.tables tt db₂.tables (exec_ok _ db₁ tt d.first)
        ∙ ap (λ (t : Tables). t.invitations) ((query-Reads _).same db) in
      let row : find (invitation_at r.project_id r.invite_id) db₂.tables.invitations
          ≡ some b.value =
        rw same (selected_row db b.value (query_ok _ db b.value b.first)) in
      rw ended (
        mark-IsUsed db₂.tables e.value db₃.tables b.value row (check_join_unused b.value c.first)
          (exec_ok _ db₂ e.value e.first))

  -- A success leaves the invitation used.
  consume_ok :
      (db : HostDb) (host : Project)
      → (consume_invitation p r now db).0 ≡ ok host
      → IsUsed r.project_id r.invite_id (consume_invitation p r now db).1.tables
  unfolding consume_invitation pure
  consume_ok db host h =
      let b = bind_ok (project p r.project_id) _ db host h in
      let c = bind_ok (transaction (join_rows p r now)) _ _ host b.second in
      let (db', same, body, after) = transaction_ok (join_rows p r now) _ tt c.first in
      rw (b.state ∙ c.state, after) (join_rows_ok db' body)

  -- A used invitation is refused.
  join_rows_used :
      (db : HostDb) → IsUsed r.project_id r.invite_id db.tables → (join_rows p r now db).0 ≢ ok tt
  unfolding join_rows lift
  join_rows_used db u h =
      let b = bind_ok (query (select_invitation r.project_id r.invite_id)) _ db tt h in
      let c = bind_ok (lift (check_join p r now b.value)) _ _ tt b.second in
      let row = selected_row db b.value (query_ok _ db b.value b.first) in
      ground (arith, u.used, row, check_join_unused b.value c.first)

  pub consume_used :
      (db : HostDb) (host : Project)
      → IsUsed r.project_id r.invite_id db.tables
      → (consume_invitation p r now db).0 ≢ ok host
  unfolding consume_invitation
  consume_used db host u h =
      let b = bind_ok (project p r.project_id) _ db host h in
      let c = bind_ok (transaction (join_rows p r now)) _ _ host b.second in
      let (db', same, body, after) = transaction_ok (join_rows p r now) _ tt c.first in
      join_rows_used db' (rw (same ∙ (project-Reads p r.project_id).same db) u) body

-- Once `ConsumeInvitation` has admitted somebody, no later call for the same invitation succeeds,
-- whoever makes it, with whatever signature and at whatever time, and whatever calls of the store
-- come in between, unless the Project is deleted.
pub consume_once :
    (p : Platform) (json : Codec AgentManifest) (r again : JoinRequest) (now later : Time)
    (db : HostDb) (host other : Project) (os : List Operation)
    → (consume_invitation p r now db).0 ≡ ok host
    → again.project_id ≡ r.project_id
    → again.invite_id ≡ r.invite_id
    → All (Allowed (Other r.project_id r.invite_id)) os
    → (consume_invitation p again later (perform_all p json os (consume_invitation p r now db).1)).0
      ≢ ok other
consume_once p json r again now later db host other os first same_project same_invite may =
    consume_used p again later _ other (
      rw (same_project, same_invite)
        (perform_all-Preserved (IsUsed-Preserved r.project_id r.invite_id) p json os _ may
          (consume_ok p r now db host first)))
