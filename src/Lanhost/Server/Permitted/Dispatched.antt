-- ===== src/Lanhost/Server/Permitted/Dispatched.antt =====
-- That `dispatchRPC` of internal/lanhost/server.go does only what is permitted.
use peercontext.Common.{
  ◌≡◌, refl, ℕ, Bool, if◌then◌else◌, true, false, ◌⊎◌, inl, inr, String, Option-cases, Bool-cases,
  ◌==◌, string_eq,
}
use peercontext.Common.Text.{Bytes, concat}
use peercontext.Protocol.Time.{Time}
use peercontext.Errors.{GoError, plain}
use peercontext.Protocol.Platform.{Platform}
use peercontext.Protocol.Model.{Member}
use peercontext.Protocol.Signing.{SignedMessage}
use peercontext.Lanhost.Wire.{
  RpcResult, InviteCreateInput, kind_invite_create, kind_members_list, kind_member_remove,
  kind_agent_register, kind_agents_list, kind_agent_get, kind_agent_remove, kind_request_ask,
}
use peercontext.Lanhost.Sql.Effects.{query-Reads, lift-Reads, pure-Reads, bind-Reads}
use peercontext.Lanhost.Store.Members.{members, remove_member}
use peercontext.Lanhost.Store.Invitations.{add_invitation}
use peercontext.Lanhost.Store.Agents.{agents, register_agent, remove_agent}
use peercontext.Lanhost.Operations.{
  Operation, perform, inviting, removing, registering, unregistering,
}
use peercontext.Lanhost.Operations.Keys.{HasKeys}
use peercontext.Lanhost.Operations.Atomic.{agent-Reads, project-Reads}
use peercontext.Lanhost.Operations.Runs.{
  Runs, Acts, Reads-Acts, perform-Acts, bind-Acts, dropped_tables, Runs-imply, Runs-HasKeys,
}
use peercontext.Lanhost.Server.Host.{
  Host, Json, World, invitation_value, members_value, agents_value, agent_value,
}
use peercontext.Lanhost.Server.Invite.{create_invitation, make_invitation}
use peercontext.Lanhost.Server.Ask.{Serve, Wait}
use peercontext.Lanhost.Server.Rpc.{
  invite_create, invite_input, members_list, member_remove, agent_register, register_input,
  agents_list, agent_get, agent_remove, dispatch_rpc, refuse, mapped, removed,
}
use peercontext.Lanhost.Server.Permitted.{
  Permitted, may_invite, may_remove, may_register, may_unregister, Serves, still-Serves,
  store_reply-Serves,
}
use peercontext.Lanhost.Server.Permitted.Asked.{ask-Serves}

module _ (p : Platform) (json : Json) (w : World) (wait : Wait) (sender : Member)
    (m : SignedMessage) (P : Operation → Type 0)
    (allowed : (o : Operation) → Permitted sender m o → P o)
    (others : (s : Host) → Runs p json.manifest P s.db.tables (wait.others s).db.tables) where
  added-Acts :
      (id : String) (key : Bytes) (expires : Time)
      → sender.owner ≡ true
      → Acts p json.manifest P (add_invitation p m.project_id id key expires)
  unfolding perform
  added-Acts id key expires owner =
      perform-Acts p json.manifest P (add_invitation p m.project_id id key expires)
        (inviting m.project_id id key expires) (allowed _ (may_invite id key expires owner))
        (λ db. refl)

  create_invitation-Acts :
      (input : InviteCreateInput)
      → sender.owner ≡ true
      → Acts p json.manifest P (create_invitation p w m.project_id input)
  unfolding create_invitation perform
  create_invitation-Acts input owner =
      bind-Acts p json.manifest P _ _
        (Reads-Acts p json.manifest P _ (project-Reads p m.project_id))
        (λ host.
          bind-Acts p json.manifest P _ _ (Reads-Acts p json.manifest P _ (lift-Reads w.new_key))
            (λ key.
              let i = make_invitation p w host input key in
              bind-Acts p json.manifest P _ _
                (added-Acts i.invite_id (p.public_key key) i.expires_at owner)
                (λ _. Reads-Acts p json.manifest P _ (pure-Reads i))))

  invite_create-Serves : Serves p json P (invite_create p json w wait sender m)
  unfolding invite_create
  invite_create-Serves = elim (Bool-cases sender.owner) [
    | inr e ↦ rw (invite_create, e) (still-Serves p json P _)
    | inl e ↦ elim (Option-cases (invite_input json m.payload)) [
      | inl f ↦ rw (invite_create, e, f) (still-Serves p json P _)
      | inr (input, f) ↦
          rw (invite_create, e, f)
            (store_reply-Serves p json P (mapped invitation_value) _
              (create_invitation-Acts input e))
    ]
  ]

  members_list-Serves : Serves p json P (members_list p json w wait sender m)
  unfolding members_list members
  members_list-Serves = store_reply-Serves p json P (mapped members_value) _ (
      Reads-Acts p json.manifest P _
        (bind-Reads _ _ (project-Reads p m.project_id) (λ host. query-Reads _)))

  agents_list-Serves : Serves p json P (agents_list p json w wait sender m)
  unfolding agents_list agents
  agents_list-Serves =
      store_reply-Serves p json P (mapped agents_value) _
        (Reads-Acts p json.manifest P _ (query-Reads _))

  member_remove-Serves : Serves p json P (member_remove p json w wait sender m)
  unfolding member_remove perform
  member_remove-Serves = elim (Option-cases (json.member_remove m.payload)) [
    | inl e ↦ rw (member_remove, e) (still-Serves p json P _)
    | inr (input, e) ↦
        rw (member_remove, e)
          (store_reply-Serves p json P removed _ (
            perform-Acts p json.manifest P (remove_member p m.project_id sender.id input.member_id)
              (removing m.project_id sender.id input.member_id)
              (allowed _ (may_remove input.member_id)) (λ db. refl)))
  ]

  agent_register-Serves : Serves p json P (agent_register p json w wait sender m)
  unfolding agent_register perform
  agent_register-Serves = elim (Option-cases (register_input json m.payload)) [
    | inl e ↦ rw (agent_register, e) (still-Serves p json P _)
    | inr (input, e) ↦
        rw (agent_register, e)
          (store_reply-Serves p json P (mapped agent_value) _ (
            perform-Acts p json.manifest P
              (register_agent p json.manifest m.project_id sender.id input.agent_id input.manifest
                w.later)
              (registering m.project_id sender.id input.agent_id input.manifest w.later)
              (allowed _ (may_register input.agent_id input.manifest w.later))
              (λ db. dropped_tables _)))
  ]

  agent_get-Serves : Serves p json P (agent_get p json w wait sender m)
  unfolding agent_get
  agent_get-Serves = elim (Option-cases (json.agent_selector m.payload)) [
    | inl e ↦ rw (agent_get, e) (still-Serves p json P _)
    | inr (input, e) ↦
        rw (agent_get, e)
          (store_reply-Serves p json P (mapped agent_value) _
            (Reads-Acts p json.manifest P _ (agent-Reads p json.manifest m.project_id input.agent)))
  ]

  agent_remove-Serves : Serves p json P (agent_remove p json w wait sender m)
  unfolding agent_remove perform
  agent_remove-Serves = elim (Option-cases (json.agent_selector m.payload)) [
    | inl e ↦ rw (agent_remove, e) (still-Serves p json P _)
    | inr (input, e) ↦
        rw (agent_remove, e)
          (store_reply-Serves p json P removed _ (
            perform-Acts p json.manifest P
              (remove_agent p json.manifest m.project_id sender.id input.agent)
              (unregistering m.project_id sender.id input.agent)
              (allowed _ (may_unregister input.agent)) (λ db. refl)))
  ]

  either :
      (test : Bool) (f g : Serve (RpcResult × ℕ))
      → Serves p json P f
      → Serves p json P g
      → Serves p json P (if test then f else g)
  either true f g holds fails = holds
  either false f g holds fails = fails

  unknown-Serves :
      (code : String) (e : GoError) (status : ℕ) → Serves p json P (refuse code e status)
  unknown-Serves code e status = still-Serves p json P _

  dispatch_rpc-Serves : Serves p json P (dispatch_rpc p json w wait sender m)
  unfolding dispatch_rpc
  dispatch_rpc-Serves = either (m.kind == kind_invite_create) _ _ invite_create-Serves (
      either (m.kind == kind_members_list) _ _ members_list-Serves (
        either (m.kind == kind_member_remove) _ _ member_remove-Serves (
          either (m.kind == kind_agent_register) _ _ agent_register-Serves (
            either (m.kind == kind_agents_list) _ _ agents_list-Serves (
              either (m.kind == kind_agent_get) _ _ agent_get-Serves (
                either (m.kind == kind_agent_remove) _ _ agent_remove-Serves (
                  either (m.kind == kind_request_ask) _ _
                    (ask-Serves p json w wait sender m P allowed others)
                    (unknown-Serves "unknown_operation" (plain (concat "unknown operation " m.kind))
                      404))))))))

module _ (p : Platform) (json : Json) (w : World) (wait : Wait) (sender : Member)
    (m : SignedMessage) (Q : Operation → Type 0) where
  -- What `dispatchRPC` does to the database for a message of a member is a sequence of calls of the
  -- store that are permitted to this member by this message: in the Project of the message it adds an
  -- invitation only if the member is the owner, and removes members, registers and removes Agents and
  -- adds requests only in the name of the member. What other handlers do while the answer of a
  -- provider is awaited may come in between, and is assumed to be calls of the store, too. The keys of
  -- the tables are kept.
  pub dispatch_rpc-Runs :
      (s : Host)
      → ((t : Host) → Runs p json.manifest Q t.db.tables (wait.others t).db.tables)
      → HasKeys s.db.tables
      → Runs p json.manifest
          (λ o. Permitted sender m o ⊎ Q o)
          s.db.tables
          (dispatch_rpc p json w wait sender m s).1.db.tables
        × HasKeys (dispatch_rpc p json w wait sender m s).1.db.tables
  dispatch_rpc-Runs s others keys =
      let run =
        (dispatch_rpc-Serves p json w wait sender m (λ o. Permitted sender m o ⊎ Q o) (λ o h. inl h)
            (λ t. Runs-imply p json.manifest Q _ _ _ (λ o h. inr h) (others t))).run
          s in
      (run, Runs-HasKeys p json.manifest _ _ _ run keys)
