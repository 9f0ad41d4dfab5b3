-- ===== src/Lanhost/Server/Rpc.antt =====
-- `handleRPC` and `dispatchRPC` of internal/lanhost/server.go.
use peercontext.Common.{
  ℕ, ◌*◌, ◌-◌, Bool, true, false, not, ◌||◌, Option, none, some, [], ◌∷◌, String, ◌==◌, nat_eq,
  string_eq, if◌then◌else◌,
}
use peercontext.Common.Int.{pos}
use peercontext.Common.Text.{Bytes, concat}
use peercontext.Errors.{GoError, sentinel, plain, member_forbidden, Result, ok, err}
use peercontext.Protocol.Platform.{Platform}
use peercontext.Protocol.Model.{Member, validate_manifest}
use peercontext.Protocol.Signing.{SignedMessage}
use peercontext.Lanhost.Store.Tables.{StoreM}
use peercontext.Lanhost.Store.Members.{members, remove_member}
use peercontext.Lanhost.Store.Agents.{agent, agents, register_agent, remove_agent}
use peercontext.Lanhost.Wire.{
  RpcResult, InviteCreateInput, AgentRegisterInput, kind_invite_create, kind_members_list,
  kind_member_remove, kind_agent_register, kind_agents_list, kind_agent_get, kind_agent_remove,
  kind_request_ask,
}
use peercontext.Lanhost.Server.Host.{
  Host, Json, World, Value, HttpResponse, http_error, invitation_value, members_value, agents_value,
  agent_value, removed_value, on_store, write_signed,
}
use peercontext.Lanhost.Server.Failures.{rpc_failure, rpc_failure_for, encode_result}
use peercontext.Lanhost.Server.Auth.{authenticate}
use peercontext.Lanhost.Server.Invite.{create_invitation}
use peercontext.Lanhost.Server.Ask.{Outcome, next, reply, waiting, Serve, Wait, ask}

-- protocolv2.MaxWireMessageBytes
abbrev pub max_wire_message_bytes : ℕ
max_wire_message_bytes = 8 * 1024 * 1024

-- io.LimitReader
unfoldable pub limited : ℕ → Bytes → Bytes
limited n [] = []
limited n (b ∷ bs) = let rest = limited (n - 1) bs in if n == 0 then [] else b ∷ rest

-- decodeJSON: the decoder sees the bytes below the limit
unfoldable pub decode_json : {A : Type 0} → (Bytes → Option A) → ℕ → Bytes → Option A
unfolding limited
decode_json unmarshal limit body = unmarshal (limited limit body)

module _ {A : Type 0} (json : Json) (value : Result A → Result Value) where
  -- a call of the store, encoded as the reply
  unfoldable pub store_reply : StoreM A → Serve (RpcResult × ℕ)
  unfolding on_store encode_result
  store_reply m s = let (r, s') = on_store m s in (next (encode_result json (value r)), s')

abbrev pub mapped : {A : Type 0} → (A → Value) → Result A → Result Value
mapped f (ok a) = ok (f a)
mapped f (err e) = err e

-- map[string]bool{"removed": err == nil}
abbrev pub removed : Result (Unit {0}) → Result Value
removed (ok _) = ok (removed_value true)
removed (err e) = err e

abbrev pub refuse : String → GoError → ℕ → Serve (RpcResult × ℕ)
refuse code e status s = (next (rpc_failure code e false, status), s)

-- the options of an invitation: none are given with an empty payload
unfoldable pub invite_input : Json → Bytes → Option InviteCreateInput
invite_input json [] = some (record { ttl_seconds = pos 0 })
invite_input json (b ∷ bs) = json.invite_create (b ∷ bs)

is_error : Result (Unit {0}) → Bool
is_error (ok _) = false
is_error (err e) = true

-- json.Unmarshal and the two tests of agent.register
unfoldable pub register_input : Json → Bytes → Option AgentRegisterInput
unfolding validate_manifest is_error
register_input json payload = elim (json.agent_register payload) [
  | none ↦ none
  | some input ↦
      if input.agent_id == "" || is_error (validate_manifest input.manifest)
      then none
      else some input
]

module _ (p : Platform) (json : Json) (w : World) (wait : Wait) (sender : Member)
    (m : SignedMessage) where
  unfoldable pub invite_create : Serve (RpcResult × ℕ)
  unfolding invite_input store_reply
  invite_create =
      if not sender.owner
      then refuse "forbidden" (sentinel member_forbidden) 403
      else elim (invite_input json m.payload) [
        | none ↦ refuse "invalid_request" (plain "invalid invitation options") 400
        | some input ↦
            store_reply json (mapped invitation_value) (create_invitation p w m.project_id input)
      ]

  unfoldable pub members_list : Serve (RpcResult × ℕ)
  unfolding store_reply
  members_list = store_reply json (mapped members_value) (members p m.project_id)

  unfoldable pub member_remove : Serve (RpcResult × ℕ)
  unfolding store_reply
  member_remove = elim (json.member_remove m.payload) [
    | none ↦ refuse "invalid_request" (plain "json") 400
    | some input ↦ store_reply json removed (remove_member p m.project_id sender.id input.member_id)
  ]

  unfoldable pub agent_register : Serve (RpcResult × ℕ)
  unfolding register_input store_reply
  agent_register = elim (register_input json m.payload) [
    | none ↦ refuse "invalid_request" (plain "invalid Agent manifest") 400
    | some input ↦ store_reply json (mapped agent_value) (
        register_agent p json.manifest m.project_id sender.id input.agent_id input.manifest w.later)
  ]

  unfoldable pub agents_list : Serve (RpcResult × ℕ)
  unfolding store_reply
  agents_list = store_reply json (mapped agents_value) (agents p json.manifest m.project_id)

  unfoldable pub agent_get : Serve (RpcResult × ℕ)
  unfolding store_reply
  agent_get = elim (json.agent_selector m.payload) [
    | none ↦ refuse "invalid_request" (plain "json") 400
    | some input ↦
        store_reply json (mapped agent_value) (agent p json.manifest m.project_id input.agent)
  ]

  unfoldable pub agent_remove : Serve (RpcResult × ℕ)
  unfolding store_reply
  agent_remove = elim (json.agent_selector m.payload) [
    | none ↦ refuse "invalid_request" (plain "json") 400
    | some input ↦
        store_reply json removed (remove_agent p json.manifest m.project_id sender.id input.agent)
  ]

  -- dispatchRPC
  unfoldable pub dispatch_rpc : Serve (RpcResult × ℕ)
  unfolding invite_create members_list member_remove agent_register agents_list agent_get
      agent_remove
  dispatch_rpc =
      if m.kind == kind_invite_create
      then invite_create
      else if m.kind == kind_members_list
      then members_list
      else if m.kind == kind_member_remove
      then member_remove
      else if m.kind == kind_agent_register
      then agent_register
      else if m.kind == kind_agents_list
      then agents_list
      else if m.kind == kind_agent_get
      then agent_get
      else if m.kind == kind_agent_remove
      then agent_remove
      else if m.kind == kind_request_ask
      then ask p json w wait sender m
      else refuse "unknown_operation" (plain (concat "unknown operation " m.kind)) 404

module _ (p : Platform) (json : Json) (w : World) (wait : Wait) where
  -- writeSigned of the reply, once there is one
  answer : SignedMessage → Outcome (RpcResult × ℕ) → Option HttpResponse
  unfolding write_signed
  answer m (next (r, n)) =
      some (
        write_signed p json w m.project_id (concat m.kind ".response") "POST" "/v2/rpc" m.nonce r n)
  answer m (reply r n) =
      some (
        write_signed p json w m.project_id (concat m.kind ".response") "POST" "/v2/rpc" m.nonce r n)
  answer m waiting = none

  serve_message : SignedMessage → Result Member × Host → Option HttpResponse × Host
  unfolding answer rpc_failure_for dispatch_rpc
  serve_message m (err e, s) =
      (answer m (next (rpc_failure_for "authorization_failed" e false, 401)), s)
  serve_message m (ok sender, s) =
      let (o, s') = dispatch_rpc p json w wait sender m s in (answer m o, s')

  -- handleRPC; none while an answer is awaited
  unfoldable pub handle_rpc : Bytes → Host → Option HttpResponse × Host
  unfolding decode_json serve_message
  handle_rpc body s = elim (decode_json json.signed_message max_wire_message_bytes body) [
    | none ↦ (some (http_error 400 "invalid signed request"), s)
    | some m ↦ serve_message m (authenticate p m "POST" "/v2/rpc" w.now s)
  ]
