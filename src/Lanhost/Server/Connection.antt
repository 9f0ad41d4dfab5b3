-- ===== src/Lanhost/Server/Connection.antt =====
-- `handleProvider` of internal/lanhost/server.go: a provider connects, is heard, and leaves.
pub mod Owner
use peercontext.Common.{
  ℕ, Bool, true, false, not, Option, none, some, List, [], ◌∷◌, String, ◌==◌, string_eq,
  if◌then◌else◌,
}
use peercontext.Errors.{Result, ok, err}
use peercontext.Protocol.Time.{Time}
use peercontext.Protocol.Platform.{Platform}
use peercontext.Protocol.Model.{Member, Agent}
use peercontext.Protocol.Signing.{SignedMessage, new_signed_reply}
use peercontext.Lanhost.Store.Agents.{agent, set_agent_online}
use peercontext.Lanhost.Broker.{Provider, attach, detach, receive}
use peercontext.Lanhost.Wire.{HostIdentity, kind_provider_connect}
use peercontext.Lanhost.Server.Host.{Host, Json, World, HttpResponse, http_error, on_store}
use peercontext.Lanhost.Server.Auth.{authenticate}

-- What the handler comes to: a refusal, a failed upgrade, or a connection, with the message that
-- its response header carries and the connection that it replaces and closes.
pub data Opened : Type 0 where
  refused : HttpResponse → Opened
  not_upgraded : Opened
  connected : Provider → SignedMessage → Option Provider → Opened

-- the store's answer is dropped
after_store : {A : Type 0} → Result A × Host → Host
after_store (r, s) = s

module _ (p : Platform) (json : Json) (w : World) (upgraded : Bool) (address : ℕ) where
  new_provider : SignedMessage → Member → Agent → Provider
  new_provider m sender target = record {
    address = address;
    project_id = m.project_id;
    agent_id = target.id;
    member_id = sender.id;
    key = sender.public_key;
  }

  attach_provider : SignedMessage → Provider → Host → Opened × Host
  unfolding attach set_agent_online on_store after_store
  attach_provider hello provider s =
      let (old, broker) = attach s.broker provider in
      (
        connected provider hello old,
        after_store (
            on_store
              (set_agent_online p json.manifest provider.project_id provider.agent_id
                provider.member_id true w.later)
              (record s { broker = broker })),
      )

  greet : SignedMessage → Member → Agent → Host → HostIdentity → Opened × Host
  unfolding attach_provider new_provider new_signed_reply
  greet m sender target s identity = elim w.nonce [
    | err e ↦ (refused (http_error 500 "host signing failed"), s)
    | ok nonce ↦
        if not upgraded
        then (not_upgraded, s)
        else attach_provider
            (new_signed_reply p m.project_id identity.member_id "provider.connected" "GET"
              "/v2/provider" m.nonce nonce (json.marshal_connect (record { agent_id = target.id }))
              w.later identity.private_key)
            (new_provider m sender target) s
  ]

  with_agent : SignedMessage → Member → Result Agent × Host → Opened × Host
  unfolding greet
  with_agent m sender (err e, s) = (refused (http_error 403 "provider does not own this Agent"), s)
  with_agent m sender (ok target, s) =
      if not (target.owner_member_id == sender.id)
      then (refused (http_error 403 "provider does not own this Agent"), s)
      else elim (w.host_identity m.project_id) [
        | err e ↦ (refused (http_error 503 "host identity unavailable"), s)
        | ok identity ↦ greet m sender target s identity
      ]

  with_sender : SignedMessage → Result Member × Host → Opened × Host
  unfolding with_agent on_store
  with_sender m (err e, s) = (refused (http_error 401 "provider authentication failed"), s)
  with_sender m (ok sender, s) = elim (json.provider_connect m.payload) [
    | none ↦ (refused (http_error 400 "provider request is invalid"), s)
    | some input ↦
        with_agent m sender (on_store (agent p json.manifest m.project_id input.agent_id) s)
  ]

  -- handleProvider up to its loop, given the header X-Peerctx-Auth
  unfoldable pub open_provider : String → Host → Opened × Host
  unfolding with_sender
  open_provider header s = elim (p.base64_decode header) [
    | none ↦ (refused (http_error 401 "provider authentication is missing"), s)
    | some bytes ↦ elim (json.signed_message bytes) [
      | none ↦ (refused (http_error 401 "provider authentication is invalid"), s)
      | some m ↦
          if not (m.kind == kind_provider_connect)
          then (refused (http_error 401 "provider authentication is invalid"), s)
          else with_sender m (authenticate p m "GET" "/v2/provider" w.now s)
    ]
  ]

module _ (p : Platform) (json : Json) where
  -- the deferred function: detach, then mark the Agent offline
  unfoldable pub close_provider : Provider → Time → Host → Host
  unfolding detach set_agent_online on_store after_store
  close_provider provider at s = after_store (
      on_store
        (set_agent_online p json.manifest provider.project_id provider.agent_id provider.member_id
          false at)
        (record s { broker = detach s.broker provider }))

  -- one round of the loop: false when the handler returns
  unfoldable pub hear : Provider → Option SignedMessage → Time → Host → Bool × Host
  unfolding receive
  hear provider none now s = (false, s)
  hear provider (some m) now s =
      let (r, broker) = receive p json.payload s.broker m provider now in
      (elim r [ ok _ ↦ true | err e ↦ false ], record s { broker = broker })

  -- The loop over what is read, `none` for a read that fails, each at its time, and the deferred
  -- function after the round that returns. While nothing has failed the connection stays open.
  unfoldable pub run_provider : Provider → List (Option SignedMessage × Time) → Host → Host
  unfolding hear close_provider
  run_provider provider [] s = s
  run_provider provider ((incoming, now) ∷ more) s =
      let (open_, s') = hear provider incoming now s in
      let rest = run_provider provider more s' in
      if open_ then rest else close_provider provider now s'
