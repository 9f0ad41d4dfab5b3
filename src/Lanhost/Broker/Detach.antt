-- ===== src/Lanhost/Broker/Detach.antt =====
-- A provider leaves: `attach` and `detach` of internal/lanhost/broker.go.
use peercontext.Common.{
  ℕ, ◌≡◌, ◌≢◌, true, Option, none, some, inl, inr, [], ◌∷◌, String, arith, Bool-cases, Option-cases,
  ◌==◌, nat_eq, string_eq, ==_iff, ==_refl,
}
use peercontext.Common.Dict.{Dict, lookup, lookup-insert, lookup-insert_self}
use peercontext.Protocol.Model.{ProviderPayload}
use peercontext.Lanhost.Broker.{
  Broker, Provider, Pending, key_of, attach, detach, is_attached, try_send, disconnected,
  fail_pending,
}

-- Something is in the channel.
abbrev pub Woken : Dict ℕ ProviderPayload → ℕ → Type 0
Woken channels c = (payload : ProviderPayload) × (lookup c channels ≡ some payload)

try_send-Woken :
    (payload : ProviderPayload) (channels : Dict ℕ ProviderPayload) (c : ℕ)
    → Woken (try_send (some c) payload channels) c
unfolding try_send
try_send-Woken payload channels c = elim (Option-cases (lookup c channels)) [
  | inl e ↦ rw (e, try_send) (payload, lookup-insert_self c payload channels)
  | inr (old, e) ↦ rw (e, try_send) (old, e)
]

-- What is in a channel is never overwritten.
pub try_send-keeps :
    (to : Option ℕ) (payload sent : ProviderPayload) (channels : Dict ℕ ProviderPayload) (c : ℕ)
    → lookup c channels ≡ some sent
    → lookup c (try_send to payload channels) ≡ some sent
unfolding try_send
try_send-keeps none payload sent channels c h = h
try_send-keeps (some d) payload sent channels c h = elim (Option-cases (lookup d channels)) [
  | inl e ↦ ground (arith, e, lookup-insert d c payload channels, ==_iff d c)
  | inr (old, e) ↦ ground (arith, e)
]

fail_pending-keeps :
    (key agent_id : String) (ps : Dict String Pending) (channels : Dict ℕ ProviderPayload) (c : ℕ)
    (sent : ProviderPayload)
    → lookup c channels ≡ some sent
    → lookup c (fail_pending key agent_id ps channels) ≡ some sent
unfolding fail_pending
fail_pending-keeps key agent_id [] channels c sent h = h
fail_pending-keeps key agent_id ((id, q) ∷ ps) channels c sent h =
    elim (Bool-cases (q.provider == key)) [
      | inl e ↦
          rw (e, fail_pending)
            (fail_pending-keeps key agent_id ps _ c sent
              (try_send-keeps q.result (disconnected agent_id id) sent channels c h))
      | inr e ↦ rw (e, fail_pending) (fail_pending-keeps key agent_id ps channels c sent h)
    ]

fail_pending-Woken :
    (key agent_id request_id : String) (ps : Dict String Pending)
    (channels : Dict ℕ ProviderPayload) (q : Pending) (c : ℕ)
    → lookup request_id ps ≡ some q
    → q.provider ≡ key
    → q.result ≡ some c
    → Woken (fail_pending key agent_id ps channels) c
unfolding fail_pending lookup
fail_pending-Woken key agent_id request_id [] channels q c h k r = absurd (ground arith)
fail_pending-Woken key agent_id request_id ((id, first) ∷ ps) channels q c h k r =
    elim (Bool-cases (id == request_id)) [
      | inl e ↦
          let same : first ≡ q = ground (arith, e) in
          let mine : (first.provider == key) ≡ true = ground (arith, ==_iff first.provider key) in
          let sent : first.result ≡ some c = ground arith in
          let (payload, woken) = try_send-Woken (disconnected agent_id id) channels c in
          rw (mine, sent, fail_pending)
            (payload, fail_pending-keeps key agent_id ps _ c payload woken)
      | inr e ↦ fail_pending-Woken key agent_id request_id ps _ q c (ground (arith, e)) k r
    ]

-- When a connection is replaced by a newer one at another address for the same Agent, detaching the
-- older one changes nothing.
pub detach-attach :
    (b : Broker) (old newer : Provider)
    → key_of old ≡ key_of newer
    → old.address ≢ newer.address
    → detach (attach b newer).1 old ≡ (attach b newer).1
unfolding detach attach
detach-attach b old newer same differs =
    let now = lookup-insert_self (key_of newer) newer b.providers in
    ground (arith, now, same, ==_iff newer.address old.address)

-- When the attached connection of a provider is detached, each request that waits for the provider with
-- a channel
-- finds something in its channel: what was there before, or the failure that says that the Agent
-- is gone.
pub detach-Woken :
    (b : Broker) (provider : Provider) (request_id : String) (q : Pending) (c : ℕ)
    → lookup (key_of provider) b.providers ≡ some provider
    → lookup request_id b.pending ≡ some q
    → q.provider ≡ key_of provider
    → q.result ≡ some c
    → Woken (detach b provider).channels c
unfolding detach
detach-Woken b provider request_id q c attached waits mine sends =
    let here : is_attached b provider ≡ true = ground (arith, attached, ==_refl provider.address) in
    rw (here, detach)
      (fail_pending-Woken (key_of provider) provider.agent_id request_id b.pending b.channels q c
        waits mine sends)
