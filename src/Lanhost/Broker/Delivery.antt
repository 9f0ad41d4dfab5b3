-- ===== src/Lanhost/Broker/Delivery.antt =====
-- What `receive` of internal/lanhost/broker.go delivers, and to whom.
use peercontext.Common.{
  ℕ, ◌≡◌, ◌≢◌, ◌≤◌, refl, sym, Bool-cases, true, false, length, if◌then◌else◌, Option, none, some,
  inl, inr, String, arith, Option-cases, nat_eq, string_eq, bytes_eq, ==_iff,
}
use peercontext.Common.Dict.{lookup, lookup-insert_self}
use peercontext.Errors.{GoError, plain, Result, ok, err, fail_if, or_error, Result-cases}
use peercontext.Errors
use peercontext.Protocol.Time.{Time}
use peercontext.Protocol.Platform.{Platform, Codec}
use peercontext.Protocol.Model.{
  Request, Response, ProviderPayload, ProviderMessageType, max_response_body_bytes,
  default_signature_max_age,
}
use peercontext.Protocol.Signing.{SignedMessage, verify_message}
use peercontext.Lanhost.Wire.{HostIdentity}
use peercontext.Lanhost.Broker.{
  Broker, Provider, Pending, Started, provider_key, try_send, start_dispatch,
  check_provider_message, sanitize, good_response, invalid_response, request_payload, match_pending,
  deliver, deliver_if_ok, receive,
}

-- The message answers the request that `q` stands for.
pub record Answers (q : Pending) (m : SignedMessage) : Type 0 where
  pub reply : m.reply_to ≡ q.reply_to
  pub some_reply : q.reply_to ≢ ""

match_pending_ok :
    (found : Option Pending) (m : SignedMessage) (c : Option ℕ)
    → match_pending found m ≡ ok c
    → (q : Pending) × (found ≡ some q) × (c ≡ q.result) × Answers q m
unfolding match_pending
match_pending_ok none m c h = absurd (ground arith)
match_pending_ok (some q) m c h = (
  q,
  refl,
  ground arith,
  record {
    reply = ground (arith, ==_iff m.reply_to q.reply_to);
    some_reply = λ e. ground (arith, ==_iff q.reply_to "");
  },
)

-- What was delivered, and where it went.
pub record Delivered (b : Broker) (m : SignedMessage) (payload : ProviderPayload) (after : Broker)
    : Type 0 where
  pub pending : Pending
  pub waits : lookup payload.request_id b.pending ≡ some pending
  pub answers : Answers pending m
  pub sent : after.channels ≡ try_send pending.result payload b.channels
  pub providers : after.providers ≡ b.providers
  pub still : after.pending ≡ b.pending

deliver_ok :
    (b : Broker) (m : SignedMessage) (payload : ProviderPayload)
    → (deliver b m payload).0 ≡ ok tt
    → Delivered b m payload (deliver b m payload).1
unfolding deliver
deliver_ok b m payload h =
    elim (Result-cases (match_pending (lookup payload.request_id b.pending) m)) [
      | inl (c, e) ↦
          let (q, found, same, answers) =
            match_pending_ok (lookup payload.request_id b.pending) m c e in
          record {
            pending = q;
            waits = found;
            answers = answers;
            sent = ground (arith, e, same);
            providers = ground (arith, e);
            still = ground (arith, e);
          }
      | inr (x, e) ↦ absurd (ground (arith, e))
    ]

deliver_err :
    (b : Broker) (m : SignedMessage) (payload : ProviderPayload) (x : GoError)
    → (deliver b m payload).0 ≡ err x
    → (deliver b m payload).1 ≡ b
unfolding deliver
deliver_err b m payload x h =
    elim (Result-cases (match_pending (lookup payload.request_id b.pending) m)) [
      | inl (c, e) ↦ absurd (ground (arith, e))
      | inr (y, e) ↦ rw (e, deliver) refl
    ]

-- What a request that was sent leaves in the broker.
record Sent (b : Broker) (r : Request) (nonce : String) (started : Started) (after : Broker)
    : Type 0 where
  pub channel : started.channel ≡ b.next_channel
  pub waits :
      lookup r.id after.pending
      ≡ some (record {
        provider = provider_key r.project_id r.agent_id;
        reply_to = nonce;
        result = some b.next_channel;
      })
  pub channels : after.channels ≡ b.channels

start_dispatch_ok :
    (p : Platform) (json : Codec ProviderPayload) (b : Broker) (r : Request)
    (identity : HostIdentity) (nonce : String) (now : Time) (started : Started)
    → (start_dispatch p json b r identity (ok nonce) now).0 ≡ ok started
    → Sent b r nonce started (start_dispatch p json b r identity (ok nonce) now).1
unfolding start_dispatch
start_dispatch_ok p json b r identity nonce now started h =
    elim (Option-cases (lookup (provider_key r.project_id r.agent_id) b.providers)) [
      | inl e ↦ absurd (ground (arith, e))
      | inr (provider, e) ↦ elim (Option-cases (json.marshal (request_payload r))) [
        | inl f ↦ absurd (ground (arith, e, f))
        | inr (bytes, f) ↦ record {
          channel = ground (arith, e, f);
          waits = rw (e, f, start_dispatch) (lookup-insert_self r.id _ b.pending);
          channels = rw (e, f, start_dispatch) refl;
        }
      ]
    ]

-- Once `dispatch` has begun under a nonce that is not empty, with a channel that is new, delivering
-- a payload for the request's identifier in a message that replies to that nonce succeeds and puts
-- the payload into the channel.
pub deliver-start_dispatch :
    (p : Platform) (json : Codec ProviderPayload) (b : Broker) (r : Request)
    (identity : HostIdentity) (nonce : String) (now : Time) (started : Started) (m : SignedMessage)
    (payload : ProviderPayload)
    → (start_dispatch p json b r identity (ok nonce) now).0 ≡ ok started
    → lookup b.next_channel b.channels ≡ none
    → payload.request_id ≡ r.id
    → m.reply_to ≡ nonce
    → nonce ≢ ""
    → let b' = (start_dispatch p json b r identity (ok nonce) now).1 in
      ((deliver b' m payload).0 ≡ ok tt)
      × (lookup started.channel (deliver b' m payload).1.channels ≡ some payload)
unfolding deliver match_pending try_send
deliver-start_dispatch p json b r identity nonce now started m payload h fresh id reply nonempty =
    let sent = start_dispatch_ok p json b r identity nonce now started h in
    let q : Pending = record {
      provider = provider_key r.project_id r.agent_id;
      reply_to = nonce;
      result = some b.next_channel;
    } in
    let found : lookup payload.request_id
          (start_dispatch p json b r identity (ok nonce) now).1.pending
        ≡ some q =
      rw id sent.waits in
    let matched : match_pending (some q) m ≡ ok q.result =
      ground (arith, ==_iff nonce "", ==_iff m.reply_to nonce) in
    let here = lookup-insert_self b.next_channel payload b.channels in
    (
      rw (found, matched, deliver) refl,
      rw (found, matched, deliver, sent.channel, sent.channels, fresh, try_send, sent.channels)
          here,
    )

-- Who a message that was delivered is from.
pub record FromProvider (p : Platform) (m : SignedMessage) (provider : Provider) (now : Time)
    : Type 0 where
  pub project : m.project_id ≡ provider.project_id
  pub sender : m.sender_id ≡ provider.member_id
  pub method : m.method ≡ "WS"
  pub path : m.path ≡ "/v2/provider"
  pub signed : verify_message p m provider.key now default_signature_max_age ≡ ok tt

-- A response that is there, names the request of its payload, and is at most 2 MiB long.
pub record IsGood (got : ProviderPayload) : Type 0 where
  pub response : Response
  pub there : got.response ≡ some response
  pub named : response.request_id ≡ got.request_id
  pub small : length response.answer ≤ max_response_body_bytes

-- What is passed on of a provider's payload: a failure and a good response as they are, and a
-- failure of the protocol in place of a bad response.
pub data PassedOn (got payload : ProviderPayload) : Type 0 where
  failed : got.type ≡ ProviderMessageType.failure → payload ≡ got → PassedOn got payload
  responded :
      got.type ≡ ProviderMessageType.response → IsGood got → payload ≡ got → PassedOn got payload
  replaced :
      got.type ≡ ProviderMessageType.response
      → ¬ (IsGood got)
      → payload ≡ record got {
        type = ProviderMessageType.failure;
        response = none;
        failure = some (record {
          schema_version = 2;
          request_id = got.request_id;
          code = "provider_protocol_error";
          message = "provider response is invalid";
          retryable = false;
        });
      }
      → PassedOn got payload

good_response-IsGood : (got : ProviderPayload) → good_response got ≡ true → IsGood got
unfolding good_response
good_response-IsGood got h = elim (Option-cases got.response) [
  | inl e ↦ absurd (ground (arith, e))
  | inr (r, e) ↦ record {
    response = r;
    there = e;
    named = ground (arith, e, ==_iff r.request_id got.request_id);
    small = ground (arith, e);
  }
]

IsGood-good_response : (got : ProviderPayload) → IsGood got → good_response got ≡ true
unfolding good_response
IsGood-good_response got g =
    ground (arith, g.there, g.small, g.named, ==_iff g.response.request_id got.request_id)

response-PassedOn :
    (got payload : ProviderPayload)
    → got.type ≡ ProviderMessageType.response
    → (if good_response got then got else invalid_response got) ≡ payload
    → PassedOn got payload
unfolding invalid_response
response-PassedOn got payload type h = elim (Bool-cases (good_response got)) [
  | inl e ↦ responded type (good_response-IsGood got e) (sym (rw e at h))
  | inr e ↦
      replaced type (λ g. absurd (ground (arith, e, IsGood-good_response got g))) (sym (rw e at h))
]

sanitize_ok :
    (type : ProviderMessageType) (got payload : ProviderPayload)
    → got.type ≡ type
    → sanitize type got ≡ ok payload
    → PassedOn got payload
unfolding sanitize
sanitize_ok ProviderMessageType.response got payload same h =
    response-PassedOn got payload same (ground arith)
sanitize_ok ProviderMessageType.failure got payload same h = failed same (ground arith)
sanitize_ok ProviderMessageType.ready got payload same h = absurd (ground arith)
sanitize_ok ProviderMessageType.request got payload same h = absurd (ground arith)
sanitize_ok ProviderMessageType.cancel got payload same h = absurd (ground arith)
sanitize_ok ProviderMessageType.ping got payload same h = absurd (ground arith)
sanitize_ok ProviderMessageType.pong got payload same h = absurd (ground arith)

bound :
    {A B : Type 0} (r : Result A) (f : A → Result B) (b : B)
    → Errors.◌>>=◌ r f ≡ ok b
    → (a : A) × (r ≡ ok a) × (f a ≡ ok b)
bound (ok a) f b h = (a, refl, h)
bound (err e) f b h = absurd (ground arith)

module _ (p : Platform) (json : Codec ProviderPayload) where
  check_provider_message_ok :
      (m : SignedMessage) (provider : Provider) (now : Time) (payload : ProviderPayload)
      → check_provider_message p json m provider now ≡ ok payload
      → FromProvider p m provider now × (json.unmarshal m.payload ≡ some payload)
  unfolding check_provider_message
  check_provider_message_ok m provider now payload h =
      elim (Result-cases (verify_message p m provider.key now default_signature_max_age)) [
        | inr (x, e) ↦ absurd (ground (arith, e))
        | inl (_, e) ↦ elim (Option-cases (json.unmarshal m.payload)) [
          | inl f ↦ absurd (ground (arith, e, f))
          | inr (got, f) ↦ (
            record {
              project = ground (arith, ==_iff m.project_id provider.project_id);
              sender = ground (arith, ==_iff m.sender_id provider.member_id);
              method = ground (arith, ==_iff m.method "WS");
              path = ground (arith, ==_iff m.path "/v2/provider");
              signed = e;
            },
            ground (arith, e, f),
          )
        ]
      ]

  deliver_if_ok_lem :
      (b : Broker) (m : SignedMessage) (checked : Result ProviderPayload)
      → (((deliver_if_ok b m checked).0 ≡ ok tt)
          → (payload : ProviderPayload) × (checked ≡ ok payload)
            × Delivered b m payload (deliver_if_ok b m checked).1)
        × ((x : GoError)
            → (deliver_if_ok b m checked).0 ≡ err x
            → (deliver_if_ok b m checked).1 ≡ b)
  unfolding deliver_if_ok
  deliver_if_ok_lem b m (err e) = (λ h. absurd (ground arith), λ x h. refl)
  deliver_if_ok_lem b m (ok payload) =
      (λ h. (payload, refl, deliver_ok b m payload h), λ x h. deliver_err b m payload x h)

  received :
      (b : Broker) (m : SignedMessage) (provider : Provider) (now : Time) → Result ProviderPayload
  received b m provider now =
      Errors.◌>>=◌ (check_provider_message p json m provider now) (λ q. sanitize q.type q)

  -- A message that `receive` takes was signed by the connection's own member with a time that is at most
  -- two minutes off, for the route of providers, and it answers the nonce of a request that waits. The
  -- payload that it decodes to is put into the channel of that request, if the channel is empty; in
  -- place of a response that is missing, names another request or is longer than 2 MiB, a failure of
  -- the protocol is. Nothing else changes.
  pub receive_ok :
      (b : Broker) (m : SignedMessage) (provider : Provider) (now : Time)
      → (receive p json b m provider now).0 ≡ ok tt
      → FromProvider p m provider now
        × ((got : ProviderPayload) × (payload : ProviderPayload) × (json.unmarshal m.payload
              ≡ some got)
            × PassedOn got payload
            × Delivered b m payload (receive p json b m provider now).1)
  unfolding receive received
  receive_ok b m provider now h =
      let (payload, e, delivered) = (deliver_if_ok_lem b m (received b m provider now)).0 h in
      let (got, checked, clean) =
        bound (check_provider_message p json m provider now) (λ q. sanitize q.type q) payload e in
      let (from, read) = check_provider_message_ok m provider now got checked in
      (from, (got, payload, read, sanitize_ok got.type got payload refl clean, delivered))

  -- A message that `receive` refuses changes nothing in the broker.
  pub receive_err :
      (b : Broker) (m : SignedMessage) (provider : Provider) (now : Time) (x : GoError)
      → (receive p json b m provider now).0 ≡ err x
      → (receive p json b m provider now).1 ≡ b
  unfolding receive received
  receive_err b m provider now x h = (deliver_if_ok_lem b m (received b m provider now)).1 x h
