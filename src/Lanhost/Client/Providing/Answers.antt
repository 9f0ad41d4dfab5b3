-- ===== src/Lanhost/Client/Providing/Answers.antt =====
-- What the owner of an Agent answers, in the loop of `runProviderEndpoint` of
-- internal/lanhost/client.go, and that the host's broker takes it.
use peercontext.Common.{
  ◌≡◌, refl, subst, ◌+◌, ◌≤◌, inl, inr, true, false, ◌||◌, none, some, List, [], ◌∷◌, String,
  length, ltb, arith, Bool-cases, Option-cases, ◌==◌, nat_eq, string_eq, ==_iff,
}
use peercontext.Common.Text.{Bytes}
use peercontext.Errors.{ok, Result-cases}
use peercontext.Protocol.Time.{Time}
use peercontext.Protocol.Platform.{Platform, Codec}
use peercontext.Protocol.Model.{
  Request, Response, ProviderPayload, ProviderMessageType, max_response_body_bytes,
  default_signature_max_age,
}
use peercontext.Protocol.Signing.{SignedMessage, verify_message, public_key_size, new_signed_reply}
use peercontext.Protocol.Signing.Fresh.{signed_reply-verifies}
use peercontext.Lanhost.Replay.{ReplayGuard, accept}
use peercontext.Lanhost.Broker.{Provider, check_provider_message}
use peercontext.Lanhost.Client.{Client}
use peercontext.Lanhost.Client.Providing.{
  Answered, Frame, outgoing, outgoing_type, payload_of, failure_of, signed_answer, or_empty_bytes,
  checked_frame, incoming_request, answer_frame, written, serve_frame, serve_frames, request_of,
}

outgoing-small :
    (agent_id request_id : String) (answered : Answered) (response : Response)
    → (outgoing agent_id request_id answered).response ≡ some response
    → length response.answer ≤ max_response_body_bytes
unfolding outgoing payload_of failure_of
outgoing-small agent_id request_id (given, some failure) response h = absurd (ground arith)
outgoing-small agent_id request_id (given, none) response h =
    elim (Bool-cases (ltb max_response_body_bytes (length given.answer))) [
      | inl e ↦ absurd (ground (arith, e))
      | inr e ↦ ground (arith, e)
    ]

module _ (p : Platform) (json : Codec ProviderPayload) (member_id agent_id : String)
    (private_key : Bytes) where
  -- The message answers the request of a frame, which the host signed at most two minutes from the time
  -- at which it is checked, on the route of providers, with a nonce that is new to what was seen; it
  -- carries what the handler of the frame answers, or a failure in place of a response over 2 MiB.
  pub record IsReply (key : Bytes) (seen : ReplayGuard) (frame : Frame) (asked m : SignedMessage)
      : Type 0 where
    pub read : frame.read ≡ ok asked
    pub signed : verify_message p asked key frame.verified_at default_signature_max_age ≡ ok tt
    pub method : asked.method ≡ "WS"
    pub path : asked.path ≡ "/v2/provider"
    pub fresh : (accept seen asked frame.accepted_at).0 ≡ ok tt
    pub incoming : ProviderPayload
    pub carried : json.unmarshal asked.payload ≡ some incoming
    pub request : Request
    pub requested : request_of incoming ≡ some request
    pub reply : m.reply_to ≡ asked.nonce
    pub payload :
        m.payload
        ≡ or_empty_bytes
            (json.marshal (outgoing agent_id incoming.request_id (frame.handler request)))
    pub small :
        (response : Response)
        → (outgoing agent_id incoming.request_id (frame.handler request)).response ≡ some response
        → length response.answer ≤ max_response_body_bytes

  -- Each message that is sent answers the frame at its place, given the nonces seen before it.
  pub data AreReplies (key : Bytes) : List Frame → ReplayGuard → List SignedMessage → Type 0 where
    no_more : (frames : List Frame) (seen : ReplayGuard) → AreReplies key frames seen []
    replied :
        (frame : Frame) (more : List Frame) (seen : ReplayGuard) (asked m : SignedMessage)
        (sent : List SignedMessage)
        → IsReply key seen frame asked m
        → AreReplies key more (accept seen asked frame.accepted_at).1 sent
        → AreReplies key (frame ∷ more) seen (m ∷ sent)

  -- A message of the host that passes.
  record IsAsked (key : Bytes) (frame : Frame) (m : SignedMessage) : Type 0 where
    read : frame.read ≡ ok m
    signed : verify_message p m key frame.verified_at default_signature_max_age ≡ ok tt
    method : m.method ≡ "WS"
    path : m.path ≡ "/v2/provider"

  checked_frame-IsAsked :
      (key : Bytes) (frame : Frame) (m : SignedMessage)
      → checked_frame p json member_id agent_id private_key key frame ≡ ok m
      → IsAsked key frame m
  unfolding checked_frame
  checked_frame-IsAsked key frame m h = elim (Result-cases frame.read) [
    | inr (x, e) ↦ absurd (ground (arith, e))
    | inl (n, e) ↦
        elim (Result-cases (verify_message p n key frame.verified_at default_signature_max_age)) [
          | inr (x, f) ↦ absurd (ground (arith, e, f))
          | inl (u, f) ↦
              let same : n ≡ m = ground (arith, e, f) in
              subst (λ (q : SignedMessage). IsAsked key frame q) same
                (record {
                  read = e;
                  signed = f;
                  method = ground (arith, e, f, ==_iff n.method "WS");
                  path = ground (arith, e, f, ==_iff n.path "/v2/provider");
                })
        ]
  ]

  answer_frame-IsReply :
      (project_id : String) (key : Bytes) (seen : ReplayGuard) (frame : Frame)
      (asked m : SignedMessage)
      → IsAsked key frame asked
      → (accept seen asked frame.accepted_at).0 ≡ ok tt
      → answer_frame p json member_id agent_id private_key project_id frame asked ≡ ok m
      → IsReply key seen frame asked m
  unfolding answer_frame incoming_request signed_answer written new_signed_reply
  answer_frame-IsReply project_id key seen frame asked m ask fresh h =
      elim (Option-cases (json.unmarshal asked.payload)) [
        | inl e ↦ absurd (ground (arith, e))
        | inr (incoming, e) ↦ elim (Option-cases (request_of incoming)) [
          | inl f ↦ absurd (ground (arith, e, f))
          | inr (request, f) ↦ elim (Result-cases frame.nonce) [
            | inr (x, g) ↦ absurd (ground (arith, e, f, g))
            | inl (nonce, g) ↦ elim (Option-cases frame.write_error) [
              | inr (x, w) ↦ absurd (ground (arith, e, f, g, w))
              | inl w ↦
                  let answered = frame.handler request in
                  let payload = outgoing agent_id incoming.request_id answered in
                  let signed =
                    new_signed_reply p project_id member_id (outgoing_type payload.type) "WS"
                      "/v2/provider" asked.nonce nonce (or_empty_bytes (json.marshal payload))
                      frame.signed_at private_key in
                  let same : signed ≡ m = ground (arith, e, f, g, w) in
                  subst (λ (q : SignedMessage). IsReply key seen frame asked q) same
                    (record {
                      read = ask.read;
                      signed = ask.signed;
                      method = ask.method;
                      path = ask.path;
                      fresh = fresh;
                      incoming = incoming;
                      carried = e;
                      request = request;
                      requested = f;
                      reply = refl;
                      payload = refl;
                      small = λ response k.
                          outgoing-small agent_id incoming.request_id answered response k;
                    })
            ]
          ]
        ]
      ]

  -- A round that answers, with the key and the nonces after it.
  record Round (frame : Frame) (c d : Client) (m : SignedMessage) : Type 0 where
    asked : SignedMessage
    is_reply : IsReply c.host_public_key c.replays frame asked m
    key : d.host_public_key ≡ c.host_public_key
    seen : d.replays ≡ (accept c.replays asked frame.accepted_at).1

  serve_frame-Round :
      (frame : Frame) (c : Client) (m : SignedMessage)
      → (serve_frame p json member_id agent_id private_key frame c).0 ≡ ok m
      → Round frame c (serve_frame p json member_id agent_id private_key frame c).1 m
  unfolding serve_frame
  serve_frame-Round frame c m h =
      elim (Result-cases
        (checked_frame p json member_id agent_id private_key c.host_public_key frame)) [
          | inr (x, e) ↦ absurd (ground (arith, e))
          | inl (asked, e) ↦ elim (Result-cases (accept c.replays asked frame.accepted_at).0) [
            | inr (x, f) ↦ absurd (ground (arith, e, f))
            | inl (u, f) ↦
                let is_reply =
                  answer_frame-IsReply c.project_id c.host_public_key c.replays frame asked m
                    (checked_frame-IsAsked c.host_public_key frame asked e) f
                    (rw (e, serve_frame, f) at h) in
                record {
                  asked = asked;
                  is_reply = is_reply;
                  key = rw (e, serve_frame) refl;
                  seen = rw (e, serve_frame) refl;
                }
          ]
        ]

  -- The messages that the owner of an Agent sends in the loop answer the frames one by one, from the
  -- first on. Each of these frames holds a message that the host has signed at most two minutes from
  -- the time at which the frame is checked, under the key that the client holds, on the route of
  -- providers, and with a nonce that is new to the client after the frames before it. The answer
  -- replies to its nonce and carries what the handler answers to its request, or a failure in place
  -- of a response of more than 2 MiB.
  pub serve_frames-AreReplies :
      (frames : List Frame) (c : Client)
      → AreReplies c.host_public_key frames c.replays
          (serve_frames p json member_id agent_id private_key frames c).2
  unfolding serve_frames
  serve_frames-AreReplies [] c = no_more [] c.replays
  serve_frames-AreReplies (frame ∷ more) c =
      let served = serve_frame p json member_id agent_id private_key frame c in
      let sent = (serve_frames p json member_id agent_id private_key more served.1).2 in
      elim (Result-cases served.0) [
        | inr (x, e) ↦ rw (e, serve_frames) (no_more (frame ∷ more) c.replays)
        | inl (signed, e) ↦
            let round = serve_frame-Round frame c signed e in
            let rest = serve_frames-AreReplies more served.1 in
            rw (e, serve_frames)
              (replied frame more c.replays round.asked signed sent round.is_reply (
                subst (λ (g : ReplayGuard). AreReplies c.host_public_key more g sent) round.seen
                  (subst (λ (k : Bytes). AreReplies k more served.1.replays sent) round.key rest)))
      ]

  outgoing_type_named : (type : ProviderMessageType) → (outgoing_type type == "") ≡ false
  unfolding outgoing_type
  outgoing_type_named ProviderMessageType.ready = refl
  outgoing_type_named ProviderMessageType.request = refl
  outgoing_type_named ProviderMessageType.response = refl
  outgoing_type_named ProviderMessageType.failure = refl
  outgoing_type_named ProviderMessageType.cancel = refl
  outgoing_type_named ProviderMessageType.ping = refl
  outgoing_type_named ProviderMessageType.pong = refl

  -- the checks of the broker, one by one
  accepted :
      (project_id : String) (m : SignedMessage) (provider : Provider) (now : Time)
      (payload : ProviderPayload)
      → m.project_id ≡ project_id
      → m.sender_id ≡ member_id
      → m.method ≡ "WS"
      → m.path ≡ "/v2/provider"
      → provider.project_id ≡ project_id
      → provider.member_id ≡ member_id
      → verify_message p m provider.key now default_signature_max_age ≡ ok tt
      → json.unmarshal m.payload ≡ some payload
      → check_provider_message p json m provider now ≡ ok payload
  unfolding check_provider_message
  accepted project_id m provider now payload a b c d e f verified read = ground (
    arith,
    verified,
    ==_iff m.project_id provider.project_id,
    ==_iff m.sender_id provider.member_id,
    ==_iff m.method "WS",
    ==_iff m.path "/v2/provider",
  )

  -- The broker's checks of a provider's message accept the answer that the client signs for a
  -- request, and read the payload that was answered, on the connection of this member and key, given
  -- that the nonce is drawn, that signatures of the key verify, that the public key has 32 bytes,
  -- that the names are not empty, that the clocks are at most two minutes apart and that JSON of the
  -- payload is read back.
  pub check_provider_message-signed_answer :
      (project_id nonce : String) (frame : Frame) (asked : SignedMessage)
      (incoming : ProviderPayload) (request : Request) (provider : Provider) (now : Time)
      → frame.nonce ≡ ok nonce
      → provider.project_id ≡ project_id
      → provider.member_id ≡ member_id
      → provider.key ≡ p.public_key private_key
      → ((data_ : Bytes)
          → p.verify (p.public_key private_key) data_ (p.sign private_key data_) ≡ true)
      → length (p.public_key private_key) ≡ public_key_size
      → ((project_id == "") || (member_id == "") || (nonce == "")) ≡ false
      → now ≤ frame.signed_at + default_signature_max_age
      → frame.signed_at ≤ now + default_signature_max_age
      → (let payload = outgoing agent_id incoming.request_id (frame.handler request) in
          json.unmarshal (or_empty_bytes (json.marshal payload)) ≡ some payload)
      → (m : SignedMessage) × (signed_answer p json member_id agent_id private_key project_id frame
            asked incoming request
          ≡ ok m)
        × (check_provider_message p json m provider now
            ≡ ok (outgoing agent_id incoming.request_id (frame.handler request)))
  unfolding signed_answer
  check_provider_message-signed_answer project_id nonce frame asked incoming request provider now
        drawn project member key signs size named late early read =
      let payload = outgoing agent_id incoming.request_id (frame.handler request) in
      let kind = outgoing_type payload.type in
      let body = or_empty_bytes (json.marshal payload) in
      let m =
        new_signed_reply p project_id member_id kind "WS" "/v2/provider" asked.nonce nonce body
          frame.signed_at private_key in
      let verified =
        signed_reply-verifies p project_id member_id kind "WS" "/v2/provider" asked.nonce nonce body
          frame.signed_at now private_key signs size
          (ground (arith, outgoing_type_named payload.type)) late early in
      (
        m,
        rw drawn refl,
        accepted project_id m provider now payload refl refl refl refl project member
            (rw key verified) read,
      )
