-- ===== src/Lanhost/Client/Providing/Connecting.antt =====
-- `RunProviderWithState` of internal/lanhost/client.go, and `runProviderEndpoint` up to its loop.
use peercontext.Common.{
  ℕ, Bool, true, false, not, ◌||◌, Option, none, some, List, [], ◌∷◌, ◌++◌, String, length, ◌==◌,
  string_eq,
}
use peercontext.Common.Text.{Bytes}
use peercontext.Errors.{
  GoError, sentinel, plain, agent_offline, Result, ok, err, ◌>>=◌, ◌>>◌, fail_if, or_error,
}
use peercontext.Protocol.Time.{Time}
use peercontext.Protocol.Platform.{Platform, Codec}
use peercontext.Protocol.Model.{ProviderPayload, default_signature_max_age}
use peercontext.Protocol.Signing.{SignedMessage, verify_message, new_signed_http_message}
use peercontext.Lanhost.Replay.{accept}
use peercontext.Lanhost.Wire.{ProviderConnectInput, kind_provider_connect}
use peercontext.Lanhost.Client.{
  Client, Reading, client_endpoints, remember_endpoint, require_direct_lan_endpoint,
}
use peercontext.Lanhost.Client.Providing.{Frame, serve_frames}

-- What one call of `runProviderEndpoint` meets: the nonce and the clock of its message, the header
-- of the handshake, the clock when that is verified and accepted, the frames, and the context's
-- error after it has returned.
pub record Dialled : Type 0 where
  pub nonce : Result String
  pub now : Time
  pub handshake : Result String
  pub verified_at : Time
  pub accepted_at : Time
  pub frames : List Frame
  pub canceled : Option GoError

-- What a call comes to: its error, none while the connection is open, the client, the calls of
-- `onState`, and the answers.
pub record Provided : Type 0 where
  pub error : Option GoError
  pub client : Client
  pub states : List Bool
  pub sent : List SignedMessage

abbrev pub failed : GoError → Client → Provided
failed e c = record { error = some e; client = c; states = []; sent = [] }

module _ (p : Platform) (reading : Reading) (json : Codec ProviderPayload)
    (marshal_connect : ProviderConnectInput → Bytes) (member_id agent_id : String)
    (private_key : Bytes) where
  -- the message of the header X-Peerctx-Auth
  unfoldable pub provider_hello : String → String → Time → SignedMessage
  unfolding new_signed_http_message
  provider_hello project_id nonce now =
      new_signed_http_message p project_id member_id kind_provider_connect "GET" "/v2/provider"
        nonce (marshal_connect (record { agent_id = agent_id })) now private_key

  -- the host's message in the header of the handshake
  unfoldable pub connected_message : Client → String → String → Time → Result SignedMessage
  unfolding verify_message
  connected_message c nonce header at = do
    bytes ←
        or_error (p.base64_decode header)
          (plain "Project host did not sign the provider connection")
    connected ←
        or_error (reading.signed_message bytes) (plain "Project host provider signature is invalid")
    fail_if
        (not (connected.project_id == c.project_id)
          || not (connected.kind == "provider.connected")
          || not (connected.method == "GET")
          || not (connected.path == "/v2/provider")
          || not (connected.reply_to == nonce))
        (plain "Project host provider signature is invalid")
    elim (verify_message p connected c.host_public_key at default_signature_max_age) [
      | err e ↦ err (plain "Project host provider signature is invalid")
      | ok _ ↦ ok connected
    ]

  -- the loop, between the two calls of `onState`
  serve : String → List Frame → Client → Provided
  unfolding serve_frames remember_endpoint
  serve endpoint frames c =
      let (e, c', sent) =
        serve_frames p json member_id agent_id private_key frames (remember_endpoint endpoint c) in
      record {
        error = e;
        client = c';
        states = elim e [ none ↦ true ∷ [] | some _ ↦ true ∷ (false ∷ []) ];
        sent = sent;
      }

  welcomed : String → Dialled → Client → Result SignedMessage → Provided
  unfolding serve
  welcomed endpoint d c (err e) = failed e c
  welcomed endpoint d c (ok connected) =
      let (r, replays) = accept c.replays connected d.accepted_at in
      let c' = record c { replays = replays } in
      elim r [ err e ↦ failed e c' | ok _ ↦ serve endpoint d.frames c' ]

  -- runProviderEndpoint
  unfoldable pub run_provider_endpoint : Dialled → String → Client → Provided
  unfolding connected_message welcomed require_direct_lan_endpoint
  run_provider_endpoint d endpoint c =
      let opened = (do
        require_direct_lan_endpoint p reading endpoint
        nonce ← d.nonce
        header ← d.handshake
        connected_message c nonce header d.verified_at) in
      welcomed endpoint d c opened

  -- the loop of `RunProviderWithState` over the endpoints
  provide_at : (String → ℕ → Dialled) → List String → Option GoError → Client → Provided
  unfolding run_provider_endpoint
  provide_at dial [] last c = failed (elim last [ none ↦ sentinel agent_offline | some e ↦ e ]) c
  provide_at dial (endpoint ∷ more) last c =
      let d = dial endpoint (length more) in
      let r = run_provider_endpoint d endpoint c in
      let rest = provide_at dial more r.error r.client in
      elim r.error [
        | none ↦ r
        | some e ↦ elim d.canceled [
          | some canceled ↦ record r { error = some canceled }
          | none ↦ record rest { states = r.states ++ rest.states; sent = r.sent ++ rest.sent }
        ]
      ]

  -- RunProviderWithState
  unfoldable pub run_provider_with_state : (String → ℕ → Dialled) → Client → Provided
  unfolding provide_at client_endpoints
  run_provider_with_state dial c = provide_at dial (client_endpoints c) none c
