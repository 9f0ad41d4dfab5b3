-- ===== src/Discovery.antt =====
-- `Discover` of internal/discovery/mdns.go: its loop over what the `select` takes, and the check of
-- the candidates.
pub mod Genuine
pub mod Answered
use peercontext.Common.{
  ℕ, Bool, true, false, ◌&&◌, Option, none, some, List, [], ◌∷◌, String, length, select, ◌==◌,
  nat_eq, string_eq, if◌then◌else◌,
}
use peercontext.Common.Int.{ℤ, pos, ltb_ℤ}
use peercontext.Common.Text.{Bytes}
use peercontext.Errors.{GoError, structured, structured_by, Result, ok, err}
use peercontext.Protocol.Time.{Time}
use peercontext.Protocol.Platform.{Platform}
use peercontext.Protocol.Model.{default_signature_max_age}
use peercontext.Protocol.Signing.{SignedMessage, verify_message}
use peercontext.Service.Endpoints.{add_endpoint}
use peercontext.State.Profiles.{sort_by}

-- An entry of mDNS: the text of its IPv4 address, if it has one, and its port.
pub record Entry : Type 0 where
  pub address : Option String
  pub port : ℤ

-- What the `select` takes: the end of the context, an entry, the end of the entries, or what the
-- query returns.
pub data Taken : Type 0 where
  canceled : GoError → Taken
  received : Option Entry → Taken
  closed : Taken
  queried : Option GoError → Taken

-- What the check of a candidate meets: the challenge, if one can be drawn, the message that the
-- answer decodes to, and the clock.
pub record Visit : Type 0 where
  pub challenge : Option String
  pub answer : String → Result SignedMessage
  pub at : Time

-- `endpoint_of` is "http://" + net.JoinHostPort(ip, port)
module _ (endpoint_of : String → ℤ → String) where
  -- the endpoint of an entry
  unfoldable pub candidate_of : Option Entry → Option String
  candidate_of none = none
  candidate_of (some e) = elim e.address [
    | none ↦ none
    | some ip ↦ if ltb_ℤ (pos 0) e.port then some (endpoint_of ip e.port) else none
  ]

  -- the map `seen` holds what the list holds
  unfoldable pub add_candidate : Option Entry → List String → List String
  unfolding candidate_of add_endpoint
  add_candidate entry candidates = elim (candidate_of entry) [
    | none ↦ candidates
    | some endpoint ↦ add_endpoint endpoint candidates
  ]

-- the tests on a message that was decoded
unfoldable pub is_identity : String → String → SignedMessage → Bool
is_identity project_id challenge m =
    m.project_id == project_id
    && m.kind == "identity.response"
    && m.method == "GET"
    && m.path == "/v2/identity"
    && m.reply_to == challenge

unfoldable pub is_verified : Result (Unit {0}) → Bool
is_verified (ok _) = true
is_verified (err e) = false

module _ (p : Platform) (project_id : String) (host_public_key : Bytes) where
  -- one round of the loop of validateCandidates
  unfoldable pub check_candidate : Visit → Bool
  unfolding is_identity is_verified verify_message
  check_candidate visit = elim visit.challenge [
    | none ↦ false
    | some challenge ↦ elim (visit.answer challenge) [
      | err e ↦ false
      | ok m ↦
          is_identity project_id challenge m
          && is_verified (verify_message p m host_public_key visit.at default_signature_max_age)
    ]
  ]

  module _ (visit : String → Visit) where
    -- validateCandidates; the candidates are distinct
    unfoldable pub validate_candidates : List String → List String
    unfolding check_candidate sort_by select
    validate_candidates candidates =
        sort_by (λ e. e) (select (λ e. check_candidate (visit e)) candidates)

    abbrev pub or_offline : List String → Result (List String)
    or_offline [] = err (
        structured "project_host_offline"
          "The Project host is offline or was not found on this LAN." true)
    or_offline (e ∷ es) = ok (e ∷ es)

    -- what Discover returns once the query is done
    unfoldable pub conclude : Option GoError → List String → Result (List String)
    unfolding validate_candidates
    conclude (some e) [] = err (
        structured_by "lan_discovery_unavailable" "LAN discovery is unavailable on this network."
          true e)
    conclude (some e) (c ∷ cs) = or_offline (validate_candidates (c ∷ cs))
    conclude none candidates = or_offline (validate_candidates candidates)

    module _ (endpoint_of : String → ℤ → String) where
      -- The loop of Discover from some candidates on; none while it waits.
      unfoldable pub discover_from : List Taken → List String → Option (Result (List String))
      unfolding add_candidate conclude
      discover_from [] candidates = none
      discover_from (canceled e ∷ more) candidates = some (err e)
      discover_from (received entry ∷ more) candidates =
          discover_from more (add_candidate endpoint_of entry candidates)
      discover_from (closed ∷ more) candidates = discover_from more candidates
      discover_from (queried e ∷ more) candidates = some (conclude e candidates)

      -- Discover
      unfoldable pub discover : List Taken → Option (Result (List String))
      unfolding discover_from
      discover taken = discover_from taken []
