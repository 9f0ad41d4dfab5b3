-- ===== src/Discovery/Genuine.antt =====
-- Which endpoints `Discover` of internal/discovery/mdns.go returns.
use peercontext.Common.{
  ◌≡◌, refl, subst, Bool, true, false, Option, none, some, List, [], ◌∷◌, ◌++◌, String, any, select,
  All, arith, Bool-cases, Option-cases, inl, inr, ◌==◌, string_eq, ==_iff, ==_refl,
}
use peercontext.Common.Int.{ℤ}
use peercontext.Common.Text.{Bytes}
use peercontext.Errors.{GoError, Result, ok, err, Result-cases}
use peercontext.Protocol.Platform.{Platform}
use peercontext.Protocol.Model.{default_signature_max_age}
use peercontext.Protocol.Signing.{SignedMessage, verify_message}
use peercontext.Service.Endpoints.{add_endpoint}
use peercontext.State.Profiles.Sorted.{All-sort_by}
use peercontext.Discovery.{
  Entry, Taken, canceled, received, closed, queried, Visit, candidate_of, add_candidate,
  is_identity, is_verified, check_candidate, validate_candidates, or_offline, conclude,
  discover_from, discover,
}

-- An answer to the challenge of a visit that the host of a Project has signed.
pub record IsGenuine (p : Platform) (project_id : String) (host_public_key : Bytes) (visit : Visit)
    : Type 0 where
  pub challenge : String
  pub drawn : visit.challenge ≡ some challenge
  pub message : SignedMessage
  pub answer : visit.answer challenge ≡ ok message
  pub signed : verify_message p message host_public_key visit.at default_signature_max_age ≡ ok tt
  pub project : message.project_id ≡ project_id
  pub kind : message.kind ≡ "identity.response"
  pub method : message.method ≡ "GET"
  pub path : message.path ≡ "/v2/identity"
  pub reply : message.reply_to ≡ challenge

is_verified_ok : (r : Result (Unit {0})) → is_verified r ≡ true → r ≡ ok tt
unfolding is_verified
is_verified_ok (ok _) h = refl
is_verified_ok (err e) h = absurd (ground arith)

-- an entry of this endpoint was received
abbrev is_entry_of : (String → ℤ → String) → String → Taken → Bool
is_entry_of endpoint_of endpoint (received entry) = elim (candidate_of endpoint_of entry) [
  | none ↦ false
  | some e ↦ e == endpoint
]
is_entry_of endpoint_of endpoint (canceled e) = false
is_entry_of endpoint_of endpoint closed = false
is_entry_of endpoint_of endpoint (queried e) = false

pub IsAnnounced : (String → ℤ → String) → List Taken → String → Type 0
IsAnnounced endpoint_of taken endpoint = any (is_entry_of endpoint_of endpoint) taken ≡ true

module _ (p : Platform) (project_id : String) (host_public_key : Bytes) where
  check_candidate-IsGenuine :
      (visit : Visit)
      → check_candidate p project_id host_public_key visit ≡ true
      → IsGenuine p project_id host_public_key visit
  unfolding check_candidate is_identity
  check_candidate-IsGenuine visit h = elim (Option-cases visit.challenge) [
    | inl e ↦ absurd (ground (arith, e))
    | inr (c, e) ↦ elim (Result-cases (visit.answer c)) [
      | inr (x, f) ↦ absurd (ground (arith, e, f))
      | inl (m, f) ↦ record {
        challenge = c;
        drawn = e;
        message = m;
        answer = f;
        signed = is_verified_ok _ (ground (arith, e, f));
        project = ground (arith, e, f, ==_iff m.project_id project_id);
        kind = ground (arith, e, f, ==_iff m.kind "identity.response");
        method = ground (arith, e, f, ==_iff m.method "GET");
        path = ground (arith, e, f, ==_iff m.path "/v2/identity");
        reply = ground (arith, e, f, ==_iff m.reply_to c);
      }
    ]
  ]

  module _ (visit : String → Visit) where
    Confirmed : (String → Type 0) → String → Type 0
    Confirmed Q e = Q e × IsGenuine p project_id host_public_key (visit e)

    selected-Confirmed :
        (Q : String → Type 0) (candidates : List String)
        → All Q candidates
        → All
            (Confirmed Q)
            (select (λ e. check_candidate p project_id host_public_key (visit e)) candidates)
    unfolding select Confirmed
    selected-Confirmed Q [] all = tt
    selected-Confirmed Q (c ∷ cs) all =
        elim (Bool-cases (check_candidate p project_id host_public_key (visit c))) [
          | inl e ↦
              rw (e, select)
                ((all.0, check_candidate-IsGenuine (visit c) e), selected-Confirmed Q cs all.1)
          | inr e ↦ rw (e, select) (selected-Confirmed Q cs all.1)
        ]

    or_offline-Confirmed :
        (Q : String → Type 0) (found es : List String)
        → All (Confirmed Q) es
        → or_offline p project_id host_public_key visit es ≡ ok found
        → All (Confirmed Q) found
    or_offline-Confirmed Q found [] all h = absurd (ground arith)
    or_offline-Confirmed Q found (e ∷ es) all h =
        let same : (e ∷ es) ≡ found = ground arith in subst (λ xs. All (Confirmed Q) xs) same all

    conclude-Confirmed :
        (Q : String → Type 0) (q : Option GoError) (candidates found : List String)
        → All Q candidates
        → conclude p project_id host_public_key visit q candidates ≡ ok found
        → All (Confirmed Q) found
    unfolding conclude validate_candidates
    conclude-Confirmed Q (some e) [] found all h = absurd (ground arith)
    conclude-Confirmed Q (some e) (c ∷ cs) found all h =
        or_offline-Confirmed Q found _
          (All-sort_by (λ x. x) (Confirmed Q) _ (selected-Confirmed Q (c ∷ cs) all)) h
    conclude-Confirmed Q none candidates found all h =
        or_offline-Confirmed Q found _
          (All-sort_by (λ x. x) (Confirmed Q) _ (selected-Confirmed Q candidates all)) h

    module _ (endpoint_of : String → ℤ → String) where
      All-add_endpoint :
          (Q : String → Type 0) (e : String) (candidates : List String)
          → All Q candidates
          → Q e
          → All Q (candidates ++ e ∷ [])
      All-add_endpoint Q e [] all q = (q, tt)
      All-add_endpoint Q e (c ∷ cs) all q = (all.0, All-add_endpoint Q e cs all.1 q)

      All-add_candidate :
          (Q : String → Type 0) (entry : Option Entry) (candidates : List String)
          → ((e : String) → candidate_of endpoint_of entry ≡ some e → Q e)
          → All Q candidates
          → All Q (add_candidate endpoint_of entry candidates)
      unfolding add_candidate add_endpoint
      All-add_candidate Q entry candidates new all =
          elim (Option-cases (candidate_of endpoint_of entry)) [
            | inl h ↦ rw (h, add_candidate) all
            | inr (e, h) ↦ elim (Bool-cases (any (λ c. c == e) candidates)) [
              | inl known ↦ rw (h, add_candidate, add_endpoint, known) all
              | inr fresh ↦
                  rw (h, add_candidate, add_endpoint, fresh)
                    (All-add_endpoint Q e candidates all (new e h))
            ]
          ]

      discover_from-Confirmed :
          (Q : String → Type 0) (taken : List Taken) (candidates found : List String)
          → ((e : String) → IsAnnounced endpoint_of taken e → Q e)
          → All Q candidates
          → discover_from p project_id host_public_key visit endpoint_of taken candidates
            ≡ some (ok found)
          → All (Confirmed Q) found
      unfolding discover_from IsAnnounced any
      discover_from-Confirmed Q [] candidates found given all h = absurd (ground arith)
      discover_from-Confirmed Q (canceled e ∷ more) candidates found given all h =
          absurd (ground arith)
      discover_from-Confirmed Q (received entry ∷ more) candidates found given all h =
          discover_from-Confirmed Q more _ found (λ e a. given e (ground arith))
            (All-add_candidate Q entry candidates (λ e k. given e (ground (arith, ==_refl e))) all)
            h
      discover_from-Confirmed Q (closed ∷ more) candidates found given all h =
          discover_from-Confirmed Q more candidates found (λ e a. given e (ground arith)) all h
      discover_from-Confirmed Q (queried q ∷ more) candidates found given all h =
          conclude-Confirmed Q q candidates found all (ground arith)

      -- Every endpoint that `Discover` returns is one of an entry of mDNS that it received, and when it
      -- was visited there the answer was a message of the kind identity.response for this Project, on
      -- the route of identities and in reply to the challenge that was drawn for the visit, which the
      -- host of the Project signed at most two minutes off.
      pub discover-IsGenuine :
          (taken : List Taken) (found : List String)
          → discover p project_id host_public_key visit endpoint_of taken ≡ some (ok found)
          → All
              (λ e.
                IsAnnounced endpoint_of taken e × IsGenuine p project_id host_public_key (visit e))
              found
      unfolding discover Confirmed
      discover-IsGenuine taken found h =
          discover_from-Confirmed (IsAnnounced endpoint_of taken) taken [] found (λ e a. a) tt h
