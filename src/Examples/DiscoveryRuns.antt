-- ===== src/Examples/DiscoveryRuns.antt =====
-- A member looks for the host of the household on the network.
use peercontext.Common.{
  ◌≡◌, refl, none, some, true, All, List, [], ◌∷◌, String, arith, length, find, nat_eq, string_eq,
  bytes_eq, bytes_beq, ==_iff,
}
use peercontext.Common.Int.{ℤ, pos}
use peercontext.Common.Text.{concat, codes}
use peercontext.Errors.{ok}
use peercontext.Protocol.Signing.{SignedMessage, new_signed_reply}
use peercontext.Lanhost.Server.Host.{signed_body}
use peercontext.Lanhost.Server.Join.{handle_identity}
use peercontext.Discovery.{Taken, received, closed, queried, Visit, check_candidate, discover}
use peercontext.Discovery.Genuine.{IsAnnounced, IsGenuine, discover-IsGenuine}
use peercontext.Discovery.Answered.{check_candidate-handle_identity}
use peercontext.Examples.Toy.{toy, toy-signs, tallies, tally, zeros, first_32}
use peercontext.Examples.Household.{owner_key, host}
use peercontext.Examples.ProviderRuns.{texts, world}

abbrev answer : SignedMessage
answer =
    new_signed_reply toy "p" "owner" "identity.response" "GET" "/v2/identity" "c1" "n4" [] 6
      owner_key

answered : (handle_identity toy texts world "p" "c1" host).0 ≡ signed_body 200 answer
unfolding handle_identity peercontext.Lanhost.Store.Projects.project peercontext.Lanhost.Sql.query
    find zeros
answered = refl

owner_key_size : length (toy.public_key owner_key) ≡ 32
unfolding first_32 zeros
owner_key_size = refl

check_candidate-handle_identity_example :
    check_candidate toy "p"
      (toy.public_key owner_key)
      (record { challenge = some "c1"; answer = λ _. ok answer; at = 7 })
    ≡ true
check_candidate-handle_identity_example =
    check_candidate-handle_identity toy texts world "p" "c1"
      (record { member_id = "owner"; private_key = owner_key }) host 200 answer 7 refl
      (toy-signs owner_key) owner_key_size (λ h. ground (arith, ==_iff {A = String} "p" ""))
      (λ h. ground (arith, ==_iff {A = String} "owner" ""))
      (λ h. ground (arith, ==_iff {A = String} "n4" "")) (omega arith) (omega arith) answered

abbrev at_port : String → ℤ → String
at_port ip port = concat "http://" ip

abbrev visit : String → Visit
visit _ = record { challenge = some "c1"; answer = λ _. ok answer; at = 7 }

-- an entry without an address, and one with an address
abbrev heard : List Taken
heard =
    received (some (record { address = none; port = pos 80 }))
    ∷ received (some (record { address = some "10.0.0.2"; port = pos 80 }))
    ∷ closed
    ∷ queried none
    ∷ []

found :
    discover toy "p" (toy.public_key owner_key) visit at_port heard
    ≡ some (ok ("http://10.0.0.2" ∷ []))
unfolding discover new_signed_reply first_32 zeros peercontext.Protocol.Time.exceeds
    peercontext.Protocol.Time.sub bytes_beq peercontext.Protocol.Signing.signing_bytes
    peercontext.Protocol.Signing.Lines.lines codes tally peercontext.Protocol.Model.body_sha256
    tallies
found = refl

discover-IsGenuine_example :
    All
      (λ e. IsAnnounced at_port heard e × IsGenuine toy "p" (toy.public_key owner_key) (visit e))
      ("http://10.0.0.2" ∷ [])
discover-IsGenuine_example =
    discover-IsGenuine toy "p" (toy.public_key owner_key) visit at_port heard
      ("http://10.0.0.2" ∷ []) found
