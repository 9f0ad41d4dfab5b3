-- ===== src/Examples/StateRuns.antt =====
-- The theorems on the local state, at a state with one Project.
use peercontext.Common.{
  ℕ, zero, suc, ◌≡◌, refl, true, false, ◌&&◌, Option, none, some, List, [], ◌∷◌, String, arith,
  ◌==◌, nat_eq, string_eq, ==_iff, if◌then◌else◌,
}
use peercontext.Common.Dict.{lookup, delete, delete_if}
use peercontext.Common.Text.{Bytes}
use peercontext.Errors.{Result, ok}
use peercontext.State.Model.{
  Profile, LocalAgent, State, StateJson, DecodedState, as_decoded, empty_state,
}
use peercontext.State.Disk
use peercontext.State.Disk.{
  Machine, io_error, load, save, system, decode_state, normalized, read_file, write_temporary,
  rename, remove_temporary,
}
use peercontext.State.Disk.Atomic.{written_text}
use peercontext.State.Keys.{Manager, key_name, delete_private_key}
use peercontext.State.Profiles.{update, remove_profile, without_profile}
use peercontext.State.Profiles.Update.{Trips, update_ok, at_version_2}
use peercontext.State.Profiles.Removal.{IsWithout, remove_profile_ok}
use peercontext.Examples.Toy.{toy}

abbrev garden : Profile
garden = record {
  project_id = "p";
  project_name = "Garden";
  member_id = "owner";
  member_name = "Ada";
  hosted = true;
  host_public_key = [];
  endpoints = [];
  private_key_store = "keyring";
}

abbrev archivist : LocalAgent
archivist = record { agent_id = "a1"; project_id = "p"; repository = "/src" }

-- the state that the file of one byte 1 holds
abbrev filled : State
filled = record {
  schema_version = 2;
  current_project_id = "p";
  listen_port = 7777;
  profiles = ("p", garden) ∷ [];
  agents = ("a1", archivist) ∷ [];
}

abbrev bare : ℕ → State
bare port = record empty_state { listen_port = port }

-- The writer writes states without Projects and Agents: a byte 0 and the port.
write_parts : ℕ → String → ℕ → List (String × Profile) → List (String × LocalAgent) → Option Bytes
write_parts version current port [] [] =
    if version == 2 && current == "" then some (0 ∷ port ∷ []) else none
write_parts version current port _ _ = none

abbrev write_bare : State → Option Bytes
write_bare s = write_parts s.schema_version s.current_project_id s.listen_port s.profiles s.agents

read_bare : Bytes → Option DecodedState
read_bare (zero ∷ (port ∷ rest)) = some (as_decoded (bare port))
read_bare (suc n ∷ rest) = some (as_decoded filled)
read_bare _ = none

abbrev bares : StateJson
bares = record { marshal = write_bare; unmarshal = read_bare }

read_parts :
    (version : ℕ) (current : String) (port : ℕ) (ps : List (String × Profile))
    (as_ : List (String × LocalAgent)) (bytes : Bytes)
    → write_parts version current port ps as_ ≡ some bytes
    → read_bare (written_text bytes)
      ≡ some (record {
        schema_version = version;
        current_project_id = current;
        listen_port = port;
        profiles = some ps;
        agents = some as_;
      })
unfolding write_parts read_bare
read_parts version current port [] [] bytes h = ground (arith, ==_iff current "")
read_parts version current port (x ∷ ps) [] bytes h = absurd (ground arith)
read_parts version current port [] (y ∷ as_) bytes h = absurd (ground arith)
read_parts version current port (x ∷ ps) (y ∷ as_) bytes h = absurd (ground arith)

bares-Trips : Trips bares
bares-Trips = record {
  back = λ s bytes h.
      read_parts s.schema_version s.current_project_id s.listen_port s.profiles s.agents bytes h;
}

abbrev machine : Machine
machine = record {
  file = some (1 ∷ []);
  keys = ("p", "secret") ∷ [];
  temporary = false;
  faults = [];
}

-- os.Rename fails
abbrev faulty : Machine
faulty = record machine { faults = false ∷ false ∷ false ∷ false ∷ false ∷ true ∷ [] }

abbrev manager : Manager
manager = record { dir = "/home/ada/v2"; test_key_dir = "" }

saved : (save bares (bare 80) machine).0 ≡ ok tt
unfolding Disk.◌>>=◌ load save system decode_state normalized read_file write_temporary rename
    remove_temporary Disk.lift write_parts read_bare
saved = refl

abbrev emptied : State → Result State
emptied s = ok (bare (suc s.listen_port))

updated : (update bares emptied machine).0 ≡ ok tt
unfolding update Disk.◌>>=◌ load save system decode_state normalized read_file write_temporary
    rename remove_temporary Disk.lift write_parts read_bare
updated = refl

update_ok_example :
    (s : State) × (s' : State) × (decode_state bares (some (1 ∷ [])) ≡ ok s)
    × (emptied s ≡ ok s')
    × (decode_state bares (update bares emptied machine).1.file ≡ ok (at_version_2 s'))
update_ok_example = update_ok bares bares-Trips emptied machine updated

removed : (remove_profile toy bares manager "p" machine).0 ≡ ok tt
unfolding remove_profile without_profile delete_private_key key_name delete delete_if Disk.◌>>=◌
    load save system decode_state normalized read_file write_temporary rename remove_temporary
    Disk.lift write_parts read_bare
removed = refl

remove_profile_ok_example :
    (s : State) × (s' : State) × (decode_state bares (some (1 ∷ [])) ≡ ok s)
    × (decode_state bares (remove_profile toy bares manager "p" machine).1.file ≡ ok s')
    × IsWithout "p" s s'
    × (lookup (key_name toy manager "p") (remove_profile toy bares manager "p" machine).1.keys
        ≡ none)
remove_profile_ok_example = remove_profile_ok toy bares manager bares-Trips "p" machine removed
