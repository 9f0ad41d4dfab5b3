-- ===== src/Examples/DaemonRuns.antt =====
-- The theorems on the daemon: a Project that cannot be created, providers that come and go, and a
-- reply.
use peercontext.Common.{
  ◌≡◌, refl, none, some, true, false, [], ◌∷◌, nat_eq, string_eq, bytes_eq, any,
}
use peercontext.Common.Dict.{lookup}
use peercontext.Common.Text.{trim_space}
use peercontext.Errors.{ok, err}
use peercontext.Protocol.Time.{second}
use peercontext.Lanhost.Store.Projects
use peercontext.Lanhost.Store.Tables.{empty}
use peercontext.State.Model.{Profile, LocalAgent, StateJson, as_decoded, empty_state}
use peercontext.State.Disk
use peercontext.State.Disk.{Machine, io_error}
use peercontext.State.Keys.{Manager, private_key, store_private_key}
use peercontext.State.Profiles.{put_profile, update}
use peercontext.State.Profiles.Putting.{private_key-put_profile}
use peercontext.Service.Control.{ProjectCreateInput}
use peercontext.Service.Daemon
use peercontext.Service.Daemon.{Daemon, Call, Setup, new_daemon}
use peercontext.Service.Projects.{Creation, create_project, finish_project}
use peercontext.Service.Projects.Rollback.{IsUndone, create_project-IsUndone}
use peercontext.Service.Providers.{
  Loop, Loops, Reach, begin, step, start, report, started, report_online, is_loop,
}
use peercontext.Service.Providers.Running.{IsRunning, Reach-IsRunning}
use peercontext.Examples.Toy.{toy, tallies, marks, zeros, toy-reads}
use peercontext.Examples.Household.{owner_key}
use peercontext.Examples.JoinRuns.{invitation, texts, around}

-- JSON of the state that writes one byte, and reads the empty state
abbrev states : StateJson
states = record { marshal = λ _. some (5 ∷ []); unmarshal = λ _. some (as_decoded empty_state) }

abbrev manager : Manager
manager = record { dir = "/home/ada/v2"; test_key_dir = "" }

abbrev machine : Machine
machine = record { file = none; keys = []; temporary = false; faults = [] }

abbrev pub setup : Setup
setup = record {
  platform = toy;
  state_json = states;
  invitation = record { marshal = λ _. some []; unmarshal = λ _. some invitation };
  reading = texts;
  manager = manager;
  legacy = false;
}

abbrev pub garden : Profile
garden = record {
  project_id = "p";
  project_name = "Garden";
  member_id = "owner";
  member_name = "Ada";
  hosted = true;
  host_public_key = [];
  endpoints = [];
  private_key_store = "";
}

put : (put_profile toy states manager garden owner_key machine).0 ≡ ok tt
unfolding put_profile Disk.◌>>=◌ zeros store_private_key update Disk.load Disk.save
    Disk.remove_temporary Disk.write_temporary Disk.rename
put = refl

put_quiet : (put_profile toy states manager garden owner_key machine).1.faults ≡ []
unfolding put_profile Disk.◌>>=◌ zeros store_private_key update Disk.load Disk.save
    Disk.remove_temporary Disk.write_temporary Disk.rename
put_quiet = refl

owner_text_trimmed : trim_space (tallies owner_key) ≡ tallies owner_key
unfolding trim_space tallies marks zeros
owner_text_trimmed = refl

private_key-put_profile_example :
    (private_key toy manager "p" (put_profile toy states manager garden owner_key machine).1).0
    ≡ ok owner_key
private_key-put_profile_example =
    private_key-put_profile toy states manager garden owner_key machine (toy-reads owner_key)
      owner_text_trimmed put put_quiet

abbrev pub creation : Creation
creation = record {
  private_key = ok owner_key;
  now = 5;
  project_uuid = "7";
  member_uuid = "8";
  endpoints = "http://10.0.0.2" ∷ [];
  invite = record { nonce = ok "n1"; around = around; meanwhile = λ d. d };
  encoded_at = 5;
}

-- a disk on which the state cannot be written
abbrev broken : Daemon
broken = new_daemon (record machine { faults = true ∷ [] }) (record { tables = empty; faults = [] })

abbrev wish : ProjectCreateInput
wish = record { name = "Garden"; member_name = "Ada" }

refused : (create_project setup creation invitation wish broken).0 ≡ err io_error
unfolding create_project Daemon.◌>>=◌ trim_space Projects.create_project
    peercontext.Lanhost.Sql.transaction new_daemon peercontext.Lanhost.Sql.◌>>=◌
    peercontext.Lanhost.Sql.exec any finish_project Daemon.or_undo put_profile Disk.◌>>=◌ zeros
    store_private_key
refused = refl

create_project-IsUndone_example :
    IsUndone setup creation invitation wish broken
      (create_project setup creation invitation wish broken).1
unfolding new_daemon
create_project-IsUndone_example =
    create_project-IsUndone setup creation invitation wish broken io_error refl (λ d quiet. quiet)
      refused

abbrev archivist : LocalAgent
archivist = record { agent_id = "a1"; project_id = "p"; repository = "/home/ada/garden" }

abbrev idle : Daemon
idle = new_daemon machine (record { tables = empty; faults = [] })

abbrev quiet : Loops
quiet = record { daemon = idle; running = []; shut = false }

abbrev busy : Loops
busy = started none archivist quiet

abbrev archiving : Loop
archiving = record { agent_id = "a1"; context = 0; backoff = second }

abbrev heard : Loops
heard = record busy { daemon = report_online "a1" true busy.daemon }

here : any (is_loop "a1" 0) busy.running ≡ true
unfolding started any lookup new_daemon
here = refl

begun : Reach idle quiet
unfolding new_daemon
begun = begin refl refl

Reach-IsRunning_example : IsRunning heard
Reach-IsRunning_example =
    Reach-IsRunning idle heard
      (step (step begun (start quiet none archivist)) (report busy archiving true here))
