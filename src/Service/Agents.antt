-- ===== src/Service/Agents.antt =====
-- `registerAgent` and `removeAgent` of internal/service/daemon.go.
pub mod Waiting
use Prim.Native.String
use peercontext.Common.{
  ℕ, zero, suc, ◌+◌, ◌*◌, Bool, true, false, not, ◌||◌, Option, none, some, List, [], ◌∷◌, String,
  ltb, ◌==◌, string_eq, if◌then◌else◌,
}
use peercontext.Common.Dict.{Dict}
use peercontext.Common.Text.{Bytes, concat, trim_space}
use peercontext.Errors.{GoError, plain, Result, ok, err, fail_if}
use peercontext.Errors
use peercontext.Protocol.Time.{Time, second, zero_time}
use peercontext.Protocol.Model.{Agent, AgentManifest, Member, ProviderPayload}
use peercontext.Lanhost.Wire.{
  AgentRegisterInput as AgentRegisterRequest, kind_agent_register, kind_agent_get,
  kind_agent_remove,
}
use peercontext.Lanhost.Client.{Client}
use peercontext.State.Model.{Profile, LocalAgent}
use peercontext.State.Agents.{put_agent}
use peercontext.State.Agents
use peercontext.Service.Control.{AgentRegisterInput}
use peercontext.Service.Daemon.{
  Daemon, Act, Call, Setup, pure, lift, on_machine, ignoring, current_client, rpc, call, ◌>>=◌,
  ◌>>◌,
}
use peercontext.Service.Providers.{start_provider, stop_provider}

abbrev no_manifest : AgentManifest
no_manifest = record { schema_version = 0; name = ""; summary = ""; tags = []; capabilities = [] }

-- protocolv2.Agent{}
abbrev pub no_agent : Agent
no_agent = record {
  schema_version = 0;
  id = "";
  project_id = "";
  owner_member_id = "";
  manifest = no_manifest;
  online = false;
  updated_at = zero_time;
}

-- encoding/json at what the host answers
pub record Answers : Type 0 where
  pub agent : Bytes → Option Agent
  pub agents : Bytes → Option (List Agent)
  pub members : Bytes → Option (List Member)
  pub removed : Bytes → Option (Dict String Bool)
  pub payload : Bytes → Option ProviderPayload

-- One round of the wait for the Agent: the clock, the call, and the context's error after it.
pub record Round : Type 0 where
  pub now : Time
  pub asked : String → Call
  pub canceled : Option GoError

-- What `registerAgent` finds on the machine, reads and calls; the runtime is checked twice;
-- `base_name` is filepath.Base after
-- filepath.Clean.
pub record Registration : Type 0 where
  pub is_directory : Bool
  pub has_git : Bool
  pub in_worktree : Bool
  pub runtime : Option GoError
  pub runtime_again : Option GoError
  pub base_name : String → String
  pub absolute : String → Result String
  pub agent_uuid : String
  pub register : AgentRegisterRequest → Call
  pub registered_at : Time
  pub rounds : ℕ → Round

pub data Waited : Type 0 where
  online : Agent → Waited
  interrupted : GoError → Waited
  late unfinished : Waited

pub data Registered : Type 0 where
  registered : Agent → Registered
  still_waiting : Registered

-- the answer of an Agent that is online
unfoldable pub online_agent : Result Agent → Option Agent
online_agent (err e) = none
online_agent (ok a) = if a.online then some a else none

module _ (setup : Setup) (answers : Answers) where
  module _ (deadline : Time) (rounds : ℕ → Round) (agent_id : String) where
    -- The loop of `registerAgent`, for so many rounds, from one of them on.
    unfoldable pub await : ℕ → ℕ → Client → Daemon → Waited × Daemon
    unfolding rpc online_agent
    await zero n c d = (unfinished, d)
    await (suc fuel) n c d = elim (ltb (rounds n).now deadline) [
      | false ↦ (late, d)
      | true ↦
          let ((answer, c'), d') =
            rpc setup answers.agent no_agent ((rounds n).asked agent_id) kind_agent_get c d in
          elim (online_agent answer) [
            | some a ↦ (online a, d')
            | none ↦ elim (rounds n).canceled [
              | some e ↦ (interrupted e, d')
              | none ↦ await fuel (suc n) c' d'
            ]
          ]
    ]

  -- what the loop comes to
  unfoldable pub after_wait : Waited → Result Registered
  after_wait (online a) = ok (registered a)
  after_wait (interrupted e) = err e
  after_wait late = err (plain "Agent was registered but did not come online")
  after_wait unfinished = ok still_waiting

  module _ (r : Registration) where
    -- the checks on the repository and the runtime
    unfoldable pub check_repository : Result (Unit {0})
    check_repository =
        Errors.◌>>◌
          (fail_if (not r.is_directory) (plain "repository must be an existing directory"))
          (Errors.◌>>◌ (fail_if (not r.has_git) (plain "Git is required to register a repository"))
            (Errors.◌>>◌
              (fail_if (not r.in_worktree) (plain "repository must be a local Git worktree"))
              (elim r.runtime [ none ↦ ok tt | some e ↦ err e ])))

    unfoldable pub agent_name : AgentRegisterInput → Profile → String
    agent_name input profile =
        if trim_space input.name == ""
        then concat profile.member_name (concat "/" (r.base_name input.repository))
        else trim_space input.name

    -- the input of the call that registers
    unfoldable pub registration : AgentRegisterInput → Profile → AgentRegisterRequest
    unfolding agent_name
    registration input profile = record {
      agent_id = concat "agt_" r.agent_uuid;
      manifest = record {
        schema_version = 2;
        name = agent_name input profile;
        summary = input.summary;
        tags = input.tags;
        capabilities = input.capabilities;
      };
    }

    -- startProvider and the loop
    unfoldable pub start_and_wait : LocalAgent → Client → Act Registered
    unfolding start_provider await after_wait
    start_and_wait agent c d =
        let (w, d') =
          await (r.registered_at + 3 * second) r.rounds agent.agent_id 121 0 c
            (start_provider r.runtime_again agent d) in
        (after_wait w, d')

    -- registerAgent
    unfoldable pub register_agent : AgentRegisterInput → Act Registered
    unfolding check_repository
    register_agent input = do
      lift check_repository
      (c, profile) ← current_client setup
      (agent, c') ←
          call setup answers.agent no_agent (r.register (registration input profile))
            kind_agent_register c
      let local : LocalAgent = record {
        agent_id = agent.id;
        project_id = profile.project_id;
        repository = input.repository;
      }
      on_machine (put_agent setup.state_json r.absolute local)
      start_and_wait local c'

  -- removeAgent
  unfoldable pub remove_agent : (String → Call) → (String → Call) → String → Act (Dict String Bool)
  unfolding stop_provider
  remove_agent asked removing selector = do
    (c, profile) ← current_client setup
    (agent, c') ← call setup answers.agent no_agent (asked selector) kind_agent_get c
    (result, c'') ← call setup answers.removed [] (removing selector) kind_agent_remove c'
    (λ d. (ok tt, stop_provider agent.id d))
    ignoring (on_machine (Agents.remove_agent setup.state_json agent.id))
    pure result
