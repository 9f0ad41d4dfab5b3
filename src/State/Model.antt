-- ===== src/State/Model.antt =====
-- The records of internal/v2state/state.go, and its JSON.
use peercontext.Common.{ℕ, Bool, Option, none, some, List, [], String}
use peercontext.Common.Dict.{Dict}
use peercontext.Common.Text.{Bytes}

pub record Profile : Type 0 where
  pub project_id : String
  pub project_name : String
  pub member_id : String
  pub member_name : String
  pub hosted : Bool
  pub host_public_key : Bytes
  pub endpoints : List String
  pub private_key_store : String

pub record LocalAgent : Type 0 where
  pub agent_id : String
  pub project_id : String
  pub repository : String

-- Current is "" where no Project is in use, and a port of 0 is none.
pub record State : Type 0 where
  pub schema_version : ℕ
  pub current_project_id : String
  pub listen_port : ℕ
  pub profiles : Dict String Profile
  pub agents : Dict String LocalAgent

-- What `json.Unmarshal` leaves: a map that the text does not hold, or holds as null, is nil.
pub record DecodedState : Type 0 where
  pub schema_version : ℕ
  pub current_project_id : String
  pub listen_port : ℕ
  pub profiles : Option (Dict String Profile)
  pub agents : Option (Dict String LocalAgent)

pub record StateJson : Type 0 where
  pub marshal : State → Option Bytes
  pub unmarshal : Bytes → Option DecodedState

-- emptyState
abbrev pub empty_state : State
empty_state = record {
  schema_version = 2;
  current_project_id = "";
  listen_port = 0;
  profiles = [];
  agents = [];
}

abbrev pub or_empty : {A : Type 0} → Option (List A) → List A
or_empty none = []
or_empty (some m) = m

-- the state as it is decoded, where both maps are there
abbrev pub as_decoded : State → DecodedState
as_decoded s = record {
  schema_version = s.schema_version;
  current_project_id = s.current_project_id;
  listen_port = s.listen_port;
  profiles = some s.profiles;
  agents = some s.agents;
}
