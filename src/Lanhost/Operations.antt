-- ===== src/Lanhost/Operations.antt =====
-- The methods of internal/lanhost/store.go that change the database, as one type of calls.
pub mod Atomic
pub mod Invariant
pub mod Keys
pub mod Invited
pub mod Runs
use peercontext.Common.{Bool, List, [], ◌∷◌, String}
use peercontext.Common.Text.{Bytes}
use peercontext.Errors.{GoError, Result, ok, err}
use peercontext.Protocol.Time.{Time}
use peercontext.Protocol.Platform.{Platform, Codec}
use peercontext.Protocol.Model.{Project, Member, AgentManifest, Request, RequestStatus}
use peercontext.Protocol.Invitation.{JoinRequest}
use peercontext.Lanhost.Store.Tables.{HostDb}
use peercontext.Lanhost.Store.Projects.{create_project, delete_project}
use peercontext.Lanhost.Store.Members.{remove_member}
use peercontext.Lanhost.Store.Invitations.{add_invitation, consume_invitation}
use peercontext.Lanhost.Store.Agents.{register_agent, set_agent_online, remove_agent}
use peercontext.Lanhost.Store.Requests.{create_request, update_request}

pub data Operation : Type 0 where
  creating : Project → Member → Operation
  deleting : String → Operation
  inviting : String → String → Bytes → Time → Operation
  joining : JoinRequest → Time → Operation
  removing : String → String → String → Operation
  registering : String → String → String → AgentManifest → Time → Operation
  switching : String → String → String → Bool → Time → Operation
  unregistering : String → String → String → Operation
  requesting : Request → Operation
  updating : String → String → RequestStatus → Time → Operation

abbrev dropped : {A : Type 0} → Result A × HostDb → Result (Unit {0}) × HostDb
dropped (ok a, db) = (ok tt, db)
dropped (err e, db) = (err e, db)

module _ (p : Platform) (json : Codec AgentManifest) where
  unfoldable pub perform : Operation → HostDb → Result (Unit {0}) × HostDb
  perform (creating host owner) db = create_project p host owner db
  perform (deleting id) db = delete_project id db
  perform (inviting project id key expires) db = add_invitation p project id key expires db
  perform (joining r now) db = dropped (consume_invitation p r now db)
  perform (removing project actor member) db = remove_member p project actor member db
  perform (registering project member agent manifest now) db =
      dropped (register_agent p json project member agent manifest now db)
  perform (switching project agent member online now) db =
      set_agent_online p json project agent member online now db
  perform (unregistering project actor selector) db = remove_agent p json project actor selector db
  perform (requesting r) db = create_request p r db
  perform (updating project id status at) db = update_request p project id status at db

  -- any calls, one after another, whether they fail or not
  unfoldable pub perform_all : List Operation → HostDb → HostDb
  perform_all [] db = db
  perform_all (o ∷ os) db = perform_all os (perform o db).1
