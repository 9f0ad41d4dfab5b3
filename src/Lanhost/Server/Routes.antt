-- ===== src/Lanhost/Server/Routes.antt =====
-- `ServeHTTP` of internal/lanhost/server.go: who is served, and by which handler.
use peercontext.Common.{
  ℕ, Bool, not, ◌&&◌, Option, none, some, String, ◌==◌, string_eq, if◌then◌else◌,
}
use peercontext.Common.Text.{Bytes}
use peercontext.Protocol.Platform.{Platform}
use peercontext.Lanhost.Remote.{Network, is_direct_lan_remote}
use peercontext.Lanhost.Server.Host.{Host, Json, World, HttpResponse, http_error}
use peercontext.Lanhost.Server.Ask.{Wait}
use peercontext.Lanhost.Server.Rpc.{handle_rpc}
use peercontext.Lanhost.Server.Join.{handle_join, handle_identity}
use peercontext.Lanhost.Server.Connection.{Opened, open_provider}

pub record HttpRequest : Type 0 where
  pub remote_addr : String
  pub method : String
  pub path : String
  pub project_id : String
  pub challenge : String
  pub auth_header : String
  pub body : Bytes

pub data Served : Type 0 where
  response : HttpResponse → Served
  -- an RPC whose answer is awaited
  pending : Served
  -- the handler of a provider
  provider : Opened → Served

responded : HttpResponse × Host → Served × Host
responded (r, s) = (response r, s)

rpc_served : Option HttpResponse × Host → Served × Host
rpc_served (some r, s) = (response r, s)
rpc_served (none, s) = (pending, s)

provider_served : Opened × Host → Served × Host
provider_served (o, s) = (provider o, s)

module _ (net : Network) (p : Platform) (json : Json) (w : World) (wait : Wait) (upgraded : Bool)
    (address : ℕ) where
  -- ServeHTTP
  unfoldable pub serve_http : HttpRequest → Host → Served × Host
  unfolding responded rpc_served provider_served
  serve_http r s =
      if not (is_direct_lan_remote net r.remote_addr)
      then (
        response (http_error 403 "PeerContext only accepts devices on a directly connected LAN"),
        s,
      )
      else if r.method == "GET" && r.path == "/v2/identity"
      then responded (handle_identity p json w r.project_id r.challenge s)
      else if r.method == "POST" && r.path == "/v2/join"
      then responded (handle_join p json w r.body s)
      else if r.method == "POST" && r.path == "/v2/rpc"
      then rpc_served (handle_rpc p json w wait r.body s)
      else if r.method == "GET" && r.path == "/v2/provider"
      then provider_served (open_provider p json w upgraded address r.auth_header s)
      else (response (http_error 404 "404 page not found"), s)
