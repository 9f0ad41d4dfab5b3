-- ===== src/Service/Endpoints.antt =====
-- `directEndpoints` and `removeStaleSocket` of internal/service/daemon.go.
pub mod Distinct
use Prim.Native.Char.{Char}
use peercontext.Common.{
  ℕ, Bool, true, false, not, ◌||◌, Option, none, some, List, [], ◌∷◌, ◌++◌, String, length, any,
  ◌==◌, nat_eq, string_eq, if◌then◌else◌,
}
use peercontext.Common.Text.{concat}
use peercontext.Errors.{GoError, plain, Result, ok, err}
use peercontext.Lanhost.Remote.{is_tunnel_interface}

-- An address of an interface: none if it is neither a *net.IPNet nor a *net.IPAddr or has no IP;
-- otherwise the text of the IP, and whether it is a global unicast address.
abbrev pub Address : Type 0
Address = Option (String × Bool)

pub record LanInterface : Type 0 where
  pub name : String
  pub up : Bool
  pub loopback : Bool
  pub addresses : List Address

-- the map `seen` holds what the list holds
unfoldable pub add_endpoint : String → List String → List String
unfolding any
add_endpoint endpoint found =
    if any (λ e. e == endpoint) found then found else found ++ endpoint ∷ []

-- `endpoint_of` makes an endpoint of an IP: "http://" + net.JoinHostPort(ip, port)
module _ (to_lower : Char → Char) (endpoint_of : String → String) where
  add_address : Address → List String → List String
  unfolding add_endpoint
  add_address none found = found
  add_address (some (ip, unicast)) found =
      if not unicast then found else add_endpoint (endpoint_of ip) found

  add_addresses : List Address → List String → List String
  unfolding add_address
  add_addresses [] found = found
  add_addresses (a ∷ as_) found = add_addresses as_ (add_address a found)

  add_interfaces : List LanInterface → List String → List String
  unfolding add_addresses is_tunnel_interface
  add_interfaces [] found = found
  add_interfaces (i ∷ is) found = add_interfaces is (
      if not i.up || i.loopback || is_tunnel_interface to_lower i.name
      then found
      else add_addresses i.addresses found)

  -- directEndpoints; `include_loopback` is whether PEERCTX_INCLUDE_LOOPBACK is 1
  unfoldable pub direct_endpoints : Bool → List LanInterface → List String
  unfolding add_interfaces
  direct_endpoints include_loopback interfaces =
      let found = add_interfaces interfaces [] in
      if length found == 0 || include_loopback then found ++ endpoint_of "127.0.0.1" ∷ [] else found

-- What os.Lstat says of the path of the socket.
pub data Found : Type 0 where
  missing : Found
  unreadable : GoError → Found
  other_file : Found
  socket : Found

-- removeStaleSocket, given what removing the file returns
unfoldable pub remove_stale_socket : Found → Result (Unit {0}) → Result (Unit {0})
remove_stale_socket missing removed = ok tt
remove_stale_socket (unreadable e) removed = err e
remove_stale_socket other_file removed =
    err (plain "PeerContext service socket path is occupied by a non-socket file")
remove_stale_socket socket removed = removed
