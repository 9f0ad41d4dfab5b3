-- ===== src/Lanhost/Remote.antt =====
-- Which remote addresses internal/lanhost/auth.go admits: `isDirectLANRemote`, `isTunnelInterface`.
use Prim.Native.Char.{Char, code}
use text.Mathlib.Text.{starts_with}
use peercontext.Common.{
  Bool, true, false, not, ◌&&◌, ◌||◌, Option, none, some, List, [], ◌∷◌, String, length, any, ◌==◌,
  nat_eq, string_eq, if◌then◌else◌,
}
use peercontext.Common.Text.{Bytes}
use peercontext.Errors.{plain, Result, ok, err}
use peercontext.Protocol.Signing.{public_key_size}

-- An interface of the machine; an address that is no CIDR is `none`, and so is a list of addresses
-- that cannot be read.
pub record Interface (Subnet : Type 0) : Type 0 where
  pub name : String
  pub up : Bool
  pub loopback : Bool
  pub addresses : Option (List (Option Subnet))

-- Go's `net` and `unicode`, and the machine's interfaces
pub record Network : Type 1 where
  pub IpAddress : Type 0
  pub Subnet : Type 0
  pub split_host_port : String → Option String
  pub parse_ip : String → Option IpAddress
  pub is_loopback : IpAddress → Bool
  pub contains : Subnet → IpAddress → Bool
  pub interfaces : Option (List (Interface Subnet))
  pub to_lower : Char → Char

lower_all : (Char → Char) → String → String
lower_all f String.[] = ""
lower_all f (String.◌∷◌ c s) = String.◌∷◌ (f c) (lower_all f s)

abbrev is_bracket : Char → Bool
is_bracket c = code c == b'[' || code c == b']'

trim_brackets_left : String → String
trim_brackets_left String.[] = ""
trim_brackets_left (String.◌∷◌ c s) = if is_bracket c then trim_brackets_left s else String.◌∷◌ c s

trim_brackets_right : String → String
trim_brackets_right String.[] = ""
trim_brackets_right (String.◌∷◌ c s) =
    let rest = trim_brackets_right s in if is_bracket c && rest == "" then "" else String.◌∷◌ c rest

-- strings.Trim(host, "[]")
unfoldable pub trim_brackets : String → String
unfolding trim_brackets_left trim_brackets_right
trim_brackets s = trim_brackets_right (trim_brackets_left s)

-- isTunnelInterface
unfoldable pub is_tunnel_interface : (Char → Char) → String → Bool
unfolding lower_all any
is_tunnel_interface to_lower name =
    any (λ prefix. starts_with (lower_all to_lower name) prefix)
      ("utun" ∷ "tun" ∷ "tap" ∷ "ppp" ∷ "ipsec" ∷ "awdl" ∷ "llw" ∷ [])

module _ (net : Network) where
  open net use {
    IpAddress, Subnet, split_host_port, parse_ip, is_loopback, contains, interfaces, to_lower,
  }

  address_contains : IpAddress → Option Subnet → Bool
  address_contains ip none = false
  address_contains ip (some subnet) = contains subnet ip

  -- one round of the loop over the interfaces
  unfoldable pub interface_reaches : IpAddress → Interface Subnet → Bool
  unfolding address_contains any
  interface_reaches ip iface =
      if not iface.up || iface.loopback || is_tunnel_interface to_lower iface.name
      then false
      else elim iface.addresses [
        | none ↦ false
        | some addresses ↦ any (address_contains ip) addresses
      ]

  admits : IpAddress → Bool
  unfolding interface_reaches any
  admits ip =
      if is_loopback ip
      then true
      else elim interfaces [ none ↦ false | some all ↦ any (interface_reaches ip) all ]

  -- isDirectLANRemote
  unfoldable pub is_direct_lan_remote : String → Bool
  unfolding admits trim_brackets
  is_direct_lan_remote remote = elim (split_host_port remote) [
    | none ↦ false
    | some host ↦ elim (parse_ip (trim_brackets host)) [ none ↦ false | some ip ↦ admits ip ]
  ]

-- publicKey
unfoldable pub checked_public_key : Bytes → Result Bytes
checked_public_key value =
    if not (length value == public_key_size)
    then err (plain "invalid Ed25519 public key")
    else ok value
