-- ===== src/Service/Endpoints/Distinct.antt =====
-- That the endpoints which `directEndpoints` of internal/service/daemon.go lists are distinct, and
-- that there is one.
use Prim.Native.Char.{Char}
use peercontext.Common.{
  ◌≡◌, ◌≢◌, refl, ◌∙◌, Bool, true, false, not, ◌||◌, none, some, List, [], ◌∷◌, ◌++◌, String,
  if◌then◌else◌, length, any, arith, Bool-cases, inl, inr, ◌==◌, nat_eq, string_eq, ==_comm,
}
use peercontext.Common.Unique.{Unique, Unique-append, any_congr}
use peercontext.Lanhost.Remote.{is_tunnel_interface}
use peercontext.Service.Endpoints.{
  Address, LanInterface, add_endpoint, add_address, add_addresses, add_interfaces, direct_endpoints,
}

abbrev pub Distinct : List String → Type 0
Distinct es = Unique (λ a b. a == b) es

add_endpoint-Distinct :
    (endpoint : String) (found : List String)
    → Distinct found
    → Distinct (add_endpoint endpoint found)
unfolding add_endpoint
add_endpoint-Distinct endpoint found u = elim (Bool-cases (any (λ e. e == endpoint) found)) [
  | inl e ↦ rw (e, add_endpoint) u
  | inr e ↦
      let new : any (λ e. endpoint == e) found ≡ false =
        any_congr (λ e. endpoint == e) (λ e. e == endpoint) found (λ x. ==_comm endpoint x) ∙ e in
      rw (e, add_endpoint) (Unique-append (λ a b. a == b) (λ a b. ==_comm a b) found endpoint u new)
]

module _ (to_lower : Char → Char) (endpoint_of : String → String) where
  add_address-Distinct :
      (a : Address) (found : List String)
      → Distinct found
      → Distinct (add_address to_lower endpoint_of a found)
  unfolding add_address
  add_address-Distinct none found u = u
  add_address-Distinct (some (ip, true)) found u = add_endpoint-Distinct (endpoint_of ip) found u
  add_address-Distinct (some (ip, false)) found u = u

  add_addresses-Distinct :
      (as_ : List Address) (found : List String)
      → Distinct found
      → Distinct (add_addresses to_lower endpoint_of as_ found)
  unfolding add_addresses
  add_addresses-Distinct [] found u = u
  add_addresses-Distinct (a ∷ as_) found u =
      add_addresses-Distinct as_ _ (add_address-Distinct a found u)

  add_interfaces-Distinct :
      (is : List LanInterface) (found : List String)
      → Distinct found
      → Distinct (add_interfaces to_lower endpoint_of is found)
  unfolding add_interfaces
  add_interfaces-Distinct [] found u = u
  add_interfaces-Distinct (i ∷ is) found u =
      elim (Bool-cases (not i.up || i.loopback || is_tunnel_interface to_lower i.name)) [
        | inl e ↦ rw (add_interfaces, e) (add_interfaces-Distinct is found u)
        | inr e ↦
            rw (add_interfaces, e)
              (add_interfaces-Distinct is _ (add_addresses-Distinct i.addresses found u))
      ]

  with_loopback : Bool → List String → List String
  with_loopback include_loopback found =
      if length found == 0 || include_loopback then found ++ endpoint_of "127.0.0.1" ∷ [] else found

  with_loopback-Distinct :
      (include_loopback : Bool) (found : List String)
      → Distinct found
      → (length (with_loopback include_loopback found) ≢ 0) × Distinct (with_loopback false found)
  unfolding with_loopback any
  with_loopback-Distinct include_loopback [] u = (λ h. ground arith, (refl, tt))
  with_loopback-Distinct include_loopback (e ∷ es) u =
      let some_found : (length (e ∷ es) == 0) ≡ false = ground arith in
      (λ h. ground arith, rw some_found u)

  -- What `directEndpoints` lists is never empty, and without the loopback address that the
  -- environment may ask for no endpoint is listed twice.
  pub direct_endpoints-Distinct :
      (include_loopback : Bool) (interfaces : List LanInterface)
      → (length (direct_endpoints to_lower endpoint_of include_loopback interfaces) ≢ 0)
        × Distinct (direct_endpoints to_lower endpoint_of false interfaces)
  unfolding direct_endpoints with_loopback
  direct_endpoints-Distinct include_loopback interfaces =
      with_loopback-Distinct include_loopback (add_interfaces to_lower endpoint_of interfaces [])
        (add_interfaces-Distinct interfaces [] tt)
