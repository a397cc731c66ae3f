-- ===== src/Network/Addresses.antt =====
-- src/network/network-events.ts: the addresses of the host. The interfaces and the environment's
-- variables are given. What `split`, `Number` and `join` do to the text of an address is a parameter.
pub mod Blocks
pub mod Missing
mod Tests
use Prim.Native.Nat.{bit_or}
use distributed_rpc_js.Common.{
  ℕ, ◌-◌, ◌%◌, Bool, true, false, not, ◌&&◌, Option, none, some, List, [], ◌∷◌, ◌++◌, map,
  if◌then◌else◌, String, str_eq,
}
use distributed_rpc_js.Common.Dict.{Dict}

-- os.NetworkInterfaceInfo
pub record Nic : Type 0 where
  pub family : String
  pub is_internal : Bool
  pub address : String
  pub netmask : String

-- `address.split(".").map(Number)`, `parts.join(".")`, and `text.split("/")`.
pub record AddressText : Type 0 where
  pub parts : String → List ℕ
  pub join : List ℕ → String
  pub split_slash : String → List String

abbrev pub is_usable : Nic → Bool
is_usable nic = str_eq nic.family "IPv4" && not nic.is_internal

-- `~mask & 0xff`
unfoldable pub inverted : ℕ → ℕ
inverted mask = 255 - mask % 256

-- `addrParts.map((part, i) => part | (~maskParts[i] & 0xff))`: a missing part of the mask is -1 once
-- inverted.
unfoldable pub broadcast_parts : List ℕ → List ℕ → List ℕ
unfolding inverted
broadcast_parts [] masks = []
broadcast_parts (part ∷ parts) [] = bit_or part 255 ∷ broadcast_parts parts []
broadcast_parts (part ∷ parts) (mask ∷ masks) =
    bit_or part (inverted mask) ∷ broadcast_parts parts masks

-- `getNIC`
unfoldable pub named : String → Dict (List Nic) → Dict (List Nic)
named name [] = []
named name ((k, nics) ∷ ifaces) =
    let rest = named name ifaces in if str_eq k name then (k, nics) ∷ rest else rest

unfoldable pub get_nic : Option String → Dict (List Nic) → Dict (List Nic)
unfolding named
get_nic none ifaces = ifaces
get_nic (some name) ifaces = named name ifaces

-- The cards that the two loops go through, in their order.
unfoldable pub usable : List Nic → List Nic
usable [] = []
usable (nic ∷ nics) = let rest = usable nics in if is_usable nic then nic ∷ rest else rest

unfoldable pub all_usable : Dict (List Nic) → List Nic
unfolding usable
all_usable [] = []
all_usable ((k, nics) ∷ ifaces) = usable nics ++ all_usable ifaces

-- `process.env.X` counts when it is set and not empty.
abbrev pub if_set : Option String → Option String
if_set none = none
if_set (some x) = if str_eq x "" then none else some x

abbrev pub first : {A : Type 0} → List A → Option A
first [] = none
first (x ∷ xs) = some x

module _ (text : AddressText) where
  unfoldable pub broadcast_of : Nic → String
  broadcast_of nic = text.join (broadcast_parts (text.parts nic.address) (text.parts nic.netmask))

  -- `getAvailableBroadcastAddresses`
  unfoldable pub get_available_broadcast_addresses : Option String → Dict (List Nic) → List String
  unfolding broadcast_of all_usable get_nic
  get_available_broadcast_addresses iface ifaces =
      map broadcast_of (all_usable (get_nic iface ifaces))

  -- `getBroadcastAddress`, with the variable BROADCAST
  unfoldable pub get_broadcast_address :
      Option String → Option String → Dict (List Nic) → Option String
  get_broadcast_address broadcast iface ifaces = elim (if_set broadcast) [
    | some x ↦ some x
    | none ↦ first (get_available_broadcast_addresses iface ifaces)
  ]

  -- `getLocalIPv4Address`
  unfoldable pub get_local_ipv4_address : Option String → Dict (List Nic) → Option String
  unfolding all_usable get_nic
  get_local_ipv4_address iface ifaces =
      first (map (λ nic. nic.address) (all_usable (get_nic iface ifaces)))

  -- `parts.length > 1 ? parts[0] : envHostCIDR`
  abbrev pub host_part : String → List String → String
  host_part cidr [] = cidr
  host_part cidr (x ∷ []) = cidr
  host_part cidr (x ∷ y ∷ parts) = x

  abbrev pub or_local : Option String → String
  or_local none = "127.0.0.1"
  or_local (some x) = x

  -- `getHostIP`, with the variables HOST_IP, HOST_CIDR and IFACE
  unfoldable pub get_host_ip :
      Option String → Option String → Option String → Dict (List Nic) → String
  get_host_ip host_ip host_cidr iface ifaces = elim (if_set host_ip) [
    | some x ↦ x
    | none ↦ elim (if_set host_cidr) [
      | some cidr ↦ host_part cidr (text.split_slash cidr)
      | none ↦ or_local (if_set (get_local_ipv4_address iface ifaces))
    ]
  ]
