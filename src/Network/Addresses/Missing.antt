-- ===== src/Network/Addresses/Missing.antt =====
-- A network interface that does not exist, src/network/network-events.ts.
use distributed_rpc_js.Common.{◌≡◌, refl, none, some, List, [], ◌∷◌, arith, String}
use distributed_rpc_js.Common.Dict.{Dict, get}
use distributed_rpc_js.Network.Addresses.{
  Nic, AddressText, named, get_nic, all_usable, get_available_broadcast_addresses,
  get_broadcast_address, get_local_ipv4_address, get_host_ip,
}

named_absent :
    (name : String) (ifaces : Dict (List Nic)) → get name ifaces ≡ none → named name ifaces ≡ []
unfolding named get
named_absent name [] absent = refl
named_absent name ((k, nics) ∷ ifaces) absent = ground (arith, named_absent name ifaces)

-- An interface that does not exist has no broadcast address, and no error is thrown.
pub missing_interface :
    (text : AddressText) (name : String) (ifaces : Dict (List Nic))
    → get name ifaces ≡ none
    → (get_available_broadcast_addresses text (some name) ifaces ≡ [])
      × (get_broadcast_address text none (some name) ifaces ≡ none)
      × (get_host_ip text none none (some name) ifaces ≡ "127.0.0.1")
unfolding get_available_broadcast_addresses get_broadcast_address get_host_ip get_local_ipv4_address
    get_nic all_usable
missing_interface text name ifaces absent =
    let gone = named_absent name ifaces absent in rw gone (refl, refl, refl)
