-- ===== src/Network/Addresses/Tests.antt =====
-- Addresses of a host with two interfaces.
use distributed_rpc_js.Common.{ℕ, ◌≡◌, refl, arith, false, none, List, [], ◌∷◌}
use distributed_rpc_js.Common.Dict.{Dict}
use distributed_rpc_js.Network.Addresses.{
  Nic, AddressText, broadcast_parts, get_available_broadcast_addresses, get_broadcast_address,
  get_host_ip,
}
use distributed_rpc_js.Network.Addresses.Blocks.{broadcast_parts-blocks}

-- 172.20.37.5 with the netmask 255.255.240.0
abbrev cells : List (ℕ × ℕ)
cells = (0, 172) ∷ (0, 20) ∷ (4, 37) ∷ (8, 5) ∷ []

broadcast_parts-blocks_example :
    broadcast_parts (172 ∷ 20 ∷ 37 ∷ 5 ∷ []) (255 ∷ 255 ∷ 240 ∷ 0 ∷ []) ≡ 172 ∷ 20 ∷ 47 ∷ 255 ∷ []
broadcast_parts-blocks_example = broadcast_parts-blocks cells (
  (omega arith, omega arith),
  ((omega arith, omega arith), ((omega arith, omega arith), ((omega arith, omega arith), tt))),
)

abbrev some_text : AddressText
some_text = record {
  parts = λ x. 10 ∷ 0 ∷ 0 ∷ 7 ∷ [];
  join = λ parts. "joined";
  split_slash = λ x. x ∷ [];
}

abbrev ethernet : Dict (List Nic)
ethernet =
    (
      "eth0",
      record { family = "IPv4"; is_internal = false; address = "10.0.0.7"; netmask = "255.0.0.0" }
          ∷ [],
    )
    ∷ []

one_address : get_available_broadcast_addresses some_text none ethernet ≡ "joined" ∷ []
unfolding get_available_broadcast_addresses distributed_rpc_js.Network.Addresses.get_nic
    distributed_rpc_js.Network.Addresses.all_usable distributed_rpc_js.Network.Addresses.usable
    distributed_rpc_js.Network.Addresses.broadcast_of
one_address = refl
