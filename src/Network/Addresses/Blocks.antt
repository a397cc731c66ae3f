-- ===== src/Network/Addresses/Blocks.antt =====
-- The broadcast address of a block of addresses, src/network/network-events.ts.
use Prim.Native.Nat.{bit_or}
use distributed_rpc_js.Common.{
  ℕ, zero, suc, ◌+◌, ◌-◌, ◌*◌, ◌/◌, ◌^◌, ◌≤◌, ◌<◌, ◌≡◌, refl, Bool, true, ◌&&◌, List, [], ◌∷◌, map,
  arith, All, ◌==◌,
}
use distributed_rpc_js.Network.Addresses.{broadcast_parts, inverted}

-- A property of every number below a bound, by evaluation.
all_below : ℕ → (ℕ → Bool) → Bool
all_below zero p = true
all_below (suc n) p = p n && all_below n p

all_below-holds : (n : ℕ) (p : ℕ → Bool) (x : ℕ) → all_below n p ≡ true → x < n → p x ≡ true
unfolding all_below
all_below-holds zero p x h lt = absurd (omega arith)
all_below-holds (suc n) p x h lt = ground (arith, all_below-holds n p x)

-- The last byte of its block of 2 ^ bits.
abbrev pub last_of_block : ℕ → ℕ → ℕ
last_of_block bits byte = byte / 2 ^ bits * 2 ^ bits + (2 ^ bits - 1)

-- The byte of a netmask that leaves so many bits to the hosts.
abbrev pub mask_of : ℕ → ℕ
mask_of bits = 256 - 2 ^ bits

abbrev agrees : ℕ → ℕ → Bool
agrees bits byte = bit_or byte (inverted (mask_of bits)) == last_of_block bits byte

byte_table : all_below 9 (λ bits. all_below 256 (λ byte. agrees bits byte)) ≡ true
unfolding all_below inverted
byte_table = refl

broadcast_byte :
    (bits byte : ℕ)
    → bits ≤ 8
    → byte < 256
    → bit_or byte (inverted (mask_of bits)) ≡ last_of_block bits byte
broadcast_byte bits byte few small =
    let row =
      all_below-holds 9 (λ b. all_below 256 (λ x. agrees b x)) bits byte_table (omega arith) in
    let entry = all_below-holds 256 (λ x. agrees bits x) byte row small in ground (arith, entry)

-- For bytes of an address and a netmask whose bytes leave at most 8 bits each to the hosts, each
-- byte of the computed broadcast address is the last of its block.
pub broadcast_parts-blocks :
    (cells : List (ℕ × ℕ))
    → All (λ cell. (cell.0 ≤ 8) × (cell.1 < 256)) cells
    → broadcast_parts (map (λ cell. cell.1) cells) (map (λ cell. mask_of cell.0) cells)
      ≡ map (λ cell. last_of_block cell.0 cell.1) cells
unfolding broadcast_parts
broadcast_parts-blocks [] all = refl
broadcast_parts-blocks ((bits, byte) ∷ cells) ((few, small), all) =
    let here = broadcast_byte bits byte few small in
    let later = broadcast_parts-blocks cells all in rw (here, later) refl
