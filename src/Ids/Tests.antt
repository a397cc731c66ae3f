-- ===== src/Ids/Tests.antt =====
-- A short id of September 2001.
use distributed_rpc_js.Common.{ℕ, ◌≡◌, refl, arith, List, [], ◌∷◌, length, take, drop}
use distributed_rpc_js.Ids.{short_id, hex_digits, pad_start}
use distributed_rpc_js.Ids.Reading.{value_after, hex_to_bytes, short_id-read}

abbrev random : List ℕ
random = 222 ∷ 173 ∷ 190 ∷ 239 ∷ []

short_id-read_example :
    let id = short_id 1000000000 random in
    (length id ≡ 16)
    × (value_after 0 (take 8 id) ≡ 1000000000)
    × (hex_to_bytes (drop 8 id) ≡ random)
short_id-read_example = short_id-read 1000000000 random (omega arith) refl

ten_digits : pad_start 4 (hex_digits 3 1000) ≡ 0 ∷ 3 ∷ 14 ∷ 8 ∷ []
unfolding pad_start hex_digits
ten_digits = refl
