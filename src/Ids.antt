-- ===== src/Ids.antt =====
-- src/common/id-generator.ts (DefaultIdGenerator.shortId). A hexadecimal digit is known by its value,
-- and the text by its digits. The seconds and the random bytes are given.
pub mod Reading
mod Tests
use distributed_rpc_js.Common.{
  ℕ, zero, suc, ◌+◌, ◌-◌, ◌/◌, ◌%◌, List, [], ◌∷◌, ◌++◌, if◌then◌else◌, ltb, length, replicate,
}

-- `n.toString(16)`, by at most as many divisions as the fuel: n of them are enough.
unfoldable pub hex_digits : ℕ → ℕ → List ℕ
hex_digits zero n = n ∷ []
hex_digits (suc fuel) n =
    let rest = hex_digits fuel (n / 16) in if ltb n 16 then n ∷ [] else rest ++ n % 16 ∷ []

unfoldable pub to_hex : ℕ → List ℕ
unfolding hex_digits
to_hex n = hex_digits n n

-- `padStart(width, "0")`
unfoldable pub pad_start : ℕ → List ℕ → List ℕ
pad_start width digits = replicate (width - length digits) 0 ++ digits

-- `buffer.toString("hex")`
unfoldable pub bytes_to_hex : List ℕ → List ℕ
bytes_to_hex [] = []
bytes_to_hex (b ∷ bytes) = b / 16 ∷ b % 16 ∷ bytes_to_hex bytes

-- `shortId()`
unfoldable pub short_id : ℕ → List ℕ → List ℕ
unfolding to_hex pad_start bytes_to_hex
short_id seconds random = pad_start 8 (to_hex seconds) ++ bytes_to_hex random
