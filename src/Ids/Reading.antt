-- ===== src/Ids/Reading.antt =====
-- What a short id tells, src/common/id-generator.ts.
use distributed_rpc_js.Common.{
  ℕ, zero, suc, ◌+◌, ◌-◌, ◌*◌, ◌/◌, ◌%◌, ◌^◌, ◌≤◌, ◌<◌, ◌≡◌, refl, ap, ◌∙◌, List, [], ◌∷◌, ◌++◌,
  arith, length, replicate, take, drop, length-append, length-replicate, take-append, drop-append,
}
use distributed_rpc_js.Ids.{hex_digits, to_hex, pad_start, bytes_to_hex, short_id}

-- The number that hexadecimal digits write, after a number read before.
unfoldable pub value_after : ℕ → List ℕ → ℕ
value_after n [] = n
value_after n (d ∷ ds) = value_after (n * 16 + d) ds

-- The bytes that pairs of hexadecimal digits write.
unfoldable pub hex_to_bytes : List ℕ → List ℕ
hex_to_bytes [] = []
hex_to_bytes (d ∷ []) = []
hex_to_bytes (d ∷ e ∷ ds) = (d * 16 + e) ∷ hex_to_bytes ds

value_after-append :
    (n : ℕ) (ds es : List ℕ) → value_after n (ds ++ es) ≡ value_after (value_after n ds) es
unfolding value_after
value_after-append n [] es = refl
value_after-append n (d ∷ ds) es = value_after-append (n * 16 + d) ds es

value_after-hex_digits : (fuel n : ℕ) → n ≤ fuel → value_after 0 (hex_digits fuel n) ≡ n
unfolding value_after hex_digits
value_after-hex_digits zero n enough = omega arith
value_after-hex_digits (suc fuel) n enough =
    let split = value_after-append 0 (hex_digits fuel (n / 16)) (n % 16 ∷ []) in
    ground (arith, split, value_after-hex_digits fuel (n / 16))

value_after-zeros : (k : ℕ) (ds : List ℕ) → value_after 0 (replicate k 0 ++ ds) ≡ value_after 0 ds
unfolding value_after
value_after-zeros zero ds = refl
value_after-zeros (suc k) ds = value_after-zeros k ds

value_after-pad_start :
    (width : ℕ) (ds : List ℕ) → value_after 0 (pad_start width ds) ≡ value_after 0 ds
unfolding pad_start
value_after-pad_start width ds = value_after-zeros (width - length ds) ds

length-hex_digits : (k fuel n : ℕ) → n < 16 ^ suc k → length (hex_digits fuel n) ≤ suc k
unfolding hex_digits
length-hex_digits k zero n small = omega arith
length-hex_digits zero (suc fuel) n small = ground arith
length-hex_digits (suc k) (suc fuel) n small =
    let split = length-append (hex_digits fuel (n / 16)) (n % 16 ∷ []) in
    ground (arith, split, length-hex_digits k fuel (n / 16))

hex_to_bytes-bytes_to_hex : (bytes : List ℕ) → hex_to_bytes (bytes_to_hex bytes) ≡ bytes
unfolding hex_to_bytes bytes_to_hex
hex_to_bytes-bytes_to_hex [] = refl
hex_to_bytes-bytes_to_hex (b ∷ bytes) =
    let here : b / 16 * 16 + b % 16 ≡ b = omega arith in
    rw (here, hex_to_bytes-bytes_to_hex bytes) refl

length-bytes_to_hex : (bytes : List ℕ) → length (bytes_to_hex bytes) ≡ length bytes * 2
unfolding bytes_to_hex
length-bytes_to_hex [] = refl
length-bytes_to_hex (b ∷ bytes) = omega (arith, length-bytes_to_hex bytes)

length-pad_start :
    (width : ℕ) (ds : List ℕ) → length ds ≤ width → length (pad_start width ds) ≡ width
unfolding pad_start
length-pad_start width ds fits = omega (
  arith,
  length-append {A = ℕ} (replicate (width - length ds) 0) ds,
  length-replicate {A = ℕ} (width - length ds) 0,
  fits,
)

-- A short id made before the seconds reach 16 ^ 8, with four random bytes, has 16 digits; the first
-- 8 read as the seconds and the others as the bytes.
pub short_id-read :
    (seconds : ℕ) (random : List ℕ)
    → seconds < 16 ^ 8
    → length random ≡ 4
    → let id = short_id seconds random in
      (length id ≡ 16) × (value_after 0 (take 8 id) ≡ seconds) × (hex_to_bytes (drop 8 id) ≡ random)
unfolding short_id to_hex
short_id-read seconds random small four =
    let digits = pad_start 8 (hex_digits seconds seconds) in
    let eight =
      length-pad_start 8 (hex_digits seconds seconds) (length-hex_digits 7 seconds seconds small) in
    let stamp = value_after-hex_digits seconds seconds (omega arith) in
    let padded = value_after-pad_start 8 (hex_digits seconds seconds) in
    (
      omega (
        arith,
        length-append digits (bytes_to_hex random),
        length-bytes_to_hex random,
        eight,
        four,
      ),
      ap (value_after 0) (take-append digits (bytes_to_hex random) 8 eight) ∙ (padded ∙ stamp),
      ap hex_to_bytes (drop-append digits (bytes_to_hex random) 8 eight)
          ∙ hex_to_bytes-bytes_to_hex random,
    )
