-- ===== src/Provider/Frame.antt =====
-- The frame of a response: a header of MAX_HEADER_LEN (64) bytes, and the payload.
-- ServiceProvider.response writes it and _handleApiResponse reads it
-- (src/provider/service-provider.ts). A byte is a number; what Node's Buffer does to text is the
-- parameter `TextCodec`.

use mathlib.Core.List.{append_assoc}
use distributed_rpc_js.Common.{
  ℕ, zero, suc, ◌-◌, ◌≤◌, ◌≡◌, ◌≢◌, ◌<◌, refl, ap, Bool, true, false, Option, none, some, List, [],
  ◌∷◌, ◌++◌, arith, ltb, ◌==◌, if◌then◌else◌, length, take, drop, replicate, All, take-append,
  drop-append, take_of_short, length-append, length-take, length-replicate, String, not,
}
use distributed_rpc_js.Types.{max_header_len}

-- Buffer.from(text, "utf-8") and buffer.toString("utf8").
pub record TextCodec : Type 0 where
  pub encode : String → List ℕ
  pub decode : List ℕ → String

-- `header.write(msgId, 1)` into zeros: what does not fit is cut off.
abbrev pub id_field_len : ℕ
id_field_len = 63

unfoldable pub id_field : List ℕ → List ℕ
id_field bytes =
    take id_field_len bytes ++ replicate (id_field_len - length (take id_field_len bytes)) 0

-- The header and the payload in one buffer; the first byte is the success flag.
unfoldable pub encode_frame : Bool → List ℕ → List ℕ → List ℕ
unfolding id_field
encode_frame success id_bytes payload = ((if success then 1 else 0) ∷ id_field id_bytes) ++ payload

-- `.replace(/\0/g, "")`, on the bytes: in UTF-8 a zero byte is the character NUL and nothing else.
unfoldable pub drop_nulls : List ℕ → List ℕ
drop_nulls [] = []
drop_nulls (b ∷ bs) = let rest = drop_nulls bs in if b == 0 then rest else b ∷ rest

pub record Frame : Type 0 where
  pub success : Bool
  pub id_bytes : List ℕ
  pub message : List ℕ

-- `!!header[0]`
abbrev pub first_is_set : List ℕ → Bool
first_is_set [] = false
first_is_set (b ∷ bs) = not (b == 0)

-- `none` is a message shorter than a header.
unfoldable pub decode_frame : List ℕ → Option Frame
unfolding drop_nulls
decode_frame bytes =
    if ltb (length bytes) max_header_len
    then none
    else some (record {
      success = first_is_set (take max_header_len bytes);
      id_bytes = drop_nulls (drop 1 (take max_header_len bytes));
      message = drop max_header_len bytes;
    })

length-id_field : (bytes : List ℕ) → length (id_field bytes) ≡ id_field_len
unfolding id_field
length-id_field bytes = omega (
  arith,
  length-append {0} (take id_field_len bytes)
      (replicate (id_field_len - length (take id_field_len bytes)) 0),
  length-replicate {A = ℕ} (id_field_len - length (take id_field_len bytes)) 0,
  length-take {0} id_field_len bytes,
)

drop_nulls-replicate : (n : ℕ) → drop_nulls (replicate n 0) ≡ []
unfolding drop_nulls
drop_nulls-replicate zero = refl
drop_nulls-replicate (suc n) = drop_nulls-replicate n

drop_nulls-append :
    (bytes rest : List ℕ)
    → All (λ b. b ≢ 0) bytes
    → drop_nulls rest ≡ []
    → drop_nulls (bytes ++ rest) ≡ bytes
unfolding drop_nulls
drop_nulls-append [] rest h e = e
drop_nulls-append (b ∷ bs) rest h e = ground (arith, drop_nulls-append bs rest h.1 e)

drop_nulls-id_field :
    (bytes : List ℕ)
    → All (λ b. b ≢ 0) bytes
    → length bytes ≤ id_field_len
    → drop_nulls (id_field bytes) ≡ bytes
unfolding id_field
drop_nulls-id_field bytes h fits =
    rw (take_of_short id_field_len bytes fits)
      (drop_nulls-append bytes _ h (drop_nulls-replicate _))

-- A message that begins with a whole header is read as that header and the rest.
decode_frame-append :
    (header payload : List ℕ)
    → length header ≡ max_header_len
    → decode_frame (header ++ payload)
      ≡ some (record {
        success = first_is_set header;
        id_bytes = drop_nulls (drop 1 header);
        message = payload;
      })
unfolding decode_frame
decode_frame-append header payload h =
    let long : ltb (length (header ++ payload)) max_header_len ≡ false =
      ground (arith, length-append header payload, h) in
    rw (
      long,
      take-append header payload max_header_len h,
      drop-append header payload max_header_len h,
    )

-- Reading a response frame that was written gives back the flag, the message id and the payload, if
-- the id has no NUL byte and at most 63 bytes.
pub decode_frame-encode_frame :
    (success : Bool) (id_bytes payload : List ℕ)
    → All (λ b. b ≢ 0) id_bytes
    → length id_bytes ≤ id_field_len
    → decode_frame (encode_frame success id_bytes payload)
      ≡ some (record { success = success; id_bytes = id_bytes; message = payload })
unfolding encode_frame
decode_frame-encode_frame true id_bytes payload h fits =
    rw (decode_frame-append (1 ∷ id_field id_bytes) payload (ap suc (length-id_field id_bytes)))
      (rw (drop_nulls-id_field id_bytes h fits))
decode_frame-encode_frame false id_bytes payload h fits =
    rw (decode_frame-append (0 ∷ id_field id_bytes) payload (ap suc (length-id_field id_bytes)))
      (rw (drop_nulls-id_field id_bytes h fits))

-- What follows a frame in the same buffer is read as a part of its payload.
pub encode_frame-append :
    (success : Bool) (id_bytes payload rest : List ℕ)
    → encode_frame success id_bytes payload ++ rest
      ≡ encode_frame success id_bytes (payload ++ rest)
unfolding encode_frame
encode_frame-append success id_bytes payload rest = simp append_assoc

pub decode_frame_short :
    (bytes : List ℕ) → length bytes < max_header_len → decode_frame bytes ≡ none
unfolding decode_frame
decode_frame_short bytes h = ground arith
