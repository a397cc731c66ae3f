-- ===== src/Provider/Answer.antt =====
-- ServiceProvider.response (src/provider/service-provider.ts): the bytes that answer a request.
use distributed_rpc_js.Common.{
  ℕ, ◌≡◌, ◌≢◌, refl, Bool, true, false, not, Option, none, some, List, [], arith, if◌then◌else◌,
  ◌==◌, String, ◌↔◌, str_eq,
}
use distributed_rpc_js.Types.{AckType, AckValue, ApiSpec, is_no_ack}
use distributed_rpc_js.Provider.Frame.{TextCodec, encode_frame}

-- A value of type `any` that a handler gives: `object` is neither a Buffer nor an array.
pub data Value : Type 0 where
  undefined object : Value
  boolean : Bool → Value
  number : ℕ → Value
  text : String → Value
  buffer : List ℕ → Value

-- `if (data)`
abbrev pub is_truthy : Value → Bool
is_truthy undefined = false
is_truthy object = true
is_truthy (boolean b) = b
is_truthy (number n) = not (n == 0)
is_truthy (text s) = not (str_eq s "")
is_truthy (buffer bytes) = true

-- What `response` does: nothing, one write, or a TypeError.
pub data Answered : Type 0 where
  silent type_error : Answered
  wrote : List ℕ → Answered

-- The strings of AckValue that are sent.
abbrev pub ack_text : AckValue → String
ack_text AckValue.ack = "Ack"
ack_text AckValue.error = "Error"
ack_text AckValue.invalid_req_data = "InvalidReqData"
ack_text AckValue.none = "None"

-- `[AckValue.Error, AckValue.InvalidReqData].includes(errType)`
abbrev pub is_failure : AckValue → Bool
is_failure AckValue.ack = false
is_failure AckValue.error = true
is_failure AckValue.invalid_req_data = true
is_failure AckValue.none = false

-- interface ResponseArgs; `can_write` says that the target is a TcpClient or a TcpSocket.
pub record ResponseArgs : Type 0 where
  pub api_spec : Option ApiSpec
  pub value : Value
  pub err_type : AckValue
  pub msg_id : Option String
  pub can_write : Bool

module _ (codec : TextCodec) where
  -- `if (request.msgId) header.write(request.msgId, 1)`: the empty string writes nothing either.
  abbrev pub id_bytes : Option String → List ℕ
  id_bytes none = []
  id_bytes (some id) = if str_eq id "" then [] else codec.encode id

  -- `Buffer.isBuffer(data) ? data : Buffer.from(data)`: `none` is the TypeError of Buffer.from.
  abbrev pub to_buffer : Value → Option (List ℕ)
  to_buffer undefined = none
  to_buffer object = none
  to_buffer (boolean b) = none
  to_buffer (number n) = none
  to_buffer (text s) = some (codec.encode s)
  to_buffer (buffer bytes) = some bytes

  abbrev pub success_payload : Value → Option (List ℕ)
  success_payload v =
      if is_truthy v then to_buffer v else some (codec.encode (ack_text AckValue.ack))

  write_payload : Option String → Option (List ℕ) → Answered
  write_payload id none = type_error
  write_payload id (some payload) = wrote (encode_frame true (id_bytes id) payload)

  -- Past the failures: the specification's `ack` is read, a TypeError if there is none.
  answer_success : Option ApiSpec → Option String → Value → Answered
  unfolding write_payload
  answer_success none id v = type_error
  answer_success (some spec) id v =
      if is_no_ack spec.ack then silent else write_payload id (success_payload v)

  unfoldable pub response : ResponseArgs → Answered
  unfolding answer_success
  response a =
      if not a.can_write
      then silent
      else if is_failure a.err_type
      then wrote (encode_frame false (id_bytes a.msg_id) (codec.encode (ack_text a.err_type)))
      else answer_success a.api_spec a.msg_id a.value

  -- Nothing is written for a success whose API asks for no acknowledgement.
  pub response_unacknowledged :
      (a : ResponseArgs) (spec : ApiSpec)
      → a.api_spec ≡ some spec
      → spec.ack ≡ AckType.none
      → is_failure a.err_type ≡ false
      → response a ≡ silent
  unfolding response
  response_unacknowledged a spec known ack ok = ground arith

  -- A failure is written whatever the specification, to any target that can be written.
  pub response_failure :
      (a : ResponseArgs)
      → a.can_write ≡ true
      → is_failure a.err_type ≡ true
      → response a
        ≡ wrote (encode_frame false (id_bytes a.msg_id) (codec.encode (ack_text a.err_type)))
  unfolding response
  response_failure a able failed = ground arith

  -- An acknowledged success is a TypeError exactly when its value is truthy and Buffer.from takes
  -- none of it: `true`, an object or a number other than 0.
  pub response-type_error_iff :
      (a : ResponseArgs) (spec : ApiSpec)
      → a.api_spec ≡ some spec
      → (spec.ack ≢ AckType.none)
      → is_failure a.err_type ≡ false
      → a.can_write ≡ true
      → (response a ≡ type_error) ↔ ((is_truthy a.value ≡ true) × (to_buffer a.value ≡ none))
  unfolding response
  response-type_error_iff a spec known acked ok able = ground arith

  write_payload-inv :
      (id : Option String) (o : Option (List ℕ)) (bytes : List ℕ)
      → write_payload id o ≡ wrote bytes
      → (payload : List ℕ) × (o ≡ some payload) × (bytes ≡ encode_frame true (id_bytes id) payload)
  unfolding write_payload
  write_payload-inv id none bytes h = cc
  write_payload-inv id (some payload) bytes h = (payload, refl, cc)

  answer_some-inv :
      (b : Bool) (id : Option String) (v : Value) (bytes : List ℕ)
      → (if b then silent else write_payload id (success_payload v)) ≡ wrote bytes
      → (b ≡ false) × (write_payload id (success_payload v) ≡ wrote bytes)
  answer_some-inv true id v bytes h = cc
  answer_some-inv false id v bytes h = (refl, h)

  -- A success that is written to a target that can be written is the frame of its payload, and its
  -- specification asks for an acknowledgement.
  pub response_wrote :
      (a : ResponseArgs) (bytes : List ℕ)
      → is_failure a.err_type ≡ false
      → a.can_write ≡ true
      → response a ≡ wrote bytes
      → (spec : ApiSpec) × (payload : List ℕ) × (a.api_spec ≡ some spec)
        × (is_no_ack spec.ack ≡ false)
        × (success_payload a.value ≡ some payload)
        × (bytes ≡ encode_frame true (id_bytes a.msg_id) payload)
  unfolding response
  response_wrote a bytes ok able h = go a.api_spec refl (rw (able, ok) at h)
    where
      go :
          (o : Option ApiSpec)
          → a.api_spec ≡ o
          → answer_success o a.msg_id a.value ≡ wrote bytes
          → (spec : ApiSpec) × (payload : List ℕ) × (a.api_spec ≡ some spec)
            × (is_no_ack spec.ack ≡ false)
            × (success_payload a.value ≡ some payload)
            × (bytes ≡ encode_frame true (id_bytes a.msg_id) payload)
      go none e w = cc
      go (some spec) e w =
          let (acked, w') = answer_some-inv (is_no_ack spec.ack) a.msg_id a.value bytes w in
          let (payload, from, same) =
            write_payload-inv a.msg_id (success_payload a.value) bytes w' in
          (spec, payload, e, acked, from, same)
