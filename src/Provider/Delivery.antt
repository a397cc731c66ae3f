-- ===== src/Provider/Delivery.antt =====
-- ServiceProvider._handleApiResponse on the data events of a connection
-- (src/provider/service-provider.ts): what it leaves alone, and what a stream of bytes does to it.
use distributed_rpc_js.Common.{
  ℕ, ◌≡◌, ◌≢◌, ◌<◌, ◌≤◌, refl, ◌∙◌, Bool, true, Option, none, some, List, [], ◌∷◌, ◌++◌, arith,
  String, eq_iff, All, length,
}
use distributed_rpc_js.Common.Dict.{get, get-set_self, get-delete, get-delete_self, get-delete_ne}
use distributed_rpc_js.Types.{ApiCall, AckType, max_header_len}
use distributed_rpc_js.Provider.Frame.{
  TextCodec, Frame, encode_frame, decode_frame, id_field_len, encode_frame-append,
  decode_frame_short,
}
use distributed_rpc_js.Provider.Pool.{
  resolve, Pool, or_fresh, send_message, ask, ask_unacknowledged, on_frame, handle_api_response,
  handle_api_response-encode_frame,
}

-- A data event carries a message id.
abbrev pub Carries : TextCodec → String → List ℕ → Type 0
Carries codec id bytes =
    (f : Frame) × (decode_frame bytes ≡ some f) × (codec.decode f.id_bytes ≡ id)

module _ {A : Type 0} (codec : TextCodec) where
  -- A message shorter than a header changes nothing.
  pub handle_api_response_short :
      (bytes : List ℕ) (p : Pool A)
      → length bytes < max_header_len
      → handle_api_response codec bytes p ≡ p
  unfolding handle_api_response
  handle_api_response_short bytes p h = rw (decode_frame_short bytes h)

  -- Two success frames that arrive in one data event are read as one, if the first answers a
  -- request that waits: that request is settled with the bytes of both, and every other request is
  -- left waiting, the second one too; the id of the first is one that the text codec gives back,
  -- without NUL bytes and of at most 63 bytes.
  pub coalesced_answers :
      (id id' : String) (payload payload' : List ℕ) (p : Pool A) (request : ApiCall A) (k : ℕ)
      → get id p.pol_reqs ≡ some request
      → request.promise ≡ some k
      → codec.decode (codec.encode id) ≡ id
      → All (λ b. b ≢ 0) (codec.encode id)
      → length (codec.encode id) ≤ id_field_len
      → let second = encode_frame true (codec.encode id') payload' in
        let answered =
          handle_api_response codec (encode_frame true (codec.encode id) payload ++ second) p in
        (answered.settled ≡ resolve k (payload ++ second) ∷ p.settled)
        × ((j : String) → j ≢ id → get j answered.pol_reqs ≡ get j p.pol_reqs)
  coalesced_answers id id' payload payload' p request k found waits text no_null fits =
      rw
        (encode_frame-append true (codec.encode id) payload
          (encode_frame true (codec.encode id') payload'))
        (rw (handle_api_response-encode_frame codec true id _ p text no_null fits)
          (rw (found, waits), λ j ne. ground (arith, eq_iff id j, get-delete id j p.pol_reqs)))

  -- An answer whose message id the text codec gives back, without NUL bytes and of at most 63
  -- bytes, settles its promise once when it is delivered twice.
  pub repeated_answer :
      (success : Bool) (id : String) (payload : List ℕ) (p : Pool A)
      → codec.decode (codec.encode id) ≡ id
      → All (λ b. b ≢ 0) (codec.encode id)
      → length (codec.encode id) ≤ id_field_len
      → let frame = encode_frame success (codec.encode id) payload in
        let once = handle_api_response codec frame p in
        (handle_api_response codec frame once).settled ≡ once.settled
  repeated_answer success id payload p text no_null fits =
      rw (handle_api_response-encode_frame codec success id payload _ text no_null fits) (
        rw (handle_api_response-encode_frame codec success id payload p text no_null fits)
          (rw (get-delete_self id p.pol_reqs)))

  unfoldable pub receive : List (List ℕ) → Pool A → Pool A
  receive [] p = p
  receive (bytes ∷ events) p = receive events (handle_api_response codec bytes p)

  handle_api_response_other :
      (id : String) (bytes : List ℕ) (p : Pool A)
      → ¬ (Carries codec id bytes)
      → get id (handle_api_response codec bytes p).pol_reqs ≡ get id p.pol_reqs
  unfolding handle_api_response on_frame
  handle_api_response_other id bytes p h = go (decode_frame bytes) refl
    where
      go :
          (o : Option Frame)
          → decode_frame bytes ≡ o
          → get id (on_frame codec o p).pol_reqs ≡ get id p.pol_reqs
      go none e = refl
      go (some f) e = get-delete_ne (codec.decode f.id_bytes) id p.pol_reqs (λ same. h (f, e, same))

  receive_other :
      (id : String) (events : List (List ℕ)) (p : Pool A)
      → All (λ bytes. ¬ (Carries codec id bytes)) events
      → get id (receive events p).pol_reqs ≡ get id p.pol_reqs
  unfolding receive
  receive_other id [] p h = refl
  receive_other id (bytes ∷ events) p (h, hs) =
      receive_other id events (handle_api_response codec bytes p) hs
      ∙ handle_api_response_other id bytes p h

  -- A request sent with AckType.None enters the pool like any other, and stays there until a data
  -- event carries its message id.
  pub unacknowledged_stays :
      (fresh : String) (message : ApiCall A) (p : Pool A) (events : List (List ℕ)) (id : String)
      → or_fresh message.msg_id fresh ≡ id
      → All (λ bytes. ¬ (Carries codec id bytes)) events
      → get id (receive events (ask none fresh message AckType.none p).1).pol_reqs
        ≡ some (send_message fresh message)
  unacknowledged_stays fresh message p events id chosen others =
      rw (receive_other id events _ others)
        (rw (ask_unacknowledged fresh message p chosen) (get-set_self id _ p.pol_reqs))
