-- ===== src/Provider/Pool.antt =====
-- The pool of pending requests: ServiceProvider.ask, _handleApiResponse and buildMessage
-- (src/provider/service-provider.ts), with TcpClient.sendMessage (src/network/tcp-client.ts).
-- Promises are numbered; the settled ones are kept in a list, the latest first.
use distributed_rpc_js.Common.{
  ℕ, ◌+◌, ◌≡◌, ◌≢◌, refl, ap, Bool, Option, none, some, List, ◌∷◌, arith, if◌then◌else◌, String,
  str_eq, eq_iff, All, length, ◌≤◌,
}
use distributed_rpc_js.Common.Dict.{Dict, get, set, delete, get-set, get-delete}
use distributed_rpc_js.Types.{PeerIdentity, ApiCall, AckType, is_no_ack}
use distributed_rpc_js.Retry.{Failure}
use distributed_rpc_js.Provider.Frame.{
  TextCodec, Frame, encode_frame, decode_frame, id_field_len, decode_frame-encode_frame,
}

-- How a promise of `ask` was settled, and with which bytes.
pub data Settlement : Type 0 where
  resolve : ℕ → List ℕ → Settlement
  reject : ℕ → List ℕ → Settlement

-- `polReqs`, and the promises made and settled so far.
pub record Pool (A : Type 0) : Type 0 where
  pub pol_reqs : Dict (ApiCall A)
  pub next_promise : ℕ
  pub settled : List Settlement

pub data AskOutcome : Type 0 where
  threw : Failure → AskOutcome
  asked : String → Option ℕ → AskOutcome

-- `if (message.msgId)`: the empty string counts as no id.
abbrev pub or_fresh : Option String → String → String
or_fresh none fresh = fresh
or_fresh (some id) fresh = if str_eq id "" then fresh else id

module _ {A : Type 0} where
  -- ServiceProvider.buildMessage
  unfoldable pub build_message : PeerIdentity → String → A → Option String → ApiCall A
  build_message peer path args msg_id = record {
    peer = some peer;
    api = some path;
    args = args;
    msg_id = msg_id;
    promise = none;
  }

  -- TcpClient.sendMessage: the message with its id, and the failure of the write if it failed.
  -- `fresh` is what the id generator gives.
  unfoldable pub send_message : String → ApiCall A → ApiCall A
  send_message fresh message = record message { msg_id = some (or_fresh message.msg_id fresh) }

  -- `polReqs.set(msgId, message)`, and a promise in the message unless no answer is expected. The
  -- map holds the message itself, so the promise set later is in the entry.
  enter : String → ApiCall A → AckType → Pool A → AskOutcome × Pool A
  enter id message ack p =
      if is_no_ack ack
      then (asked id none, record p { pol_reqs = set id message p.pol_reqs })
      else (
        asked id (some p.next_promise),
        record p {
          pol_reqs = set id (record message { promise = some p.next_promise }) p.pol_reqs;
          next_promise = p.next_promise + 1;
        },
      )

  -- `written` is the failure with which the write is rejected, if it is.
  unfoldable pub ask : Option Failure → String → ApiCall A → AckType → Pool A → AskOutcome × Pool A
  unfolding send_message enter
  ask (some e) fresh message ack p = (threw e, p)
  ask none fresh message ack p =
      enter (or_fresh message.msg_id fresh) (send_message fresh message) ack p

  abbrev pub settle : Option (ApiCall A) → Frame → List Settlement → List Settlement
  settle none f done = done
  settle (some request) f done = elim request.promise [
    | none ↦ done
    | some p ↦ (if f.success then resolve p f.message else reject p f.message) ∷ done
  ]

  -- The id is looked up and deleted, and a promise that waits for it is settled.
  abbrev pub deliver : String → Frame → Pool A → Pool A
  deliver id f p = record p {
    pol_reqs = delete id p.pol_reqs;
    settled = settle (get id p.pol_reqs) f p.settled;
  }

  ask_sent :
      (fresh : String) (message : ApiCall A) (ack : AckType) (p : Pool A) {id : String}
      → or_fresh message.msg_id fresh ≡ id
      → ask none fresh message ack p ≡ enter id (send_message fresh message) ack p
  unfolding ask
  ask_sent fresh message ack p chosen = ap (λ k. enter k (send_message fresh message) ack p) chosen

  -- With AckType.None the message enters the pool as it is.
  pub ask_unacknowledged :
      (fresh : String) (message : ApiCall A) (p : Pool A) {id : String}
      → or_fresh message.msg_id fresh ≡ id
      → ask none fresh message AckType.none p
        ≡ (asked id none, record p { pol_reqs = set id (send_message fresh message) p.pol_reqs })
  unfolding enter
  ask_unacknowledged fresh message p chosen = ask_sent fresh message AckType.none p chosen

  enter-deliver :
      (id : String) (message : ApiCall A) (ack : AckType) (p : Pool A) (f : Frame)
      → ack ≢ AckType.none
      → let answered = deliver id f (enter id message ack p).1 in
        (answered.settled
          ≡ (if f.success
              then resolve p.next_promise f.message
              else reject p.next_promise f.message)
            ∷ p.settled)
        × (get id answered.pol_reqs ≡ none)
        × ((j : String) → j ≢ id → get j answered.pol_reqs ≡ get j p.pol_reqs)
  unfolding enter
  enter-deliver id message AckType.none p f acked = absurd (acked refl)
  enter-deliver id message ack p f acked = (
    ground (
      arith,
      eq_iff id id,
      get-set id id (record message { promise = some p.next_promise }) p.pol_reqs,
    ),
    ground (
      arith,
      eq_iff id id,
      get-delete id id (set id (record message { promise = some p.next_promise }) p.pol_reqs),
    ),
    λ j ne. ground (
      arith,
      eq_iff id j,
      get-set id j (record message { promise = some p.next_promise }) p.pol_reqs,
      get-delete id j (set id (record message { promise = some p.next_promise }) p.pol_reqs),
    ),
  )

  module _ (codec : TextCodec) where
    unfoldable pub on_frame : Option Frame → Pool A → Pool A
    on_frame none p = p
    on_frame (some f) p = deliver (codec.decode f.id_bytes) f p

    unfoldable pub handle_api_response : List ℕ → Pool A → Pool A
    unfolding on_frame
    handle_api_response bytes p = on_frame (decode_frame bytes) p

    -- A frame of this provider for the message id `id` is delivered under that id.
    pub handle_api_response-encode_frame :
        (success : Bool) (id : String) (payload : List ℕ) (p : Pool A)
        → codec.decode (codec.encode id) ≡ id
        → All (λ b. b ≢ 0) (codec.encode id)
        → length (codec.encode id) ≤ id_field_len
        → handle_api_response (encode_frame success (codec.encode id) payload) p
          ≡ deliver id
              (record { success = success; id_bytes = codec.encode id; message = payload })
              p
    unfolding handle_api_response
    handle_api_response-encode_frame success id payload p text no_null fits =
        rw
          (
            handle_api_response,
            decode_frame-encode_frame success (codec.encode id) payload no_null fits,
          )
          (rw text)

    -- After an acknowledged `ask`, the answer that carries its message id settles that promise with
    -- the flag and the payload of the answer, removes the request, and leaves every other pending
    -- request alone; the id is one that the text codec gives back, without NUL bytes and of at most
    -- 63 bytes.
    pub ask-answer_settles :
        (fresh : String) (message : ApiCall A) (ack : AckType) (p : Pool A) (id : String)
        (success : Bool) (payload : List ℕ)
        → ack ≢ AckType.none
        → or_fresh message.msg_id fresh ≡ id
        → codec.decode (codec.encode id) ≡ id
        → All (λ b. b ≢ 0) (codec.encode id)
        → length (codec.encode id) ≤ id_field_len
        → let asked_pool = (ask none fresh message ack p).1 in
          let answered =
            handle_api_response (encode_frame success (codec.encode id) payload) asked_pool in
          (answered.settled
            ≡ (if success then resolve p.next_promise payload else reject p.next_promise payload)
              ∷ p.settled)
          × (get id answered.pol_reqs ≡ none)
          × ((j : String) → j ≢ id → get j answered.pol_reqs ≡ get j p.pol_reqs)
    ask-answer_settles fresh message ack p id success payload acked chosen text no_null fits =
        rw (ask_sent fresh message ack p chosen) (
          rw (handle_api_response-encode_frame success id payload _ text no_null fits) (
            enter-deliver id (send_message fresh message) ack p
              (record { success = success; id_bytes = codec.encode id; message = payload }) acked))
