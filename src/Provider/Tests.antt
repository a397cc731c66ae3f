-- ===== src/Provider/Tests.antt =====
-- Runs of a provider's messages.
mod Replies
use Prim.Native.Char.{code}
use Prim.Native.String
use distributed_rpc_js.Common.{
  ℕ, ◌+◌, ◌≡◌, ◌≢◌, ◌↔◌, ◌<◌, ◌≤◌, refl, Bool, true, false, Option, none, some, List, [], ◌∷◌, ◌++◌,
  arith, if◌then◌else◌, ◌==◌, length, replicate, All, String, str_eq, eq_iff, map,
}
use distributed_rpc_js.Common.Dict.{Dict, get, set, delete}
use distributed_rpc_js.Types.{ApiCall, PeerIdentity, AckType, AckValue, ApiSpec, single, is_no_ack}
use distributed_rpc_js.Provider.Frame.{
  TextCodec, Frame, encode_frame, decode_frame, decode_frame-encode_frame, id_field, drop_nulls,
}
use distributed_rpc_js.Provider.Pool.{
  Settlement, resolve, reject, Pool, or_fresh, send_message, ask, handle_api_response,
  ask-answer_settles,
}
use distributed_rpc_js.Provider.Delivery.{
  Carries, receive, handle_api_response_short, coalesced_answers, repeated_answer,
  unacknowledged_stays,
}
use distributed_rpc_js.Provider.Answer.{
  Value, ResponseArgs, Answered, wrote, response, response_unacknowledged, response_failure,
  response-type_error_iff, response_wrote, id_bytes, is_failure, success_payload, to_buffer,
  is_truthy, ack_text,
}
use distributed_rpc_js.Provider.Answer
use distributed_rpc_js.Provider.ApiPath.{
  Api, Spec, Parsed, parse_request, parse_parts, dispatch_path, split_path,
}
use distributed_rpc_js.Provider.ApiPath
use distributed_rpc_js.Provider.ApiPath.Segments.{
  IsSegment, join_path, split_path-IsSegment, split_path-join_path,
}
use distributed_rpc_js.Provider.Request.{
  ApiCounter, Json, message, bad_json, Jobs, done, failed, handle_api_request,
  handle_tcp_sys_request, increment, counter_or_zero,
}
use distributed_rpc_js.Provider.Counting.{CountsOne, requests_counted, not_found_counted_success}
use distributed_rpc_js.Provider.Answering.{
  IsSuccessFrame, Succeeded, SysAnswered, api_answers_successes, sys_path_parsed,
  sys_instruction_answered, sys_answers_instructions,
}

-- A codec of ASCII text that can read back two ids.
abbrev codes : String → List ℕ
codes String.[] = []
codes (String.◌∷◌ c s) = code c ∷ codes s

abbrev ascii : TextCodec
ascii = record { encode = codes; decode = λ bytes. if length bytes == 2 then "id" else "x" }

id_no_null : All (λ b. b ≢ 0) (codes "id")
id_no_null = ((λ e. ground arith), ((λ e. ground arith), tt))

x_no_null : All (λ b. b ≢ 0) (codes "x")
x_no_null = ((λ e. ground arith), tt)

abbrev peer : PeerIdentity
peer = record { service = "alpha"; instance_id = "1" }

abbrev call : String → ApiCall ℕ
call path = record {
  peer = some peer;
  api = some path;
  args = 5;
  msg_id = some "id";
  promise = none;
}

abbrev empty : Pool ℕ
empty = record { pol_reqs = []; next_promise = 0; settled = [] }

-- A pool in which the request "id" waits for promise 3.
abbrev waiting : Pool ℕ
waiting = record {
  pol_reqs = ("id", record (call "/a") { promise = some 3 }) ∷ [];
  next_promise = 4;
  settled = [];
}

decode_frame-encode_frame_example :
    decode_frame (encode_frame true (codes "id") (7 ∷ 0 ∷ []))
    ≡ some (record { success = true; id_bytes = codes "id"; message = 7 ∷ 0 ∷ [] })
decode_frame-encode_frame_example =
    decode_frame-encode_frame true (codes "id") (7 ∷ 0 ∷ []) id_no_null (omega arith)

single≢none : single ≢ AckType.none
single≢none e = ground arith

ask-answer_settles_example :
    let asked_pool = (ask none "x" (call "/a") single empty).1 in
    let answered =
      handle_api_response ascii (encode_frame false (codes "id") (7 ∷ [])) asked_pool in
    (answered.settled ≡ reject 0 (7 ∷ []) ∷ [])
    × (get "id" answered.pol_reqs ≡ none)
    × ((j : String) → j ≢ "id" → get j answered.pol_reqs ≡ get {V = ApiCall ℕ} j [])
ask-answer_settles_example =
    ask-answer_settles ascii "x" (call "/a") single empty "id" false (7 ∷ []) single≢none refl refl
      id_no_null (omega arith)

coalesced_answers_example :
    let second = encode_frame true (codes "x") (8 ∷ []) in
    let answered =
      handle_api_response ascii (encode_frame true (codes "id") (7 ∷ []) ++ second) waiting in
    (answered.settled ≡ resolve 3 ((7 ∷ []) ++ second) ∷ [])
    × ((j : String) → j ≢ "id" → get j answered.pol_reqs ≡ get j waiting.pol_reqs)
unfolding get
coalesced_answers_example =
    coalesced_answers ascii "id" "x" (7 ∷ []) (8 ∷ []) waiting
      (record (call "/a") { promise = some 3 }) 3 refl refl refl id_no_null (omega arith)

abbrev short_event : List ℕ
short_event = 1 ∷ []

short_no_id : ¬ (Carries ascii "id" short_event)
unfolding decode_frame
short_no_id (f, e, h) = cc

a-IsSegment : IsSegment "a"
a-IsSegment = ((λ e. ground (arith, eq_iff "a" "")), omega arith)

stop-IsSegment : IsSegment "stop"
stop-IsSegment = ((λ e. ground (arith, eq_iff "stop" "")), omega arith)

split_path-join_path_example : split_path (join_path ("a" ∷ "stop" ∷ [])) ≡ "a" ∷ "stop" ∷ []
split_path-join_path_example =
    split_path-join_path ("a" ∷ "stop" ∷ []) (a-IsSegment, (stop-IsSegment, tt))
