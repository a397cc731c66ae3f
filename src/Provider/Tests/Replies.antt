-- ===== src/Provider/Tests/Replies.antt =====
-- Runs of the handling of requests.
use distributed_rpc_js.Common.{
  ℕ, ◌≡◌, ◌≢◌, refl, true, false, none, some, [], ◌∷◌, arith, String, eq_iff,
}
use distributed_rpc_js.Types.{ApiCall, AckType, AckValue, ApiSpec, single}
use distributed_rpc_js.Provider.Frame.{encode_frame}
use distributed_rpc_js.Provider.Answer.{Value, ResponseArgs, wrote, response, id_bytes}
use distributed_rpc_js.Provider.ApiPath.{
  Api, Spec, Parsed, parse_request, parse_parts, dispatch_path, split_path, walk,
}
use distributed_rpc_js.Provider.ApiPath
use distributed_rpc_js.Provider.ApiPath.Segments.{IsSegment, join_path, split_path-join_path}
use distributed_rpc_js.Provider.Request.{
  message, Jobs, done, waiting, handle_api_request, try_request, try_parsed, after_jobs, respond,
  handle_tcp_sys_request,
}
use distributed_rpc_js.Provider.Counting.{CountsOne, requests_counted}
use distributed_rpc_js.Provider.Answering.{
  IsSuccessFrame, Succeeded, SysAnswered, api_answers_successes, sys_path_parsed,
  sys_instruction_answered, sys_answers_instructions,
}
use distributed_rpc_js.Provider.Tests.{ascii, call, a-IsSegment, stop-IsSegment}

abbrev text_spec : AckType → ApiSpec
text_spec ack = record { request = "string"; response = "string"; ack = ack }

abbrev args : AckType → Value → AckValue → ResponseArgs
args ack v err = record {
  api_spec = some (text_spec ack);
  value = v;
  err_type = err;
  msg_id = some "id";
  can_write = true;
}

hi_written :
    response ascii (args single (Value.text "hi") AckValue.none)
    ≡ wrote (encode_frame true (ascii.encode "id") (ascii.encode "hi"))
unfolding response
hi_written = refl

-- One API, "/a".
abbrev apis : Api
apis = Api.obj (ApiPath.Members.member "a" (Api.fn "handle_a") ApiPath.Members.nil)

abbrev specs : Spec
specs = Spec.group (ApiPath.Specs.entry "a" (Spec.spec (text_spec single)) ApiPath.Specs.nil)

abbrev path_a : String
path_a = join_path ("a" ∷ [])

abbrev path_stop : String
path_stop = join_path ("sys" ∷ "stop" ∷ [])

abbrev echo : String → Jobs
echo handler = done (Value.text "hi")

abbrev obey : String → Jobs
obey op = done (Value.boolean true)

a_full : ◌≢◌ {A = String} "/a" ""
a_full e = ground (arith, eq_iff "/a" "")

echo_settles : (f : String) → echo f ≢ waiting
echo_settles f h = cc

requests_counted_example :
    CountsOne "/a" [] (handle_api_request ascii apis specs echo (message (call "/a")) []).counters
    × CountsOne "/a" []
        (handle_tcp_sys_request ascii apis specs echo (message (call "/a")) []).counters
requests_counted_example =
    requests_counted ascii apis specs echo (call "/a") "/a" [] refl a_full echo_settles

a_found : parse_request (call path_a) apis specs ≡ Parsed.found "handle_a" (some (text_spec single))
unfolding parse_request parse_parts walk dispatch_path ApiPath.child ApiPath.own ApiPath.read_spec
    ApiPath.own_spec
a_found = rw (split_path-join_path ("a" ∷ []) (a-IsSegment, tt))

abbrev path_ghost : String
path_ghost = join_path ("ghost" ∷ [])

ghost-IsSegment : IsSegment "ghost"
ghost-IsSegment = ((λ e. ground (arith, eq_iff "ghost" "")), omega arith)

ghost_full : path_ghost ≢ ""
unfolding join_path
ghost_full e = ground (arith, eq_iff path_ghost "")

ghost_missing : parse_request (call path_ghost) apis specs ≡ Parsed.not_found
unfolding parse_request parse_parts walk dispatch_path ApiPath.child ApiPath.own ApiPath.read_spec
    ApiPath.own_spec
ghost_missing = rw (split_path-join_path ("ghost" ∷ []) (ghost-IsSegment, tt))

hi_answered :
    (handle_api_request ascii apis specs echo (message (call path_a)) []).answered
    ≡ wrote (encode_frame true (ascii.encode "id") (ascii.encode "hi"))
unfolding handle_api_request try_request try_parsed after_jobs respond response
hi_answered = rw a_found

api_answers_successes_example :
    (m : ApiCall ℕ) × (v : Value) × (message (call path_a) ≡ message m)
    × Succeeded echo (parse_request m apis specs) v
    × IsSuccessFrame ascii m.msg_id v (encode_frame true (ascii.encode "id") (ascii.encode "hi"))
api_answers_successes_example =
    api_answers_successes ascii apis specs echo (message (call path_a)) []
      (encode_frame true (ascii.encode "id") (ascii.encode "hi")) hi_answered

some_peer : (call path_stop).peer ≢ none
some_peer e = cc

stop_parsed : parse_request (call path_stop) apis specs ≡ Parsed.system "stop"
stop_parsed = sys_path_parsed apis specs (call path_stop) "stop" some_peer refl stop-IsSegment

abbrev refuse : String → Jobs
refuse op = done (Value.boolean false)

refused_answered :
    (handle_tcp_sys_request ascii apis specs refuse (message (call path_stop)) []).answered
    ≡ wrote (encode_frame true (id_bytes ascii (some "id")) (ascii.encode "Ack"))
refused_answered =
    sys_instruction_answered ascii apis specs refuse (call path_stop) "stop" false [] stop_parsed
      refl

sys_answers_instructions_example :
    (m : ApiCall ℕ) × (message (call path_stop) ≡ message m)
    × SysAnswered ascii apis specs refuse m
        (parse_request m apis specs)
        (encode_frame true (id_bytes ascii (some "id")) (ascii.encode "Ack"))
sys_answers_instructions_example =
    sys_answers_instructions ascii apis specs refuse (message (call path_stop)) []
      (encode_frame true (id_bytes ascii (some "id")) (ascii.encode "Ack")) refused_answered
