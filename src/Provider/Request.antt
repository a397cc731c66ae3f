-- ===== src/Provider/Request.antt =====
-- The handling of a request (src/provider/service-provider.ts): _handleApiRequest,
-- _handleRequestError and _updateApiCounter; and LifeCycleProcedure._handleTcpSysRequest
-- (src/procedure/life-cycle.ts), which answers on the system channel.
-- JSON.parse, the handlers and the channel to the requester are the environment's.
use distributed_rpc_js.Common.{
  ℕ, ◌+◌, Bool, true, false, Option, none, some, if◌then◌else◌, str_eq, String,
}
use distributed_rpc_js.Common.Dict.{Dict, get, set}
use distributed_rpc_js.Types.{ApiCall, AckType, AckValue, ApiSpec}
use distributed_rpc_js.Provider.Frame.{TextCodec}
use distributed_rpc_js.Provider.Answer.{Value, Answered, response}
use distributed_rpc_js.Provider.ApiPath.{Api, Spec, Parsed, parse_request}

-- interface ApiCounter, without the total.
pub record ApiCounter : Type 0 where
  pub success : ℕ
  pub invalid_request : ℕ
  pub failed_on_process : ℕ

-- The classes of errors that `_handleRequestError` tells apart.
pub data ErrorClass : Type 0 where
  syntax_error type_error other_error : ErrorClass

unfoldable pub handle_request_error : ErrorClass → AckValue
handle_request_error syntax_error = AckValue.invalid_req_data
handle_request_error type_error = AckValue.invalid_req_data
handle_request_error other_error = AckValue.error

abbrev pub zero_counter : ApiCounter
zero_counter = record { success = 0; invalid_request = 0; failed_on_process = 0 }

abbrev pub counter_or_zero : Option ApiCounter → ApiCounter
counter_or_zero none = zero_counter
counter_or_zero (some c) = c

unfoldable pub increment : AckValue → ApiCounter → ApiCounter
increment AckValue.invalid_req_data c = record c { invalid_request = c.invalid_request + 1 }
increment AckValue.error c = record c { failed_on_process = c.failed_on_process + 1 }
increment AckValue.none c = record c { success = c.success + 1 }
increment AckValue.ack c = c

-- `if (json?.api)`: the path is missing with the message itself, or empty.
unfoldable pub update_api_counter : AckValue → Option String → Dict ApiCounter → Dict ApiCounter
unfolding increment
update_api_counter err none counters = counters
update_api_counter err (some path) counters =
    if str_eq path ""
    then counters
    else set path (increment err (counter_or_zero (get path counters))) counters

-- What JSON.parse gives: a SyntaxError, a value that is no object, or a message.
pub data Json (A : Type 0) : Type 0 where
  bad_json not_object : Json A
  message : ApiCall A → Json A

-- `json?.api` and `request.msgId`
abbrev pub json_api : {A : Type 0} → Json A → Option String
json_api bad_json = none
json_api not_object = none
json_api (message m) = m.api

abbrev pub json_msg_id : {A : Type 0} → Json A → Option String
json_msg_id bad_json = none
json_msg_id not_object = none
json_msg_id (message m) = m.msg_id

-- How Promise.all of the handler's call and of getResponseChannel settles, if it does.
pub data Jobs : Type 0 where
  done : Value → Jobs
  failed : ErrorClass → Jobs
  waiting : Jobs

-- What the `try` of a handler leaves behind: the `result` if it was assigned, and `errType`; or it is
-- never left.
pub record Tried : Type 0 where
  pub result : Option Value
  pub api_spec : Option ApiSpec
  pub err_type : AckValue
  pub waits : Bool

abbrev pub caught : ErrorClass → Tried
caught e = record {
  result = none;
  api_spec = none;
  err_type = handle_request_error e;
  waits = false;
}

abbrev pub nothing_done : Tried
nothing_done = record { result = none; api_spec = none; err_type = AckValue.none; waits = false }

abbrev pub still_waiting : Tried
still_waiting = record { result = none; api_spec = none; err_type = AckValue.none; waits = true }

-- `Promise.all(pmsJob)`
unfoldable pub after_jobs : Option ApiSpec → Jobs → Tried
after_jobs spec (done v) = record {
  result = some v;
  api_spec = spec;
  err_type = AckValue.none;
  waits = false;
}
after_jobs spec waiting = still_waiting
after_jobs spec (failed e) = caught e

-- A system path has no handler: calling it is a TypeError.
unfoldable pub try_parsed : (String → Jobs) → Parsed → Tried
unfolding after_jobs
try_parsed jobs Parsed.not_found = nothing_done
try_parsed jobs Parsed.type_error = caught type_error
try_parsed jobs (Parsed.system op) = caught type_error
try_parsed jobs (Parsed.found handler spec) = after_jobs spec (jobs handler)

-- `_doSysInstruction` gives a Boolean or fails. A path that names no instruction gives it
-- `undefined`, which is no instruction: false.
after_instruction : Jobs → Tried
unfolding after_jobs
after_instruction jobs =
    after_jobs (some (record { request = "string"; response = "boolean"; ack = AckType.single }))
      jobs

unfoldable pub try_sys_parsed : (String → Jobs) → Parsed → Tried
unfolding after_instruction
try_sys_parsed perform Parsed.not_found = nothing_done
try_sys_parsed perform Parsed.type_error = caught type_error
try_sys_parsed perform (Parsed.system op) = after_instruction (perform op)
try_sys_parsed perform (Parsed.found handler spec) = after_jobs spec (done (Value.boolean false))

-- What the handling of one message leaves behind: the counters and what was written.
pub record Handled : Type 0 where
  pub counters : Dict ApiCounter
  pub answered : Answered

module _ {A : Type 0} (codec : TextCodec) (apis : Api) (specs : Spec) where
  unfoldable pub try_request : (String → Jobs) → Json A → Tried
  unfolding try_parsed
  try_request jobs bad_json = caught syntax_error
  try_request jobs not_object = caught type_error
  try_request jobs (message m) = try_parsed jobs (parse_request m apis specs)

  -- `if (result.length > 1)`: the target is the channel that getResponseChannel gave.
  unfoldable pub respond : Json A → Tried → Bool → Option Value → Answered
  respond json t can_write none = Answered.silent
  respond json t can_write (some v) = response codec (record {
    api_spec = t.api_spec;
    value = v;
    err_type = t.err_type;
    msg_id = json_msg_id json;
    can_write = can_write;
  })

  -- The counters after the `finally`, if it is reached.
  count : Json A → Tried → Dict ApiCounter → Dict ApiCounter
  count json t counters =
      if t.waits then counters else update_api_counter t.err_type (json_api json) counters

  -- The `finally`: the counters first, then the response. A handler that waits has no result.
  finish : Json A → Tried → Dict ApiCounter → Handled
  unfolding respond count
  finish json t counters = record {
    counters = count json t counters;
    answered = respond json t true t.result;
  }

  unfoldable pub handle_api_request : (String → Jobs) → Json A → Dict ApiCounter → Handled
  unfolding finish
  handle_api_request jobs json counters = finish json (try_request jobs json) counters

  unfoldable pub try_sys_request : (String → Jobs) → Json A → Tried
  unfolding try_sys_parsed
  try_sys_request perform bad_json = caught syntax_error
  try_sys_request perform not_object = caught type_error
  try_sys_request perform (message m) = try_sys_parsed perform (parse_request m apis specs)

  -- Here `result` starts undefined, and `result.length` of it is a TypeError in the `finally`, if that
  -- is reached.
  unfoldable pub respond_sys : Json A → Tried → Option Value → Answered
  unfolding respond
  respond_sys json t none = if t.waits then Answered.silent else Answered.type_error
  respond_sys json t (some v) = respond json t true (some v)

  unfoldable pub handle_tcp_sys_request : (String → Jobs) → Json A → Dict ApiCounter → Handled
  unfolding respond_sys count
  handle_tcp_sys_request perform json counters =
      let t = try_sys_request perform json in
      record { counters = count json t counters; answered = respond_sys json t t.result }
