-- ===== src/Provider/Counting.antt =====
-- The API counters: ServiceProvider._updateApiCounter under _handleApiRequest and
-- _handleTcpSysRequest (src/provider/service-provider.ts, src/procedure/life-cycle.ts).
use distributed_rpc_js.Common.{
  ℕ, ◌+◌, ◌≡◌, ◌≢◌, refl, sym, ◌∙◌, ap, false, Option, none, some, arith, str_eq, String, eq_iff,
}
use distributed_rpc_js.Common.Dict.{Dict, get, set, get-set_self, get-set_ne}
use distributed_rpc_js.Types.{ApiCall, AckValue, ApiSpec}
use distributed_rpc_js.Provider.Answer.{Value}
use distributed_rpc_js.Provider.Frame.{TextCodec}
use distributed_rpc_js.Provider.ApiPath.{Api, Spec, Parsed, parse_request}
use distributed_rpc_js.Provider.Request.{
  ApiCounter, counter_or_zero, increment, update_api_counter, handle_request_error, ErrorClass,
  message, Jobs, done, failed, waiting, after_jobs, try_parsed, try_request, handle_api_request,
  try_sys_parsed, try_sys_request, handle_tcp_sys_request,
}

abbrev pub total : Option ApiCounter → ℕ
total none = 0
total (some c) = c.success + c.invalid_request + c.failed_on_process

-- What a handler may count: everything but an explicit acknowledgement.
abbrev pub IsOutcome : AckValue → Type 0
IsOutcome v = v ≢ AckValue.ack

increment-total :
    (v : AckValue) (o : Option ApiCounter)
    → IsOutcome v
    → total (some (increment v (counter_or_zero o))) ≡ total o + 1
unfolding increment
increment-total v o h = ground arith

handle_request_error-IsOutcome : (e : ErrorClass) → IsOutcome (handle_request_error e)
unfolding handle_request_error
handle_request_error-IsOutcome e h = ground arith

after_jobs-IsOutcome : (s : Option ApiSpec) (j : Jobs) → IsOutcome (after_jobs s j).err_type
unfolding after_jobs
after_jobs-IsOutcome s (done v) h = cc
after_jobs-IsOutcome s waiting h = cc
after_jobs-IsOutcome s (failed e) h = handle_request_error-IsOutcome e h

try_parsed-IsOutcome : (jobs : String → Jobs) (p : Parsed) → IsOutcome (try_parsed jobs p).err_type
unfolding try_parsed
try_parsed-IsOutcome jobs Parsed.not_found h = cc
try_parsed-IsOutcome jobs Parsed.type_error h = handle_request_error-IsOutcome _ h
try_parsed-IsOutcome jobs (Parsed.system op) h = handle_request_error-IsOutcome _ h
try_parsed-IsOutcome jobs (Parsed.found f s) h = after_jobs-IsOutcome s (jobs f) h

try_sys_parsed-IsOutcome :
    (perform : String → Jobs) (p : Parsed) → IsOutcome (try_sys_parsed perform p).err_type
unfolding try_sys_parsed
try_sys_parsed-IsOutcome perform Parsed.not_found h = cc
try_sys_parsed-IsOutcome perform Parsed.type_error h = handle_request_error-IsOutcome _ h
try_sys_parsed-IsOutcome perform (Parsed.system op) h = after_jobs-IsOutcome _ (perform op) h
try_sys_parsed-IsOutcome perform (Parsed.found f s) h =
    after_jobs-IsOutcome s (done (Value.boolean false)) h

-- Where every handler and instruction settles, the `finally` is reached.
after_jobs-waits : (s : Option ApiSpec) (j : Jobs) → j ≢ waiting → (after_jobs s j).waits ≡ false
unfolding after_jobs
after_jobs-waits s (done v) settles = refl
after_jobs-waits s (failed e) settles = refl
after_jobs-waits s waiting settles = absurd (settles refl)

module _ (jobs : String → Jobs) (settles : (f : String) → jobs f ≢ waiting) where
  try_parsed-waits : (p : Parsed) → (try_parsed jobs p).waits ≡ false
  unfolding try_parsed
  try_parsed-waits Parsed.not_found = refl
  try_parsed-waits Parsed.type_error = refl
  try_parsed-waits (Parsed.system op) = refl
  try_parsed-waits (Parsed.found f s) = after_jobs-waits s (jobs f) (settles f)

  try_sys_parsed-waits : (p : Parsed) → (try_sys_parsed jobs p).waits ≡ false
  unfolding try_sys_parsed after_jobs
  try_sys_parsed-waits Parsed.not_found = refl
  try_sys_parsed-waits Parsed.type_error = refl
  try_sys_parsed-waits (Parsed.system op) = after_jobs-waits _ (jobs op) (settles op)
  try_sys_parsed-waits (Parsed.found f s) = refl

-- One call is counted, under this path and no other.
abbrev pub CountsOne : String → Dict ApiCounter → Dict ApiCounter → Type 0
CountsOne path before after =
    (total (get path after) ≡ total (get path before) + 1)
    × ((j : String) → j ≢ path → get j after ≡ get j before)

update_api_counter-get :
    (v : AckValue) (api : Option String) (path : String) (counters : Dict ApiCounter)
    → api ≡ some path
    → path ≢ ""
    → update_api_counter v api counters
      ≡ set path (increment v (counter_or_zero (get path counters))) counters
unfolding update_api_counter
update_api_counter-get v api path counters named full =
    let full' : str_eq path "" ≡ false = ground (arith, eq_iff path "") in rw named (rw full')

update_api_counter-CountsOne :
    (v : AckValue) (api : Option String) (path : String) (counters : Dict ApiCounter)
    → IsOutcome v
    → api ≡ some path
    → path ≢ ""
    → CountsOne path counters (update_api_counter v api counters)
update_api_counter-CountsOne v api path counters ok named full =
    rw (update_api_counter-get v api path counters named full) (
      ap total (get-set_self path (increment v (counter_or_zero (get path counters))) counters)
          ∙ increment-total v (get path counters) ok,
      λ j ne. get-set_ne path j _ counters (λ e. ne (sym e)),
    )

module _ {A : Type 0} (codec : TextCodec) (apis : Api) (specs : Spec) (jobs : String → Jobs) where
  -- Every message that names a path that is not empty, on the API channel and on the system
  -- channel, adds exactly one to the counters of that path whatever comes of it, and leaves the
  -- other paths alone, if every handler, with the channel to the requester, and every instruction
  -- settles.
  pub requests_counted :
      (m : ApiCall A) (path : String) (counters : Dict ApiCounter)
      → m.api ≡ some path
      → path ≢ ""
      → ((f : String) → jobs f ≢ waiting)
      → CountsOne path counters
          (handle_api_request codec apis specs jobs (message m) counters).counters
        × CountsOne path counters
            (handle_tcp_sys_request codec apis specs jobs (message m) counters).counters
  unfolding handle_api_request handle_tcp_sys_request try_request try_sys_request
  requests_counted m path counters named full settles = (
    rw (try_parsed-waits jobs settles (parse_request m apis specs)) (
        update_api_counter-CountsOne _ m.api path counters
          (try_parsed-IsOutcome jobs (parse_request m apis specs)) named full),
    rw (try_sys_parsed-waits jobs settles (parse_request m apis specs)) (
        update_api_counter-CountsOne _ m.api path counters
          (try_sys_parsed-IsOutcome jobs (parse_request m apis specs)) named full),
  )

  -- A message with a path that is not empty and that no API has is counted as a success of that
  -- path.
  pub not_found_counted_success :
      (m : ApiCall A) (path : String) (counters : Dict ApiCounter)
      → m.api ≡ some path
      → path ≢ ""
      → parse_request m apis specs ≡ Parsed.not_found
      → get path (handle_api_request codec apis specs jobs (message m) counters).counters
        ≡ some (increment AckValue.none (counter_or_zero (get path counters)))
  unfolding handle_api_request try_request try_parsed
  not_found_counted_success m path counters named full missing = rw missing (
      ap (get path) (update_api_counter-get AckValue.none m.api path counters named full)
      ∙ get-set_self path _ counters)
