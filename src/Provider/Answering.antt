-- ===== src/Provider/Answering.antt =====
-- Which requests are answered: ServiceProvider._handleApiRequest and
-- LifeCycleProcedure._handleTcpSysRequest (src/provider/service-provider.ts,
-- src/procedure/life-cycle.ts).
use mathlib.Core.Path.{subst}
use distributed_rpc_js.Common.{
  ℕ, ◌≡◌, ◌≢◌, ◌⊎◌, refl, inl, inr, ap, Bool, true, false, Option, none, some, List, [], ◌∷◌, arith,
  if◌then◌else◌, String, eq_iff,
}
use distributed_rpc_js.Common.Dict.{Dict}
use distributed_rpc_js.Types.{ApiCall, PeerIdentity, ApiSpec, is_no_ack}
use distributed_rpc_js.Provider.Frame.{TextCodec, encode_frame}
use distributed_rpc_js.Provider.Answer.{
  Value, Answered, wrote, response, response_wrote, id_bytes, success_payload,
}
use distributed_rpc_js.Provider.ApiPath.{
  Api, Spec, Parsed, parse_request, parse_parts, dispatch_path, split_path,
}
use distributed_rpc_js.Provider.ApiPath.Segments.{IsSegment, join_path, split_path-join_path}
use distributed_rpc_js.Provider.Request.{
  ApiCounter, caught, Json, message, bad_json, not_object, Jobs, done, failed, waiting,
  still_waiting, Tried, after_jobs, try_parsed, try_request, handle_api_request, try_sys_parsed,
  try_sys_request, handle_tcp_sys_request, respond, respond_sys,
}

-- The frame of a success with this payload, for this message id.
abbrev pub IsSuccessFrame : TextCodec → Option String → Value → List ℕ → Type 0
IsSuccessFrame codec id v bytes =
    (payload : List ℕ) × (success_payload codec v ≡ some payload)
    × (bytes ≡ encode_frame true (id_bytes codec id) payload)

-- A handler that had an API with a specification that asks for an acknowledgement, and a value.
abbrev pub Succeeded : (String → Jobs) → Parsed → Value → Type 0
Succeeded jobs p v =
    (handler : String) × (spec : ApiSpec) × (p ≡ Parsed.found handler (some spec))
    × (jobs handler ≡ done v)
    × (is_no_ack spec.ack ≡ false)

sys_full : ◌≢◌ {A = String} "sys" ""
sys_full e = ground (arith, eq_iff "sys" "")

sys-IsSegment : IsSegment "sys"
sys-IsSegment = (sys_full, omega arith)

module _ {A : Type 0} (apis : Api) (specs : Spec) where
  sys_parsed :
      (m : ApiCall A) (path : String) (segs : List String) (p : Parsed)
      → m.peer ≢ none
      → m.api ≡ some path
      → split_path path ≡ segs
      → dispatch_path segs apis specs ≡ p
      → parse_request m apis specs ≡ p
  unfolding parse_request
  sys_parsed m path segs p from named split known = go m.peer from
    where
      go : (o : Option PeerIdentity) → o ≢ none → parse_parts o m.api apis specs ≡ p
      go none h = absurd (h refl)
      go (some peer) h = rw (named, parse_parts) (rw split known)

  -- The path /sys/<op> of a message with a peer is read as the system instruction <op>, for a
  -- segment <op>, whatever the APIs are.
  pub sys_path_parsed :
      (m : ApiCall A) (op : String)
      → m.peer ≢ none
      → m.api ≡ some (join_path ("sys" ∷ op ∷ []))
      → IsSegment op
      → parse_request m apis specs ≡ Parsed.system op
  sys_path_parsed m op from named seg =
      sys_parsed m (join_path ("sys" ∷ op ∷ [])) ("sys" ∷ op ∷ []) (Parsed.system op) from named
        (split_path-join_path ("sys" ∷ op ∷ []) (sys-IsSegment, (seg, tt)))
        (unfold dispatch_path in refl)

module _ {A : Type 0} (codec : TextCodec) (apis : Api) (specs : Spec) (jobs : String → Jobs) where
  respond_jobs :
      (m : ApiCall A) (f : String) (s : Option ApiSpec) (bytes : List ℕ) (j : Jobs)
      → jobs f ≡ j
      → respond codec apis specs (message m) (after_jobs s j) true (after_jobs s j).result
        ≡ wrote bytes
      → (v : Value) × Succeeded jobs (Parsed.found f s) v × IsSuccessFrame codec m.msg_id v bytes
  unfolding respond after_jobs
  respond_jobs m f s bytes (failed e) ran h = cc
  respond_jobs m f s bytes waiting ran h = cc
  respond_jobs m f s bytes (done v) ran h =
      let (spec, payload, known, acked, from, same) = response_wrote codec _ bytes refl refl h in
      (v, (f, spec, ap (Parsed.found f) known, ran, acked), (payload, from, same))

  respond_parsed :
      (m : ApiCall A) (p : Parsed) (bytes : List ℕ)
      → respond codec apis specs (message m) (try_parsed jobs p) true (try_parsed jobs p).result
        ≡ wrote bytes
      → (v : Value) × Succeeded jobs p v × IsSuccessFrame codec m.msg_id v bytes
  unfolding respond try_parsed
  respond_parsed m Parsed.not_found bytes h = cc
  respond_parsed m Parsed.type_error bytes h = cc
  respond_parsed m (Parsed.system op) bytes h = cc
  respond_parsed m (Parsed.found f s) bytes h = respond_jobs m f s bytes (jobs f) refl h

  -- What is written on the API channel is the success frame of a handler that ran without an error
  -- and whose API asks for an acknowledgement; malformed messages, unknown paths and failing
  -- handlers are answered with nothing.
  pub api_answers_successes :
      (json : Json A) (counters : Dict ApiCounter) (bytes : List ℕ)
      → (handle_api_request codec apis specs jobs json counters).answered ≡ wrote bytes
      → (m : ApiCall A) × (v : Value) × (json ≡ message m)
        × Succeeded jobs (parse_request m apis specs) v
        × IsSuccessFrame codec m.msg_id v bytes
  unfolding handle_api_request try_request
  api_answers_successes bad_json counters bytes h = cc
  api_answers_successes not_object counters bytes h = cc
  api_answers_successes (message m) counters bytes h =
      let (v, ok, frame) = respond_parsed m (parse_request m apis specs) bytes h in
      (m, v, refl, ok, frame)

  -- A system instruction that gives false is answered by "Ack"; after one that gives true the
  -- answer ends in a TypeError, and nothing is written.
  pub sys_instruction_answered :
      (m : ApiCall A) (op : String) (b : Bool) (counters : Dict ApiCounter)
      → parse_request m apis specs ≡ Parsed.system op
      → jobs op ≡ done (Value.boolean b)
      → (handle_tcp_sys_request codec apis specs jobs (message m) counters).answered ≡ (
          if b
          then Answered.type_error
          else wrote (encode_frame true (id_bytes codec m.msg_id) (codec.encode "Ack")))
  unfolding handle_tcp_sys_request try_sys_request try_sys_parsed after_jobs respond_sys respond
      response
  sys_instruction_answered m op true counters known gave = rw (known, gave)
  sys_instruction_answered m op false counters known gave = rw (known, gave)

  -- The two ways to an answer on the system channel.
  abbrev pub SysAnswered : ApiCall A → Parsed → List ℕ → Type 0
  SysAnswered m p bytes =
      ((op : String) × (v : Value) × (p ≡ Parsed.system op)
        × (jobs op ≡ done v)
        × IsSuccessFrame codec m.msg_id v bytes)
      ⊎ ((f : String) × (s : Option ApiSpec) × (p ≡ Parsed.found f s)
          × IsSuccessFrame codec m.msg_id (Value.boolean false) bytes)

  sys_frame :
      (m : ApiCall A) (s : Option ApiSpec) (v : Value) (bytes : List ℕ)
      → respond_sys codec apis specs (message m) (after_jobs s (done v)) (some v) ≡ wrote bytes
      → IsSuccessFrame codec m.msg_id v bytes
  unfolding respond_sys respond after_jobs
  sys_frame m s v bytes h =
      let (spec, payload, known, acked, from, same) = response_wrote codec _ bytes refl refl h in
      (payload, from, same)

  sys_none :
      (m : ApiCall A) (bytes : List ℕ) (t : Tried)
      → respond_sys codec apis specs (message m) t none ≢ wrote bytes
  unfolding respond_sys
  sys_none m bytes t h = ground arith

  sys_from_jobs :
      (m : ApiCall A) (op : String) (j : Jobs) (bytes : List ℕ)
      → jobs op ≡ j
      → (t : Tried) → (s : Option ApiSpec) → t ≡ after_jobs s j
      → respond_sys codec apis specs (message m) t t.result ≡ wrote bytes
      → SysAnswered m (Parsed.system op) bytes
  unfolding after_jobs
  sys_from_jobs m op (done v) bytes ran t s e h = inl (
    op,
    v,
    refl,
    ran,
    sys_frame m s v bytes
        (subst (λ u. respond_sys codec apis specs (message m) u u.result ≡ wrote bytes) e h),
  )
  sys_from_jobs m op waiting bytes ran t s e h = absurd (
      sys_none m bytes still_waiting
        (subst (λ u. respond_sys codec apis specs (message m) u u.result ≡ wrote bytes) e h))
  sys_from_jobs m op (failed c) bytes ran t s e h = absurd (
      sys_none m bytes (caught c)
        (subst (λ u. respond_sys codec apis specs (message m) u u.result ≡ wrote bytes) e h))

  SysAnswered-parsed :
      (m : ApiCall A) (p : Parsed) (bytes : List ℕ)
      → respond_sys codec apis specs
          (message m)
          (try_sys_parsed jobs p)
          (try_sys_parsed jobs p).result
        ≡ wrote bytes
      → SysAnswered m p bytes
  unfolding try_sys_parsed
  SysAnswered-parsed m Parsed.not_found bytes h = absurd (sys_none m bytes _ h)
  SysAnswered-parsed m Parsed.type_error bytes h = absurd (sys_none m bytes _ h)
  SysAnswered-parsed m (Parsed.system op) bytes h =
      sys_from_jobs m op (jobs op) bytes refl _ _ refl h
  SysAnswered-parsed m (Parsed.found f s) bytes h =
      inr (f, s, refl, sys_frame m s (Value.boolean false) bytes h)

  -- On the system channel an answer is written only for an instruction that gave its value, or for
  -- a path of an API, which is answered like an instruction that gave false.
  pub sys_answers_instructions :
      (json : Json A) (counters : Dict ApiCounter) (bytes : List ℕ)
      → (handle_tcp_sys_request codec apis specs jobs json counters).answered ≡ wrote bytes
      → (m : ApiCall A) × (json ≡ message m) × SysAnswered m (parse_request m apis specs) bytes
  unfolding handle_tcp_sys_request try_sys_request respond_sys
  sys_answers_instructions bad_json counters bytes h = cc
  sys_answers_instructions not_object counters bytes h = cc
  sys_answers_instructions (message m) counters bytes h =
      (m, refl, SysAnswered-parsed m (parse_request m apis specs) bytes h)
