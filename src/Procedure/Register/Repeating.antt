-- ===== src/Procedure/Register/Repeating.antt =====
-- How the repeated registration goes, src/procedure/register.ts and src/procedure/life-cycle.ts.
use distributed_rpc_js.Common.{
  ◌≡◌, refl, Bool, true, false, Option, none, some, List, [], ◌∷◌, ◌++◌, String, str_eq,
  if◌then◌else◌, All, All-append, All-map,
}
use distributed_rpc_js.Common.Dict.{Dict, get, set, has, get-set, get-set_self}
use distributed_rpc_js.Types.{PeerIdentity, AckType, ApiCall}
use distributed_rpc_js.Retry.{Failure}
use distributed_rpc_js.Provider.Pool.{Pool, ask, threw, build_message, ask_unacknowledged}
use distributed_rpc_js.Procedure.Report.{is_client}
use distributed_rpc_js.Procedure.Register.{
  Round, Answer, Registered, gives, after_ask, send_registration, execute_register, register_loop,
  Progress, going_on,
}

-- The message ids of the requests that the runs send.
abbrev id_if_written : Option Failure → Option Failure → String → List String
id_if_written none none id = id ∷ []
id_if_written none (some e) id = []
id_if_written (some e) write id = []

abbrev ids_of : Round → List String
ids_of r = if is_client r.task then id_if_written r.info_throws r.write_throws r.fresh else []

unfoldable pub sent_ids : List Round → List String
sent_ids [] = []
sent_ids (r ∷ rs) = ids_of r ++ sent_ids rs

module _ {A : Type 0} (peer : PeerIdentity) (reg_info : A) where
  abbrev pub Pending : Pool A → String → Type 0
  Pending p id = has id p.pol_reqs ≡ true

  abbrev run_once : Round → Pool A → Registered × Pool A
  run_once r p = execute_register peer reg_info AckType.none r p

  has-set :
      (k j : String) (v : ApiCall A) (m : Dict (ApiCall A))
      → has j m ≡ true
      → has j (set k v m) ≡ true
  has-set k j v m h = at (str_eq k j) (get-set k j v m)
    where
      at :
          (b : Bool)
          → get j (set k v m) ≡ (if b then some v else get j m)
          → has j (set k v m) ≡ true
      at true e = rw (e, has) refl
      at false e = rw (e, has) h

  has-set_self : (k : String) (v : ApiCall A) (m : Dict (ApiCall A)) → has k (set k v m) ≡ true
  has-set_self k v m = let e = get-set_self k v m in rw (e, has) refl

  -- What one run does where no acknowledgement is asked for, by the ids of the requests it sends.
  RunFacts : Pool A → List String → Registered × Pool A → Type 0
  RunFacts p ids out =
      (out.0 ≡ gives false)
      × All (Pending out.1) ids
      × ((id : String) → Pending p id → Pending out.1 id)

  ask_failed :
      (e : Failure) (fresh : String) (message : ApiCall A) (ack : AckType) (p : Pool A)
      → ask (some e) fresh message ack p ≡ (threw e, p)
  unfolding ask
  ask_failed e fresh message ack p = refl

  unanswered_ask :
      (answer : Answer) (write : Option Failure) (fresh : String) (p : Pool A)
      → let message = build_message peer "register" reg_info none in
        let (outcome, later) = ask write fresh message AckType.none p in
        RunFacts p (id_if_written none write fresh) (after_ask answer outcome, later)
  unfolding after_ask RunFacts build_message
  unanswered_ask answer (some e) fresh p =
      let message = build_message peer "register" reg_info none in
      let failing = ask_failed e fresh message AckType.none p in rw failing (refl, tt, λ id h. h)
  unanswered_ask answer none fresh p =
      let message = build_message peer "register" reg_info none in
      let entered = ask_unacknowledged fresh message p refl in
      rw entered
        (refl, (has-set_self fresh _ p.pol_reqs, tt), λ id h. has-set fresh id _ p.pol_reqs h)

  send-RunFacts :
      (info : Option Failure) (r : Round) (p : Pool A)
      → RunFacts p
          (id_if_written info r.write_throws r.fresh)
          (send_registration peer reg_info AckType.none info r p)
  unfolding send_registration RunFacts
  send-RunFacts none r p = unanswered_ask r.answer r.write_throws r.fresh p
  send-RunFacts (some e) r p = (refl, tt, λ id h. h)

  run_once-RunFacts : (r : Round) (p : Pool A) → RunFacts p (ids_of r) (run_once r p)
  unfolding execute_register RunFacts
  run_once-RunFacts r p = at (is_client r.task)
    where
      at :
          (b : Bool)
          → RunFacts p (if b then id_if_written r.info_throws r.write_throws r.fresh else []) (
              if b
              then send_registration peer reg_info AckType.none r.info_throws r p
              else (gives false, p))
      at true = send-RunFacts r.info_throws r p
      at false = (refl, tt, λ id h. h)

  abbrev repeated : List Round → Pool A → Progress × Pool A
  repeated rs p = register_loop peer reg_info AckType.none rs p

  repeated-again :
      (r : Round) (rs : List Round) (p : Pool A)
      → repeated (r ∷ rs) p ≡ repeated rs (run_once r p).1
  unfolding register_loop RunFacts
  repeated-again r rs p =
      let (failing, sent, kept) = run_once-RunFacts r p in rw (failing, register_loop) refl

  repeated-facts :
      (rs : List Round) (p : Pool A)
      → let out = repeated rs p in
        (out.0 ≡ going_on)
        × All (Pending out.1) (sent_ids rs)
        × ((id : String) → Pending p id → Pending out.1 id)
  unfolding register_loop sent_ids RunFacts
  repeated-facts [] p = (refl, tt, λ id h. h)
  repeated-facts (r ∷ rs) p =
      let (failing, sent, kept) = run_once-RunFacts r p in
      let (goes, later, frame) = repeated-facts rs (run_once r p).1 in
      let same = repeated-again r rs p in
      rw same (
        goes,
        All-append _ (ids_of r) (sent_ids rs) (All-map _ _ (ids_of r) frame sent) later,
        λ id h. frame id (kept id h),
      )

  -- If the manager asks for no acknowledgement of a registration, the loop of `_register` goes on
  -- after any number of runs, and every request that it has sent is still in the pool of pending
  -- requests.
  pub unacknowledged_register-going_on :
      (rs : List Round) (p : Pool A)
      → let out = register_loop peer reg_info AckType.none rs p in
        (out.0 ≡ going_on) × All (Pending out.1) (sent_ids rs)
  unacknowledged_register-going_on rs p =
      let (goes, sent, kept) = repeated-facts rs p in (goes, sent)
