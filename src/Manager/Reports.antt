-- ===== src/Manager/Reports.antt =====
-- The report store against the history of reports: gotReport, getReports, getLatestReport and
-- clearReports, src/manager/service-manager.ts.
use distributed_rpc_js.Common.{
  ◌≡◌, refl, ◌∙◌, ap, Option, none, some, List, [], ◌∷◌, ◌++◌, if◌then◌else◌, String, str_eq, arith,
  eq_iff, inl, inr, Bool-cases, get_last?,
}
use distributed_rpc_js.Common.Dict.{Dict, get, delete, get-set, get-delete}
use distributed_rpc_js.Types.{PeerIdentity, ApiCall}
use distributed_rpc_js.Manager.{
  ServiceManager, push_report, get_in, list_or_empty, put_or_drop, clear_in, got_report,
  get_reports, get_latest_report, clear_reports,
}
use distributed_rpc_js.Manager.Recent.{
  recent, push_report-recent, same_peer, same_peer_iff, get_in-set_in, get_last?-recent,
}

-- What reaches the store: a report message, or a call of `clearReports`.
pub data Event (R : Type 0) : Type 0 where
  report : PeerIdentity → R → Event R
  clear : PeerIdentity → Event R

-- The abstract store: the reports of one peer since its last clearing, the oldest first.
abbrev pub history_step : {R : Type 0} → PeerIdentity → List R → Event R → List R
history_step p h (report q r) = if same_peer q p then h ++ r ∷ [] else h
history_step p h (clear q) = if same_peer q p then [] else h

abbrev pub history_from : {R : Type 0} → PeerIdentity → List R → List (Event R) → List R
history_from p h [] = h
history_from p h (e ∷ es) = history_from p (history_step p h e) es

-- The message that carries a report.
abbrev pub report_call : {R : Type 0} → PeerIdentity → R → ApiCall (Option R)
report_call p r = record {
  peer = some p;
  api = some "report";
  args = some r;
  msg_id = none;
  promise = none;
}

put_or_drop-get :
    {R : Type 0} (service : String) (g : Dict (List R)) (q : PeerIdentity)
    (m : Dict (Dict (List R)))
    → get_in q (put_or_drop service g m)
      ≡ (if str_eq service q.service then get q.instance_id g else get_in q m)
unfolding get_in put_or_drop get
put_or_drop-get service [] q m = ground (arith, get-delete service q.service m)
put_or_drop-get service (e ∷ g) q m = ground (arith, get-set service q.service (e ∷ g) m)

get_in-clear_in :
    {R : Type 0} (o : Option (Dict (List R))) (p q : PeerIdentity) (m : Dict (Dict (List R)))
    → get p.service m ≡ o
    → get_in q (clear_in o p m) ≡ (if same_peer p q then none else get_in q m)
unfolding get_in clear_in get
get_in-clear_in none p q m e = ground (arith, eq_iff p.service q.service)
get_in-clear_in (some g) p q m e = ground (
  arith,
  put_or_drop-get p.service (delete p.instance_id g) q m,
  get-delete p.instance_id q.instance_id g,
  eq_iff p.service q.service,
)

module _ {I R : Type 0} where
  unfoldable pub apply : Event R → ServiceManager I R → ServiceManager I R
  apply (report p r) sm = got_report (report_call p r) sm
  apply (clear p) sm = clear_reports p sm

  unfoldable pub apply_all : List (Event R) → ServiceManager I R → ServiceManager I R
  apply_all [] sm = sm
  apply_all (e ∷ es) sm = apply_all es (apply e sm)

  get_reports-report :
      (p q : PeerIdentity) (r : R) (sm : ServiceManager I R)
      → get_reports p (got_report (report_call q r) sm)
        ≡ (if same_peer q p then push_report (get_reports p sm) r else get_reports p sm)
  unfolding get_reports got_report
  get_reports-report p q r sm = elim (Bool-cases (same_peer q p)) [
    | inl same ↦
        ap list_or_empty (get_in-set_in q p (push_report (get_reports q sm) r) sm.reports)
        ∙ rw same (
            ap (λ z. push_report (list_or_empty (get_in z sm.reports)) r)
              ((same_peer_iff q p).0 same))
    | inr other ↦
        ap list_or_empty (get_in-set_in q p (push_report (get_reports q sm) r) sm.reports)
        ∙ rw other
  ]

  get_reports-clear :
      (p q : PeerIdentity) (sm : ServiceManager I R)
      → get_reports p (clear_reports q sm) ≡ (if same_peer q p then [] else get_reports p sm)
  unfolding get_reports clear_reports
  get_reports-clear p q sm = elim (Bool-cases (same_peer q p)) [
    | inl same ↦ ap list_or_empty (get_in-clear_in _ q p sm.reports refl) ∙ rw same
    | inr other ↦ ap list_or_empty (get_in-clear_in _ q p sm.reports refl) ∙ rw other
  ]

  -- One event changes the reports of a peer as it changes the last 60 of the peer's history.
  get_reports-apply :
      (p : PeerIdentity) (e : Event R) (h : List R) (sm : ServiceManager I R)
      → get_reports p sm ≡ recent h
      → get_reports p (apply e sm) ≡ recent (history_step p h e)
  unfolding apply
  get_reports-apply p (report q r) h sm e = elim (Bool-cases (same_peer q p)) [
    | inl same ↦
        get_reports-report p q r sm ∙ rw same (ap (λ l. push_report l r) e ∙ push_report-recent h r)
    | inr other ↦ get_reports-report p q r sm ∙ rw other e
  ]
  get_reports-apply p (clear q) h sm e = elim (Bool-cases (same_peer q p)) [
    | inl same ↦ get_reports-clear p q sm ∙ rw same
    | inr other ↦ get_reports-clear p q sm ∙ rw other e
  ]

  -- After any sequence of reports and clearings the stored reports of a peer are the last 60 of its
  -- history since it was last cleared, whatever other peers send, if this held before.
  pub get_reports-apply_all :
      (p : PeerIdentity) (events : List (Event R)) (h : List R) (sm : ServiceManager I R)
      → get_reports p sm ≡ recent h
      → get_reports p (apply_all events sm) ≡ recent (history_from p h events)
  unfolding apply_all
  get_reports-apply_all p [] h sm e = e
  get_reports-apply_all p (x ∷ events) h sm e =
      get_reports-apply_all p events (history_step p h x) (apply x sm)
        (get_reports-apply p x h sm e)

  -- After any sequence of reports and clearings the latest report of a peer is the last of its
  -- history since it was last cleared, if the stored reports were the last 60 of the history
  -- before.
  pub get_latest_report-apply_all :
      (p : PeerIdentity) (events : List (Event R)) (h : List R) (sm : ServiceManager I R)
      → get_reports p sm ≡ recent h
      → get_latest_report p (apply_all events sm) ≡ get_last? (history_from p h events)
  unfolding get_latest_report get_reports
  get_latest_report-apply_all p events h sm e =
      ap get_last? (get_reports-apply_all p events h sm e)
      ∙ get_last?-recent (history_from p h events)
