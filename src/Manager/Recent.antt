-- ===== src/Manager/Recent.antt =====
-- The last 60 of a list, and the two-level maps, src/manager/service-manager.ts.
use distributed_rpc_js.Common.{
  ℕ, zero, suc, ◌+◌, ◌-◌, ◌≤◌, ◌<◌, ◌≡◌, ◌↔◌, refl, sym, ◌∙◌, ap, Bool, true, false, ◌&&◌, some,
  List, [], ◌∷◌, ◌++◌, if◌then◌else◌, str_eq, ltb, length, drop, get_last?, arith, eq_iff, inl, inr,
  Bool-cases, length-append, length-drop, drop-append_of_le, drop-drop_one,
}
use distributed_rpc_js.Common.Dict.{Dict, get, set, get-set}
use distributed_rpc_js.Types.{PeerIdentity}
use distributed_rpc_js.Manager.{max_reports, push_report, get_in, set_in, group_or_empty}

-- The last 60 of a list.
abbrev pub recent : {R : Type 0} → List R → List R
recent rs = drop (length rs - max_reports) rs

length-recent :
    {R : Type 0} (rs : List R) (r : R)
    → length (recent rs ++ r ∷ []) ≡ length rs - (length rs - max_reports) + 1
length-recent rs r =
    length-append (recent rs) (r ∷ []) ∙ ap (λ n. n + 1) (length-drop (length rs - max_reports) rs)

push_full :
    {R : Type 0} (rs : List R) (r : R)
    → ltb max_reports (length (recent rs ++ r ∷ [])) ≡ true
    → drop 1 (recent rs ++ r ∷ []) ≡ recent (rs ++ r ∷ [])
push_full rs r full =
    let long : max_reports ≤ length rs = ground (arith, length-recent rs r) in
    let cut : length (rs ++ r ∷ []) - max_reports ≡ suc (length rs - max_reports) =
      omega (arith, length-append rs (r ∷ [])) in
    rw cut (
      ap (drop 1) (sym (drop-append_of_le (length rs - max_reports) rs (r ∷ []) (omega arith)))
      ∙ drop-drop_one (length rs - max_reports) (rs ++ r ∷ []))

push_room :
    {R : Type 0} (rs : List R) (r : R)
    → ltb max_reports (length (recent rs ++ r ∷ [])) ≡ false
    → recent rs ++ r ∷ [] ≡ recent (rs ++ r ∷ [])
push_room rs r room =
    let short : length rs < max_reports = ground (arith, length-recent rs r) in
    let whole : length rs - max_reports ≡ 0 = omega arith in
    let whole' : length (rs ++ r ∷ []) - max_reports ≡ 0 =
      omega (arith, length-append rs (r ∷ [])) in
    rw (whole, whole')

-- Pushing onto the last 60 of a history gives the last 60 of the longer history.
pub push_report-recent :
    {R : Type 0} (rs : List R) (r : R) → push_report (recent rs) r ≡ recent (rs ++ r ∷ [])
unfolding push_report
push_report-recent rs r = elim (Bool-cases (ltb max_reports (length (recent rs ++ r ∷ [])))) [
  | inl full ↦ rw full (push_full rs r full)
  | inr room ↦ rw room (push_room rs r room)
]

get_last?-drop :
    {R : Type 0} (n : ℕ) (xs : List R) → n < length xs → get_last? (drop n xs) ≡ get_last? xs
get_last?-drop zero xs h = refl
get_last?-drop (suc n) [] h = absurd (omega arith)
get_last?-drop (suc n) (x ∷ []) h = absurd (omega arith)
get_last?-drop (suc n) (x ∷ y ∷ xs) h = get_last?-drop n (y ∷ xs) (omega arith)

-- Cutting a list down to its last 60 keeps the last.
pub get_last?-recent : {R : Type 0} (xs : List R) → get_last? (recent xs) ≡ get_last? xs
get_last?-recent [] = refl
get_last?-recent (x ∷ xs) = get_last?-drop _ (x ∷ xs) (omega arith)

abbrev pub same_peer : PeerIdentity → PeerIdentity → Bool
same_peer p q = str_eq p.service q.service && str_eq p.instance_id q.instance_id

pub same_peer_iff : (p q : PeerIdentity) → (same_peer p q ≡ true) ↔ (p ≡ q)
same_peer_iff p q = ground (arith, eq_iff p.service q.service, eq_iff p.instance_id q.instance_id)

pub get_in-set_in :
    {V : Type 0} (p q : PeerIdentity) (v : V) (m : Dict (Dict V))
    → get_in q (set_in p v m) ≡ (if same_peer p q then some v else get_in q m)
unfolding get_in set_in
get_in-set_in p q v m = ground (
  arith,
  get-set p.service q.service (set p.instance_id v (group_or_empty (get p.service m))) m,
  get-set p.instance_id q.instance_id v (group_or_empty (get p.service m)),
  eq_iff p.service q.service,
)
