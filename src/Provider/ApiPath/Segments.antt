-- ===== src/Provider/ApiPath/Segments.antt =====
-- The segments of an API path, ServiceProvider._parseRequest (src/provider/service-provider.ts).
use Prim.Native.Char.{Char, code}
use Prim.Native.String.{String, [], ◌∷◌, ◌++◌}
use mathlib.Core.List.{List}
use text.Mathlib.TextLemmas.{nil-append, cons-append, append-nil, append_assoc}
use distributed_rpc_js.Common.{
  ◌≡◌, ◌≢◌, refl, sym, ap, ◌∙◌, arith, str_eq, eq_iff, ◌==◌, All, Bool-cases, inl, inr,
}
use distributed_rpc_js.Provider.ApiPath.{push, keep, segments, split_path}

abbrev pub NoSlash : String → Type 0
NoSlash [] = Unit
NoSlash (c ∷ s) = (code c ≢ b'/') × NoSlash s

-- A segment of a path: not empty, and without a slash.
abbrev pub IsSegment : String → Type 0
IsSegment s = (s ≢ "") × NoSlash s

NoSlash-push : (s : String) (c : Char) → NoSlash s → code c ≢ b'/' → NoSlash (push s c)
NoSlash-push [] c h ne = rw nil-append (ne, tt)
NoSlash-push (d ∷ s) c (h, hs) ne = rw cons-append (h, NoSlash-push s c hs ne)

keep-IsSegment :
    (segment : String) (rest : List String)
    → NoSlash segment
    → All IsSegment rest
    → All IsSegment (keep segment rest)
keep-IsSegment segment rest h hs = elim (Bool-cases (str_eq segment "")) [
  | inl empty ↦ rw empty hs
  | inr full ↦ rw full ((λ e. ground (arith, eq_iff segment ""), h), hs)
]

segments-plain :
    (cur : String) (c : Char) (s : String)
    → code c ≢ b'/'
    → segments cur (c ∷ s) ≡ segments (push cur c) s
unfolding segments
segments-plain cur c s ne = elim (Bool-cases (code c == b'/')) [
  | inl slash ↦ absurd (ne (ground arith))
  | inr plain ↦ rw plain
]

keep_full : (s : String) (rest : List String) → s ≢ "" → keep s rest ≡ List.◌∷◌ s rest
keep_full s rest h = ground (arith, eq_iff s "")

segments-IsSegment : (cur s : String) → NoSlash cur → All IsSegment (segments cur s)
unfolding segments
segments-IsSegment cur [] h = keep-IsSegment cur List.[] h tt
segments-IsSegment cur (c ∷ s) h = elim (Bool-cases (code c == b'/')) [
  | inl slash ↦ rw slash (keep-IsSegment cur (segments "" s) h (segments-IsSegment "" s tt))
  | inr plain ↦
      rw plain (segments-IsSegment (push cur c) s (NoSlash-push cur c h (λ e. ground arith)))
]

-- Every segment of a path is not empty and has no slash.
pub split_path-IsSegment : (api : String) → All IsSegment (split_path api)
unfolding split_path
split_path-IsSegment api = segments-IsSegment "" api tt

-- The path of a list of segments, each behind a slash.
unfoldable pub join_path : List String → String
join_path List.[] = ""
join_path (List.◌∷◌ s ss) = "/" ++ (s ++ join_path ss)

segments-append : (s cur t : String) → NoSlash s → segments cur (s ++ t) ≡ segments (cur ++ s) t
segments-append [] cur t h = rw (nil-append, append-nil)
segments-append (c ∷ s) cur t (h, hs) = rw cons-append (
    segments-plain cur c (s ++ t) h
    ∙ segments-append s (push cur c) t hs
    ∙ ap (λ u. segments u t) (append_assoc cur (c ∷ []) s ∙ ap (λ u. cur ++ u) one))
  where
    one : (c ∷ []) ++ s ≡ c ∷ s
    one = rw (cons-append, nil-append)

segments-slash : (cur t : String) → segments cur ("/" ++ t) ≡ keep cur (segments "" t)
unfolding segments
segments-slash cur t = rw (cons-append, nil-append)

segments-join_path :
    (s : String) (ss : List String) → segments s (join_path ss) ≡ keep s (split_path (join_path ss))
unfolding split_path join_path
segments-join_path s List.[] = refl
segments-join_path s (List.◌∷◌ t ts) =
    segments-slash s (t ++ join_path ts) ∙ ap (keep s) (sym (segments-slash "" (t ++ join_path ts)))

-- The path of a list of segments, each not empty and without a slash, is split into these segments
-- again.
pub split_path-join_path : (ss : List String) → All IsSegment ss → split_path (join_path ss) ≡ ss
unfolding split_path join_path
split_path-join_path List.[] h = refl
split_path-join_path (List.◌∷◌ s ss) ((full, plain), hs) =
    segments-slash "" (s ++ join_path ss)
    ∙ segments-append s "" (join_path ss) plain
    ∙ rw nil-append (segments-join_path s ss)
    ∙ ap (keep s) (split_path-join_path ss hs)
    ∙ keep_full s ss full
