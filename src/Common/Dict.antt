-- ===== src/Common/Dict.antt =====
-- A JavaScript Map, or a plain object used as one: an association list in insertion order.
-- `set` on a key that is there keeps its place, as Map.set does.
use mathlib.Core.Path.{◌≡◌, refl}
use mathlib.Core.Logic.{◌≢◌}
use mathlib.Core.Bool.{Bool, true, false}
use mathlib.Core.List.{List, [], ◌∷◌}
use mathlib.Core.Option.{Option, none, some}
use native.Mathlib.Omega.{arith}
use Prim.Native.String.{String}
use text.Mathlib.Text.{◌==◌}
use text.Mathlib.TextEquality.{eq_iff}
use text.Mathlib.TextPositions.{eq_refl}
use distributed_rpc_js.Common.Tests.{if◌then◌else◌}

abbrev pub Dict {ℓ} : Type ℓ → Type ℓ
Dict V = List (String × V)

module _ {ℓ} {V : Type ℓ} where
  unfoldable pub get : String → Dict V → Option V
  get k [] = none
  get k ((j, v) ∷ m) = if j == k then some v else get k m

  unfoldable pub set : String → V → Dict V → Dict V
  set k v [] = (k, v) ∷ []
  set k v ((j, w) ∷ m) = if j == k then (j, v) ∷ m else (j, w) ∷ set k v m

  unfoldable pub delete : String → Dict V → Dict V
  delete k [] = []
  delete k ((j, v) ∷ m) = let rest = delete k m in if j == k then rest else (j, v) ∷ rest

  pub get-set :
      (k j : String) (v : V) (m : Dict V) → get j (set k v m) ≡ (if k == j then some v else get j m)
  unfolding get set
  get-set k j v [] = refl
  get-set k j v ((i, w) ∷ m) = ground (arith, eq_iff k j, eq_iff i k, eq_iff i j, get-set k j v m)

  pub get-delete :
      (k j : String) (m : Dict V) → get j (delete k m) ≡ (if k == j then none else get j m)
  unfolding get delete
  get-delete k j [] = ground arith
  get-delete k j ((i, w) ∷ m) = ground (arith, eq_iff k j, eq_iff i k, eq_iff i j, get-delete k j m)

module _ {ℓ} {V : Type ℓ} (k : String) where
  pub get-set_self : (v : V) (m : Dict V) → get k (set k v m) ≡ some v
  get-set_self v m = simp (get-set, eq_refl)

  pub get-delete_self : (m : Dict V) → get k (delete k m) ≡ none
  get-delete_self m = simp (get-delete, eq_refl)

  pub get-delete_ne : (j : String) (m : Dict V) → k ≢ j → get j (delete k m) ≡ get j m
  get-delete_ne j m h = ground (arith, eq_iff k j, get-delete k j m)

  pub get-set_ne : (j : String) (v : V) (m : Dict V) → k ≢ j → get j (set k v m) ≡ get j m
  get-set_ne j v m h = ground (arith, eq_iff k j, get-set k j v m)

-- `map.has(key)`.
abbrev pub has {ℓ} : {V : Type ℓ} → String → Dict V → Bool
has k m = elim (get k m) [ none ↦ false | some v ↦ true ]

-- Each key once, as in a Map or an object.
unfoldable pub Distinct {ℓ} : {V : Type ℓ} → Dict V → Type ℓ
Distinct [] = Unit
Distinct ((k, v) ∷ m) = (get k m ≡ none) × Distinct m

module _ {ℓ} {V : Type ℓ} where
  pub set-Distinct : (k : String) (v : V) (m : Dict V) → Distinct m → Distinct (set k v m)
  unfolding set get Distinct
  set-Distinct k v [] distinct = (refl, tt)
  set-Distinct k v ((j, w) ∷ m) (absent, distinct) = at (j == k) refl (set-Distinct k v m distinct)
    where
      at :
          (b : Bool)
          → (j == k) ≡ b
          → Distinct (set k v m)
          → Distinct (if b then (j, v) ∷ m else (j, w) ∷ set k v m)
      at true h later = (absent, distinct)
      at false h later = (ground (arith, absent, h, get-set k j v m, eq_iff k j, eq_iff j k), later)

  pub delete_absent : (k : String) (m : Dict V) → get k m ≡ none → delete k m ≡ m
  unfolding get delete
  delete_absent k [] h = refl
  delete_absent k ((j, w) ∷ m) h = ground (arith, h, delete_absent k m)
