-- ===== src/Common/Lists.antt =====
-- Lists measured and cut by native numbers, under the library's names.
use Prim.Native.Nat.{ℕ, zero, suc, ◌+◌, ◌-◌, ◌≤◌, min}
use mathlib.Core.Path.{◌≡◌, refl, ap}
use mathlib.Core.List.{List, [], ◌∷◌, ◌++◌}
use mathlib.Core.Option.{Option, none, some}
use native.Mathlib.Omega.{arith}

-- A predicate on every element.
abbrev pub All {ℓ κ} : {A : Type ℓ} → (A → Type κ) → List A → Type κ
All P [] = Unit
All P (x ∷ xs) = P x × All P xs

module _ {ℓ} {A : Type ℓ} where
  abbrev pub length : List A → ℕ
  length [] = 0
  length (x ∷ xs) = suc (length xs)

  abbrev pub take : ℕ → List A → List A
  take zero xs = []
  take (suc n) [] = []
  take (suc n) (x ∷ xs) = x ∷ take n xs

  abbrev pub drop : ℕ → List A → List A
  drop zero xs = xs
  drop (suc n) [] = []
  drop (suc n) (x ∷ xs) = drop n xs

  abbrev pub replicate : ℕ → A → List A
  replicate zero a = []
  replicate (suc n) a = a ∷ replicate n a

  abbrev pub get_last? : List A → Option A
  get_last? [] = none
  get_last? (x ∷ []) = some x
  get_last? (x ∷ y ∷ xs) = get_last? (y ∷ xs)

  pub length-append : (xs ys : List A) → length (xs ++ ys) ≡ length xs + length ys
  length-append [] ys = omega arith
  length-append (x ∷ xs) ys = omega (arith, length-append xs ys)

  pub length-take : (n : ℕ) (xs : List A) → length (take n xs) ≡ min n (length xs)
  length-take zero xs = omega arith
  length-take (suc n) [] = omega arith
  length-take (suc n) (x ∷ xs) = omega (arith, length-take n xs)

  pub length-drop : (n : ℕ) (xs : List A) → length (drop n xs) ≡ length xs - n
  length-drop zero xs = omega arith
  length-drop (suc n) [] = omega arith
  length-drop (suc n) (x ∷ xs) = omega (arith, length-drop n xs)

  pub length-replicate : (n : ℕ) (a : A) → length (replicate n a) ≡ n
  length-replicate zero a = refl
  length-replicate (suc n) a = ap suc (length-replicate n a)

  -- A prefix of known length is cut off whole.
  pub take-append : (xs ys : List A) (n : ℕ) → length xs ≡ n → take n (xs ++ ys) ≡ xs
  take-append [] ys zero h = refl
  take-append [] ys (suc n) h = absurd (omega arith)
  take-append (x ∷ xs) ys zero h = absurd (omega arith)
  take-append (x ∷ xs) ys (suc n) h = ap (λ t. x ∷ t) (take-append xs ys n (omega arith))

  pub drop-append : (xs ys : List A) (n : ℕ) → length xs ≡ n → drop n (xs ++ ys) ≡ ys
  drop-append [] ys zero h = refl
  drop-append [] ys (suc n) h = absurd (omega arith)
  drop-append (x ∷ xs) ys zero h = absurd (omega arith)
  drop-append (x ∷ xs) ys (suc n) h = drop-append xs ys n (omega arith)

  pub take_of_short : (n : ℕ) (xs : List A) → length xs ≤ n → take n xs ≡ xs
  take_of_short zero [] h = refl
  take_of_short zero (x ∷ xs) h = absurd (omega arith)
  take_of_short (suc n) [] h = refl
  take_of_short (suc n) (x ∷ xs) h = ap (λ t. x ∷ t) (take_of_short n xs (omega arith))

  pub drop-append_of_le :
      (n : ℕ) (xs ys : List A) → n ≤ length xs → drop n (xs ++ ys) ≡ drop n xs ++ ys
  drop-append_of_le zero xs ys h = refl
  drop-append_of_le (suc n) [] ys h = absurd (omega arith)
  drop-append_of_le (suc n) (x ∷ xs) ys h = drop-append_of_le n xs ys (omega arith)

  pub drop-drop_one : (n : ℕ) (xs : List A) → drop 1 (drop n xs) ≡ drop (suc n) xs
  drop-drop_one zero [] = refl
  drop-drop_one zero (x ∷ xs) = refl
  drop-drop_one (suc n) [] = refl
  drop-drop_one (suc n) (x ∷ xs) = drop-drop_one n xs

  pub get_last?-append : (xs : List A) (x : A) → get_last? (xs ++ x ∷ []) ≡ some x
  get_last?-append [] x = refl
  get_last?-append (y ∷ []) x = refl
  get_last?-append (y ∷ z ∷ xs) x = get_last?-append (z ∷ xs) x

module _ {ℓ κ} {A : Type ℓ} (P : A → Type κ) where
  pub All-append : (xs ys : List A) → All P xs → All P ys → All P (xs ++ ys)
  All-append [] ys left right = right
  All-append (x ∷ xs) ys (first, left) right = (first, All-append xs ys left right)

  pub All-map : (Q : A → Type κ) (xs : List A) → ((x : A) → P x → Q x) → All P xs → All Q xs
  All-map Q [] f all = tt
  All-map Q (x ∷ xs) f (first, all) = (f x first, All-map Q xs f all)
