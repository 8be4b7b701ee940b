-- ===== src/Base/Lists.antt =====
-- Lists measured by native numbers, Boolean filters, sums, and predicates by recursion.
use Prim.Native.Nat.{ℕ, zero, suc, ◌+◌, ◌≤◌}
use mathlib.Core.Path.{◌≡◌, refl, ap}
use mathlib.Core.Bool.{Bool, true}
use mathlib.Core.Logic.{inl, inr}
use mathlib.Core.List.{List, [], ◌∷◌, ◌++◌}
use mathlib.Core.Option.{Option, none, some}
use native.Mathlib.Omega.{arith}
use binance_future_bot.Base.Tests.{if◌then◌else◌, Bool-cases}

module _ {ℓ} {A : Type ℓ} where
  abbrev pub length : List A → ℕ
  length [] = 0
  length (x ∷ xs) = suc (length xs)

  abbrev pub take : ℕ → List A → List A
  take zero xs = []
  take (suc n) [] = []
  take (suc n) (x ∷ xs) = x ∷ take n xs

  abbrev pub drop : ℕ → List A → List A
  drop zero xs = xs
  drop (suc n) [] = []
  drop (suc n) (x ∷ xs) = drop n xs

  abbrev pub get_elem? : List A → ℕ → Option A
  get_elem? [] i = none
  get_elem? (x ∷ xs) zero = some x
  get_elem? (x ∷ xs) (suc i) = get_elem? xs i

  -- `[x for x in l if p(x)]`
  abbrev pub filter : (A → Bool) → List A → List A
  filter p [] = []
  filter p (x ∷ xs) = if p x then x ∷ filter p xs else filter p xs

  abbrev pub All {κ} : (A → Type κ) → List A → Type κ
  All P [] = Unit
  All P (x ∷ xs) = P x × All P xs

  pub length-append : (xs ys : List A) → length (xs ++ ys) ≡ length xs + length ys
  length-append [] ys = omega arith
  length-append (x ∷ xs) ys = omega (arith, length-append xs ys)

  pub length-take-le : (n : ℕ) (xs : List A) → length (take n xs) ≤ n
  length-take-le zero xs = omega arith
  length-take-le (suc n) [] = omega arith
  length-take-le (suc n) (x ∷ xs) = omega (arith, length-take-le n xs)

  pub take-append-drop : (n : ℕ) (xs : List A) → take n xs ++ drop n xs ≡ xs
  take-append-drop zero xs = refl
  take-append-drop (suc n) [] = refl
  take-append-drop (suc n) (x ∷ xs) = ap (◌∷◌ x) (take-append-drop n xs)

  pub All-append {κ} : (P : A → Type κ) (l m : List A) → All P l → All P m → All P (l ++ m)
  All-append P [] m first second = second
  All-append P (a ∷ l) m first second = (first.0, All-append P l m first.1 second)

  pub All-imp {κ κ'} :
      (P : A → Type κ) (Q : A → Type κ') (xs : List A) → ((x : A) → P x → Q x) → All P xs → All Q xs
  All-imp P Q [] f h = tt
  All-imp P Q (x ∷ xs) f h = (f x h.0, All-imp P Q xs f h.1)

  -- What is kept has the property and passes the test.
  pub All-filter {κ} :
      (P : A → Type κ) (p : A → Bool) (l : List A)
      → All P l
      → All (λ x. P x × (p x ≡ true)) (filter p l)
  All-filter P p [] h = tt
  All-filter P p (a ∷ l) h = elim (Bool-cases (p a)) [
    | inl kept ↦ rw kept ((h.0, kept), All-filter P p l h.1)
    | inr left ↦ rw left (All-filter P p l h.1)
  ]

  pub All-take {κ} : (P : A → Type κ) (n : ℕ) (l : List A) → All P l → All P (take n l)
  All-take P zero l h = tt
  All-take P (suc n) [] h = tt
  All-take P (suc n) (a ∷ l) h = (h.0, All-take P n l h.1)

  pub All-drop {κ} : (P : A → Type κ) (n : ℕ) (l : List A) → All P l → All P (drop n l)
  All-drop P zero l h = h
  All-drop P (suc n) [] h = tt
  All-drop P (suc n) (a ∷ l) h = All-drop P n l h.1

  pub All-filtered {κ} : (P : A → Type κ) (p : A → Bool) (l : List A) → All P l → All P (filter p l)
  All-filtered P p l h = All-imp _ P (filter p l) (λ x k. k.0) (All-filter P p l h)
