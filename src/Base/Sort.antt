-- ===== src/Base/Sort.antt =====
-- `sorted(l, key=..., reverse=True)` as an insertion sort, stable as Python's, and what it keeps.
use binance_future_bot.Base.{
  suc, ◌+◌, ◌≡◌, refl, Bool, List, [], ◌∷◌, arith, if◌then◌else◌, length, All, Bool-cases, inl, inr,
}

module _ {ℓ} {A : Type ℓ} (above : A → A → Bool) where
  -- `x` after every element that does not rank below it.
  unfoldable pub insert_by : A → List A → List A
  insert_by x [] = x ∷ []
  insert_by x (y ∷ l) = if above x y then x ∷ y ∷ l else y ∷ insert_by x l

  unfoldable pub sort_onto : List A → List A → List A
  unfolding insert_by
  sort_onto [] acc = acc
  sort_onto (x ∷ l) acc = sort_onto l (insert_by x acc)

  unfoldable pub sort_by : List A → List A
  unfolding sort_onto
  sort_by l = sort_onto l []

  pub All-insert_by {κ} :
      (P : A → Type κ) (x : A) (l : List A) → P x → All P l → All P (insert_by x l)
  unfolding insert_by
  All-insert_by P x [] h k = (h, tt)
  All-insert_by P x (y ∷ l) h k = elim (Bool-cases (above x y)) [
    | inl first ↦ rw first (h, k)
    | inr later ↦ rw later (k.0, All-insert_by P x l h k.1)
  ]

  pub All-sort_onto {κ} :
      (P : A → Type κ) (l acc : List A) → All P l → All P acc → All P (sort_onto l acc)
  unfolding sort_onto
  All-sort_onto P [] acc h k = k
  All-sort_onto P (x ∷ l) acc h k =
      All-sort_onto P l (insert_by x acc) h.1 (All-insert_by P x acc h.0 k)

  -- What all elements have, all sorted ones have.
  pub All-sort_by {κ} : (P : A → Type κ) (l : List A) → All P l → All P (sort_by l)
  unfolding sort_by
  All-sort_by P l h = All-sort_onto P l [] h tt

  pub length-insert_by : (x : A) (l : List A) → length (insert_by x l) ≡ suc (length l)
  unfolding insert_by
  length-insert_by x [] = refl
  length-insert_by x (y ∷ l) = ground (arith, length-insert_by x l)

  pub length-sort_onto : (l acc : List A) → length (sort_onto l acc) ≡ length l + length acc
  unfolding sort_onto
  length-sort_onto [] acc = omega arith
  length-sort_onto (x ∷ l) acc =
      omega (arith, length-sort_onto l (insert_by x acc), length-insert_by x acc)
