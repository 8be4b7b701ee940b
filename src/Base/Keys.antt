-- ===== src/Base/Keys.antt =====
-- Equality tests as an interface, and list membership by such a test.
use Prim.Native.Nat.{ℕ, zero, suc}
use mathlib.Core.Path.{◌≡◌, refl, ap}
use mathlib.Core.Logic.{◌↔◌, inl, inr}
use mathlib.Core.Bool.{Bool, true, false, ◌&&◌, ◌||◌}
use mathlib.Core.List.{List, [], ◌∷◌, ◌++◌}
use native.Mathlib.Omega.{arith}
use binance_future_bot.Base.Tests.{◌==◌, ==_iff, Bool-cases}
use binance_future_bot.Base.Lists.{filter, take, drop}

pub record Eq {ℓ} (A : Type ℓ) : Type ℓ where
  pub beq : A → A → Bool
  pub beq_iff : (x y : A) → (beq x y ≡ true) ↔ (x ≡ y)

infix 50 ◌=?◌
abbrev pub ◌=?◌ {ℓ} : {A : Type ℓ} ⦃e : Eq A⦄ → A → A → Bool
◌=?◌ ⦃e⦄ = e.beq

pub =?_iff {ℓ} : {A : Type ℓ} ⦃e : Eq A⦄ (a b : A) → ((a =? b) ≡ true) ↔ (a ≡ b)
=?_iff ⦃e⦄ a b = e.beq_iff a b

instance abbrev pub nat_eq : Eq ℕ
nat_eq = record { beq = ◌==◌; beq_iff = ==_iff }

-- Texts are lists of code points.
abbrev pub same_text : List ℕ → List ℕ → Bool
same_text [] [] = true
same_text (x ∷ xs) (y ∷ ys) = x == y && same_text xs ys
same_text _ _ = false

pub same_text_iff : (s t : List ℕ) → (same_text s t ≡ true) ↔ (s ≡ t)
same_text_iff [] [] = (λ _. refl, λ _. refl)
same_text_iff [] (y ∷ ys) = (λ h. cc, λ h. cc)
same_text_iff (x ∷ xs) [] = (λ h. cc, λ h. cc)
same_text_iff (x ∷ xs) (y ∷ ys) =
    let r = same_text_iff xs ys in (λ h. ground (arith, r), λ h. ground (arith, r))

instance abbrev pub text_eq : Eq (List ℕ)
text_eq = record { beq = same_text; beq_iff = same_text_iff }

abbrev pub same_pair {ℓ κ} : {A : Type ℓ} {B : Type κ} ⦃a : Eq A⦄ ⦃b : Eq B⦄ → A × B → A × B → Bool
same_pair ⦃a⦄ ⦃b⦄ x y = a.beq x.0 y.0 && b.beq x.1 y.1

pub same_pair_iff {ℓ κ} :
    {A : Type ℓ} {B : Type κ} ⦃a : Eq A⦄ ⦃b : Eq B⦄ (x y : A × B) → (same_pair x y ≡ true) ↔ (x ≡ y)
same_pair_iff ⦃a⦄ ⦃b⦄ x y =
    let first = a.beq_iff x.0 y.0 in
    let second = b.beq_iff x.1 y.1 in
    (
      λ h.
          let s : x.0 ≡ y.0 = ground (arith, first) in
          let t : x.1 ≡ y.1 = ground (arith, second) in λ i. (s i, t i),
      λ h. ground (arith, first, second, ap (λ z. z.0) h, ap (λ z. z.1) h),
    )

instance abbrev pub pair_eq {ℓ κ} : {A : Type ℓ} {B : Type κ} ⦃a : Eq A⦄ ⦃b : Eq B⦄ → Eq (A × B)
pair_eq = record { beq = same_pair; beq_iff = same_pair_iff }

module _ {ℓ} {A : Type ℓ} ⦃e : Eq A⦄ where
  -- `a in l`
  abbrev pub mem : A → List A → Bool
  mem a [] = false
  mem a (x ∷ xs) = x =? a || mem a xs

  -- No element twice.
  abbrev pub Distinct : List A → Type 0
  Distinct [] = Unit
  Distinct (x ∷ xs) = (mem x xs ≡ false) × Distinct xs

  pub mem-append : (a : A) (xs ys : List A) → mem a (xs ++ ys) ≡ (mem a xs || mem a ys)
  mem-append a [] ys = refl
  mem-append a (x ∷ xs) ys = ground (arith, mem-append a xs ys)

  pub Distinct-append_one :
      (a : A) (xs : List A) → Distinct xs → mem a xs ≡ false → Distinct (xs ++ a ∷ [])
  Distinct-append_one a [] d h = (refl, tt)
  Distinct-append_one a (x ∷ xs) d h = (
    ground (arith, mem-append x xs (a ∷ []), e.beq_iff x a, e.beq_iff a x),
    Distinct-append_one a xs d.1 (ground arith),
  )

  pub mem-filter :
      (p : A → Bool) (a : A) (xs : List A)
      → mem a (filter p xs) ≡ true
      → (mem a xs ≡ true) × (p a ≡ true)
  mem-filter p a [] h = cc
  mem-filter p a (x ∷ xs) h = ground (arith, mem-filter p a xs, e.beq_iff x a)

  pub mem-take : (n : ℕ) (a : A) (l : List A) → mem a (take n l) ≡ true → mem a l ≡ true
  mem-take zero a l h = cc
  mem-take (suc n) a [] h = cc
  mem-take (suc n) a (x ∷ l) h = ground (arith, mem-take n a l)

  pub Distinct-take : (n : ℕ) (l : List A) → Distinct l → Distinct (take n l)
  Distinct-take zero l d = tt
  Distinct-take (suc n) [] d = tt
  Distinct-take (suc n) (x ∷ l) d = (ground (arith, mem-take n x l), Distinct-take n l d.1)

  pub mem-filter_eq : (p : A → Bool) (a : A) (l : List A) → mem a (filter p l) ≡ (mem a l && p a)
  mem-filter_eq p a [] = refl
  mem-filter_eq p a (x ∷ l) =
      let rest = mem-filter_eq p a l in
      elim (Bool-cases (x =? a)) [
        | inl same ↦ let at : p x ≡ p a = ap p ((e.beq_iff x a).0 same) in ground (arith, at)
        | inr other ↦ ground arith
      ]

  pub Distinct-filter : (p : A → Bool) (l : List A) → Distinct l → Distinct (filter p l)
  Distinct-filter p [] d = tt
  Distinct-filter p (x ∷ l) d = ground (arith, Distinct-filter p l, mem-filter_eq p x l)

  pub mem-take-drop :
      (n : ℕ) (a : A) (l : List A) → mem a l ≡ (mem a (take n l) || mem a (drop n l))
  mem-take-drop zero a l = refl
  mem-take-drop (suc n) a [] = refl
  mem-take-drop (suc n) a (x ∷ l) = ground (arith, mem-take-drop n a l)

  pub mem-drop : (n : ℕ) (a : A) (l : List A) → mem a (drop n l) ≡ true → mem a l ≡ true
  mem-drop n a l h = ground (arith, mem-take-drop n a l)

  pub Distinct-drop : (n : ℕ) (l : List A) → Distinct l → Distinct (drop n l)
  Distinct-drop zero l d = d
  Distinct-drop (suc n) [] d = tt
  Distinct-drop (suc n) (x ∷ l) d = Distinct-drop n l d.1

  -- The first part and the rest of a list without repetitions share no element.
  pub take-drop_apart :
      (n : ℕ) (a : A) (l : List A) → Distinct l → mem a (take n l) ≡ true → mem a (drop n l) ≡ false
  take-drop_apart zero a l d h = cc
  take-drop_apart (suc n) a [] d h = cc
  take-drop_apart (suc n) a (x ∷ l) d h = elim (Bool-cases (x =? a)) [
    | inl same ↦
        let at : mem x l ≡ mem a l = ap (λ y. mem y l) ((e.beq_iff x a).0 same) in
        let whole = mem-take-drop n a l in ground (arith, d.0)
    | inr other ↦ take-drop_apart n a l d.1 (ground arith)
  ]
