-- ===== src/Base/Sets.antt =====
-- Python sets as lists, and the lists that keep one entry for each key.
use binance_future_bot.Base.{
  ◌≡◌, ap, not, ◌&&◌, ◌||◌, List, [], ◌∷◌, ◌++◌, arith, filter, if◌then◌else◌, Eq, ◌=?◌, mem,
  mem-append, mem-filter_eq, Distinct, Distinct-filter, Distinct-append_one, Bool-cases, inl, inr,
}

module _ {ℓ} {A : Type ℓ} ⦃e : Eq A⦄ where
  -- `s.add(a)`
  unfoldable pub set_add : A → List A → List A
  set_add a s = if mem a s then s else s ++ a ∷ []

  -- `s.discard(a)`, and `[x for x in l if x != a]`
  unfoldable pub discard : A → List A → List A
  discard a s = filter (λ x. not (x =? a)) s

  pub mem-set_add : (a x : A) (s : List A) → mem x (set_add a s) ≡ (mem x s || a =? x)
  unfolding set_add
  mem-set_add a x s = elim (Bool-cases (a =? x)) [
    | inl same ↦
        let at : mem a s ≡ mem x s = ap (λ y. mem y s) ((e.beq_iff a x).0 same) in
        ground (arith, mem-append x s (a ∷ []))
    | inr other ↦ ground (arith, mem-append x s (a ∷ []))
  ]

  pub mem-discard : (a x : A) (s : List A) → mem x (discard a s) ≡ (mem x s && not (a =? x))
  unfolding discard
  mem-discard a x s =
      ground (arith, mem-filter_eq (λ y. not (y =? a)) x s, e.beq_iff a x, e.beq_iff x a)

  pub set_add-Distinct : (a : A) (s : List A) → Distinct s → Distinct (set_add a s)
  unfolding set_add
  set_add-Distinct a s d = elim (Bool-cases (mem a s)) [
    | inl there ↦ rw there d
    | inr new ↦ rw new (Distinct-append_one a s d new)
  ]

  pub discard-Distinct : (a : A) (s : List A) → Distinct s → Distinct (discard a s)
  unfolding discard
  discard-Distinct a s d = Distinct-filter _ s d
