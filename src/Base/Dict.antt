-- ===== src/Base/Dict.antt =====
-- A Python `dict`: an association list in insertion order, one entry for each key.
use binance_future_bot.Base.{
  suc, ◌≡◌, refl, ap, true, false, Option, none, some, List, [], ◌∷◌, arith, if◌then◌else◌, length,
  Eq, ◌=?◌, mem, Distinct, All, All-imp, Bool, filter, Bool-cases, inl, inr,
}

abbrev pub Dict {ℓ κ} : Type ℓ → Type κ → Type (ℓ ⊔ κ)
Dict K V = List (K × V)

module _ {ℓ κ} {K : Type ℓ} {V : Type κ} ⦃e : Eq K⦄ where
  -- `d.get(k)`
  unfoldable pub lookup : K → Dict K V → Option V
  lookup k [] = none
  lookup k ((j, v) ∷ d) = if j =? k then some v else lookup k d

  -- `d[k] = v`: in place, or at the end
  unfoldable pub insert : K → V → Dict K V → Dict K V
  insert k v [] = (k, v) ∷ []
  insert k v ((j, w) ∷ d) = if j =? k then (j, v) ∷ d else (j, w) ∷ insert k v d

  -- `d.pop(k, None)`
  unfoldable pub delete : K → Dict K V → Dict K V
  delete k [] = []
  delete k ((j, w) ∷ d) = if j =? k then d else (j, w) ∷ delete k d

  abbrev pub keys : Dict K V → List K
  keys [] = []
  keys ((j, w) ∷ d) = j ∷ keys d

  abbrev pub values : Dict K V → List V
  values [] = []
  values ((j, w) ∷ d) = w ∷ values d

  pub lookup-insert :
      (k j : K) (v : V) (d : Dict K V)
      → lookup j (insert k v d) ≡ (if k =? j then some v else lookup j d)
  unfolding lookup insert
  lookup-insert k j v [] = refl
  lookup-insert k j v ((i, w) ∷ d) =
      ground (arith, e.beq_iff i k, e.beq_iff i j, e.beq_iff k j, lookup-insert k j v d)

  pub lookup-eq-none : (k : K) (d : Dict K V) → mem k (keys d) ≡ false → lookup k d ≡ none
  unfolding lookup
  lookup-eq-none k [] h = refl
  lookup-eq-none k ((j, w) ∷ d) h = ground (arith, lookup-eq-none k d)

  pub lookup-delete :
      (k j : K) (d : Dict K V)
      → Distinct (keys d)
      → lookup j (delete k d) ≡ (if k =? j then none else lookup j d)
  unfolding lookup delete
  lookup-delete k j [] h = ground arith
  lookup-delete k j ((i, w) ∷ d) h =
      ground (
        arith,
        e.beq_iff i k,
        e.beq_iff i j,
        e.beq_iff k j,
        lookup-delete k j d,
        lookup-eq-none i d,
      )

  pub mem-keys-insert :
      (k j : K) (v : V) (d : Dict K V)
      → mem j (keys (insert k v d)) ≡ (if k =? j then true else mem j (keys d))
  unfolding insert
  mem-keys-insert k j v [] = ground arith
  mem-keys-insert k j v ((i, w) ∷ d) =
      ground (arith, e.beq_iff i k, e.beq_iff i j, e.beq_iff k j, mem-keys-insert k j v d)

  pub mem-keys-delete :
      (k j : K) (d : Dict K V) → mem j (keys (delete k d)) ≡ true → mem j (keys d) ≡ true
  unfolding delete
  mem-keys-delete k j [] h = cc
  mem-keys-delete k j ((i, w) ∷ d) h = ground (arith, mem-keys-delete k j d)

  pub insert-Distinct :
      (k : K) (v : V) (d : Dict K V) → Distinct (keys d) → Distinct (keys (insert k v d))
  unfolding insert
  insert-Distinct k v [] h = (refl, tt)
  insert-Distinct k v ((i, w) ∷ d) h =
      ground (arith, e.beq_iff i k, e.beq_iff k i, mem-keys-insert k i v d, insert-Distinct k v d)

  pub delete-Distinct : (k : K) (d : Dict K V) → Distinct (keys d) → Distinct (keys (delete k d))
  unfolding delete
  delete-Distinct k [] h = tt
  delete-Distinct k ((i, w) ∷ d) h = ground (arith, mem-keys-delete k i d, delete-Distinct k d)

  pub length-delete :
      (k : K) (d : Dict K V) → mem k (keys d) ≡ true → suc (length (delete k d)) ≡ length d
  unfolding delete
  length-delete k [] h = cc
  length-delete k ((i, w) ∷ d) h = ground (arith, length-delete k d)

  pub length-insert_new :
      (k : K) (v : V) (d : Dict K V)
      → mem k (keys d) ≡ false
      → length (insert k v d) ≡ suc (length d)
  unfolding insert
  length-insert_new k v [] h = refl
  length-insert_new k v ((i, w) ∷ d) h = ground (arith, length-insert_new k v d)

  pub mem-keys-delete_other :
      (k j : K) (d : Dict K V) → (k =? j) ≡ false → mem j (keys (delete k d)) ≡ mem j (keys d)
  unfolding delete
  mem-keys-delete_other k j [] h = refl
  mem-keys-delete_other k j ((i, w) ∷ d) h =
      ground (arith, e.beq_iff i k, e.beq_iff i j, e.beq_iff k j, mem-keys-delete_other k j d)

  pub mem-keys-lookup : (k : K) (v : V) (d : Dict K V) → lookup k d ≡ some v → mem k (keys d) ≡ true
  unfolding lookup
  mem-keys-lookup k v [] h = cc
  mem-keys-lookup k v ((j, w) ∷ d) h =
      ground (arith, e.beq_iff j k, e.beq_iff k j, mem-keys-lookup k v d)

  pub mem-keys-none : (k : K) (d : Dict K V) → lookup k d ≡ none → mem k (keys d) ≡ false
  unfolding lookup
  mem-keys-none k [] h = refl
  mem-keys-none k ((j, w) ∷ d) h = ground (arith, e.beq_iff j k, e.beq_iff k j, mem-keys-none k d)

  -- Each entry is what its key finds.
  pub All-lookup : (d : Dict K V) → Distinct (keys d) → All (λ x. lookup x.0 d ≡ some x.1) d
  unfolding lookup
  All-lookup [] h = tt
  All-lookup ((j, w) ∷ d) h = (
    ground (arith, e.beq_iff j j),
    All-imp (λ x. lookup x.0 d ≡ some x.1)
        (λ x. (if j =? x.0 then some w else lookup x.0 d) ≡ some x.1) d
        (λ x found. let no = lookup-eq-none j d h.0 in ground (arith, e.beq_iff j x.0))
        (All-lookup d h.1),
  )

  -- What a key finds stays a key of the dict without the entries that fail the test.
  pub mem-keys-filter :
      (p : K × V → Bool) (k : K) (v : V) (d : Dict K V)
      → lookup k d ≡ some v
      → p (k, v) ≡ true
      → mem k (keys (filter p d)) ≡ true
  unfolding lookup
  mem-keys-filter p k v [] h t = cc
  mem-keys-filter p k v ((j, w) ∷ d) h t = elim (Bool-cases (j =? k)) [
    | inl same ↦
        let at : j ≡ k = (e.beq_iff j k).0 same in
        let w_is : w ≡ v = ground arith in
        let t' : p (j, w) ≡ true = cc (at, w_is, t) in rw t' (ground (arith, e.beq_iff k j))
    | inr other ↦
        let rest = mem-keys-filter p k v d (ground arith) t in
        elim (Bool-cases (p (j, w))) [
          | inl kept ↦ rw kept (ground (arith))
          | inr left ↦ rw left rest
        ]
  ]

  pub mem-keys-delete_self :
      (k : K) (d : Dict K V) → Distinct (keys d) → mem k (keys (delete k d)) ≡ false
  unfolding delete
  mem-keys-delete_self k [] h = refl
  mem-keys-delete_self k ((j, w) ∷ d) h = elim (Bool-cases (j =? k)) [
    | inl same ↦
        let at : mem j (keys d) ≡ mem k (keys d) =
          ap (λ y. mem y (keys d)) ((e.beq_iff j k).0 same) in
        ground (arith, h.0)
    | inr other ↦ ground (arith, mem-keys-delete_self k d h.1)
  ]
