-- ===== src/ScanQueue/Batch.antt =====
-- core/scan_priority_queue.py, `next_background_batch`: the batches go round the background list.
use native.Mathlib.Nat.{mod-lt, mod-add-mod}
use binance_future_bot.Base.{
  ℕ, zero, suc, ◌+◌, ◌%◌, ◌≤◌, ◌<◌, ◌≡◌, refl, ap, ◌∙◌, subst, true, false, ◌||◌, min, List, [],
  ◌∷◌, ◌++◌, arith, All, All-append, Distinct, Distinct-append_one, mem, mem-append, length,
  length-append, ◌=?◌, text_eq, if◌then◌else◌, Bool-cases, inl, inr,
}
use binance_future_bot.Base.Text.{Text}
use binance_future_bot.Rotation.Types.{Config}
use binance_future_bot.ScanQueue.{
  ScanPriorityQueue, item, collect, batch_size, next_background_batch, is_none_added,
}

mem-item : (l : List Text) (i : ℕ) → i < length l → mem (item l i) l ≡ true
mem-item [] i h = absurd (omega arith)
mem-item (x ∷ l) zero h = ground (arith, text_eq.beq_iff x x)
mem-item (x ∷ l) (suc i) h = ground (arith, mem-item l i (omega arith))

-- A batch with `s` added, unless it is there.
abbrev with_one : Text → List Text → List Text
with_one s batch = if mem s batch then batch else batch ++ s ∷ []

mem-with_one : (s t : Text) (batch : List Text) → mem t (with_one s batch) ≡ (mem t batch || s =? t)
mem-with_one s t batch = elim (Bool-cases (mem s batch)) [
  | inl there ↦ elim (Bool-cases (s =? t)) [
    | inl same ↦
        let moved : mem s batch ≡ mem t batch =
          ap (λ y. mem y batch) ((text_eq.beq_iff s t).0 same) in
        ground arith
    | inr other ↦ ground arith
  ]
  | inr new ↦ ground (arith, mem-append t batch (s ∷ []))
]

module _ (pool : List Text) where
  -- What a batch is: symbols of the pool, each once.
  record Batch (batch : List Text) : Type 0 where
    distinct : Distinct batch
    inside : All (λ s. mem s pool ≡ true) batch

  with_one-Batch :
      (s : Text) (batch : List Text) → mem s pool ≡ true → Batch batch → Batch (with_one s batch)
  with_one-Batch s batch h b = elim (Bool-cases (mem s batch)) [
    | inl there ↦ rw there b
    | inr new ↦ rw new (record {
      distinct = Distinct-append_one s batch b.distinct new;
      inside = All-append _ batch (s ∷ []) b.inside (h, tt);
    })
  ]

  length-with_one-le :
      (s : Text) (batch : List Text) → length (with_one s batch) ≤ suc (length batch)
  length-with_one-le s batch = ground (arith, length-append batch (s ∷ []))

  collect-Batch :
      (n index : ℕ) (batch : List Text)
      → 0 < length pool
      → Batch batch
      → Batch (collect pool n index batch).1
        × (length (collect pool n index batch).1 ≤ n + length batch)
  unfolding collect
  collect-Batch zero index batch h b = (b, omega arith)
  collect-Batch (suc n) index batch h b =
      let s = item pool (index % length pool) in
      let here = mem-item pool (index % length pool) (mod-lt index h) in
      let (rest, size) =
        collect-Batch n ((index + 1) % length pool) (with_one s batch) h
          (with_one-Batch s batch here b) in
      let grown = length-with_one-le s batch in (rest, omega arith)

  collect-keeps :
      (n index : ℕ) (batch : List Text) (t : Text)
      → mem t batch ≡ true
      → mem t (collect pool n index batch).1 ≡ true
  unfolding collect
  collect-keeps zero index batch t h = h
  collect-keeps (suc n) index batch t h =
      let s = item pool (index % length pool) in
      collect-keeps n ((index + 1) % length pool) (with_one s batch) t
        (ground (arith, mem-with_one s t batch))

  collect-visits :
      (n index : ℕ) (batch : List Text) (j : ℕ)
      → j < n
      → mem (item pool ((index + j) % length pool)) (collect pool n index batch).1 ≡ true
  unfolding collect
  collect-visits zero index batch j h = absurd (omega arith)
  collect-visits (suc n) index batch zero h =
      let s = item pool (index % length pool) in
      subst (λ i. mem (item pool (i % length pool)) (collect pool (suc n) index batch).1 ≡ true)
        (let e : index ≡ index + 0 = omega arith in e)
        (collect-keeps n ((index + 1) % length pool) (with_one s batch) s
          (ground (arith, mem-with_one s s batch, text_eq.beq_iff s s)))
  collect-visits (suc n) index batch (suc j) h =
      let s = item pool (index % length pool) in
      subst (λ i. mem (item pool i) (collect pool (suc n) index batch).1 ≡ true)
        (mod-add-mod (index + 1) (length pool) j
          ∙ ap (λ k. k % length pool) (let e : index + 1 + j ≡ index + suc j = omega arith in e))
        (collect-visits n ((index + 1) % length pool) (with_one s batch) j (omega arith))

  collect-index :
      (n index : ℕ) (batch : List Text)
      → (collect pool n index batch).0 % length pool ≡ (index + n) % length pool
  unfolding collect
  collect-index zero index batch =
      ap (λ k. k % length pool) (let e : index ≡ index + 0 = omega arith in e)
  collect-index (suc n) index batch =
      let s = item pool (index % length pool) in
      collect-index n ((index + 1) % length pool) (with_one s batch)
      ∙ mod-add-mod (index + 1) (length pool) n
      ∙ ap (λ k. k % length pool) (let e : index + 1 + n ≡ index + suc n = omega arith in e)

-- If the background list is not empty: the batch holds symbols of the list, each once, and at most
-- the batch size. It holds the next symbols of the list in rotation from the index, as many as the
-- batch size or the whole list, and the index moves on by their number, modulo the list's length.
pub next_background_batch-rotates :
    (c : Config) (now : ℕ) (q : ScanPriorityQueue) (first : Text) (rest : List Text)
    → q.background ≡ first ∷ rest
    → let (q', batch) = next_background_batch c now q in
      let size = length q.background in
      let n = min (batch_size c) size in
      Distinct batch
      × All (λ s. mem s q.background ≡ true) batch
      × (length batch ≤ batch_size c)
      × ((j : ℕ) → j < n → mem (item q.background ((q.background_index + j) % size)) batch ≡ true)
      × (q'.background_index % size ≡ (q.background_index + n) % size)
unfolding next_background_batch
next_background_batch-rotates c now q first rest e =
    let pool = q.background in
    let n = min (batch_size c) (length pool) in
    let positive : 0 < length pool = rw e (omega arith) in
    let (b, size) =
      collect-Batch pool n q.background_index [] positive (record { distinct = tt; inside = tt }) in
    let nonempty : is_none_added pool ≡ false = rw e refl in
    rw (nonempty, next_background_batch)
      (
        b.distinct,
        b.inside,
        (let some_left = size in omega arith),
        collect-visits pool n q.background_index [],
        collect-index pool n q.background_index [],
      )
