-- ===== src/Assignment/Leave.antt =====
-- core/assignment_manager.py, `update`: who leaves the pool, and how large the pool gets.
use binance_future_bot.Base.{
  ℕ, ◌≤◌, ◌<◌, ◌≡◌, refl, Bool, ◌⊎◌, true, false, none, some, List, map, arith, leb, ltb, length,
  Distinct, mem, ◌=?◌, text_eq, Bool-cases, Option-cases, subst, ltb→lt, leb→le, inl, inr,
}
use binance_future_bot.Base.Text.{Text, upper}
use binance_future_bot.Base.Dict.{
  Dict, lookup, keys, insert, delete, insert-Distinct, delete-Distinct, mem-keys-insert,
  mem-keys-delete_other, mem-keys-lookup,
}
use binance_future_bot.Assignment.{
  demote_bar, lowest_evictable, evict_lowest, refused, update_existing, qualifies_for_promotion,
  update_new, update, freeze, refresh, fresh,
}
use binance_future_bot.Assignment.Types.{
  Config, StrategyScore, CoinAssignment, AssignmentManager, Outcome,
}
use binance_future_bot.Assignment.Evict.{lowest_evictable-Lowest}

-- Why `update` takes the entry `x` out of the pool.
abbrev pub Reason :
    Config → StrategyScore → Text → Bool → AssignmentManager → Text × CoinAssignment → Type 0
Reason c best symbol open_now m x =
    ((x.0 ≡ symbol) × (open_now ≡ false) × (best.normalized_score < demote_bar c m))
    ⊎ ((x.1.frozen ≡ false) × (m.max_hot ≤ length m.tier2))

-- How one call of `update` relates the pool before and after it.
record Steps (c : Config) (best : StrategyScore) (symbol : Text) (open_now : Bool)
    (m : AssignmentManager) (d : Dict Text CoinAssignment) (o : Outcome) : Type 0 where
  distinct : Distinct (keys d)
  kept :
      (sym : Text) (a : CoinAssignment)
      → lookup sym m.tier2 ≡ some a
      → mem sym (keys d) ≡ false
      → (o.symbol ≡ some sym) × Reason c best symbol open_now m (sym, a)

module _ (c : Config) (best : StrategyScore) (symbol : Text) (now_ms : ℕ) (open_now : Bool)
    (m : AssignmentManager) (h : Distinct (keys m.tier2)) where
  insert-Steps :
      (a : CoinAssignment) (o : Outcome)
      → Steps c best symbol open_now m (insert symbol a m.tier2) o
  insert-Steps a o = record {
    distinct = insert-Distinct symbol a m.tier2 h;
    kept = λ sym b found gone. absurd (
        let there = mem-keys-lookup sym b m.tier2 found in
        let then_there = mem-keys-insert symbol sym a m.tier2 in ground arith);
  }

  stay-Steps : (o : Outcome) → Steps c best symbol open_now m m.tier2 o
  stay-Steps o = record {
    distinct = h;
    kept = λ sym b found gone. absurd (cc (mem-keys-lookup sym b m.tier2 found));
  }

  Steps-eq :
      (d d' : Dict Text CoinAssignment) (o o' : Outcome)
      → d' ≡ d
      → o' ≡ o
      → Steps c best symbol open_now m d o
      → Steps c best symbol open_now m d' o'
  Steps-eq d d' o o' same same_outcome t = rw (same, same_outcome) t

  delete-Steps :
      (k : Text) (a : CoinAssignment) (o : Outcome)
      → lookup k m.tier2 ≡ some a
      → o.symbol ≡ some k
      → Reason c best symbol open_now m (k, a)
      → Steps c best symbol open_now m (delete k m.tier2) o
  delete-Steps k a o here named why = record {
    distinct = delete-Distinct k m.tier2 h;
    kept = λ sym b found gone. elim (Bool-cases (k =? sym)) [
      | inl same ↦
          let at : k ≡ sym = (text_eq.beq_iff k sym).0 same in
          let b_is : a ≡ b = cc (at, here, found) in
          let pair : (k, a) ≡ (sym, b) = cc (at, b_is) in
          (cc (named, at), subst (Reason c best symbol open_now m) pair why)
      | inr other ↦ absurd (
          let there = mem-keys-lookup sym b m.tier2 found in
          let still = mem-keys-delete_other k sym m.tier2 other in ground arith)
    ];
  }

  existing-Steps :
      (a : CoinAssignment)
      → lookup symbol m.tier2 ≡ some a
      → Steps c best symbol open_now m
          (update_existing c best symbol open_now a m).0.tier2
          (update_existing c best symbol open_now a m).1
  unfolding update_existing
  existing-Steps a here = elim (Bool-cases open_now) [
    | inl held ↦
        Steps-eq _ _ _ _ (ground arith) (ground arith) (insert-Steps (freeze best a) refused)
    | inr free ↦ elim (Bool-cases (ltb best.normalized_score (demote_bar c m))) [
      | inr high ↦
          Steps-eq _ _ _ _ (ground arith) (ground arith) (insert-Steps (refresh best a) refused)
      | inl low ↦
          Steps-eq _ _ _ _ (ground arith) (ground arith)
            (delete-Steps symbol a demoted here refl (inl (refl, free, ltb→lt _ _ low)))
    ]
  ]
    where
      demoted : Outcome
      demoted = record { promoted = false; demoted = true; symbol = some symbol }

  new-Steps :
      Steps c best symbol open_now m
        (update_new c best symbol now_ms open_now m).0.tier2
        (update_new c best symbol now_ms open_now m).1
  unfolding update_new evict_lowest
  new-Steps = elim (Bool-cases (qualifies_for_promotion c m best)) [
    | inr weak ↦ Steps-eq _ _ _ _ (ground arith) (ground arith) (stay-Steps refused)
    | inl fit ↦ elim (Bool-cases (leb m.max_hot (length m.tier2))) [
      | inr room ↦ Steps-eq _ _ _ _ (ground arith) (ground arith) (insert-Steps entry new)
      | inl full ↦ elim (Option-cases (lowest_evictable symbol m.tier2)) [
        | inl held ↦ Steps-eq _ _ _ _ (ground arith) (ground arith) (insert-Steps entry new)
        | inr (k, e) ↦
            let (a, here, thawed, _, _) = lowest_evictable-Lowest symbol k m.tier2 h e in
            Steps-eq _ _ _ _ (ground arith) (ground arith)
              (delete-Steps k a (evicted k) here refl (inr (thawed, leb→le _ _ full)))
      ]
    ]
  ]
    where
      entry : CoinAssignment
      entry = fresh symbol best now_ms open_now

      new : Outcome
      new = record { promoted = true; demoted = false; symbol = none }

      evicted : Text → Outcome
      evicted k = record { promoted = true; demoted = false; symbol = some k }

module _ (c : Config) (best : StrategyScore) (now_ms : ℕ) (open_symbols : List Text)
    (m : AssignmentManager) (h : Distinct (keys m.tier2)) where
  update-Steps :
      Steps c best
        (upper best.symbol)
        (mem (upper best.symbol) (map upper open_symbols))
        m
        (update c now_ms best open_symbols m).0.tier2
        (update c now_ms best open_symbols m).1
  unfolding update demote_bar
  update-Steps = elim (Option-cases (lookup symbol m.tier2)) [
    | inl new ↦
        let t = new-Steps c best symbol now_ms open_now m1 h in
        let (m', o) = update_new c best symbol now_ms open_now m1 in
        Steps-eq c best symbol now_ms open_now m h m'.tier2 _ o _ (ground arith) (ground arith)
          (record { distinct = t.distinct; kept = t.kept })
    | inr (a, here) ↦
        let t = existing-Steps c best symbol now_ms open_now m1 h a here in
        let (m', o) = update_existing c best symbol open_now a m1 in
        Steps-eq c best symbol now_ms open_now m h m'.tier2 _ o _ (ground arith) (ground arith)
          (record { distinct = t.distinct; kept = t.kept })
  ]
    where
      symbol : Text
      symbol = upper best.symbol

      open_now : Bool
      open_now = mem symbol (map upper open_symbols)

      m1 : AssignmentManager
      m1 = record m { last_best = insert symbol best m.last_best }

  -- If no symbol stands twice in the pool, then none does after `update`.
  update-Distinct : Distinct (keys (update c now_ms best open_symbols m).0.tier2)
  update-Distinct = update-Steps.distinct

  -- If no symbol stands twice in the pool, an entry leaves it by `update` only if the answer names
  -- its symbol, and only for one of two reasons: it is the scored symbol, it has no open position,
  -- and its normalized score is below the demotion bar; or it is not frozen and the pool is full.
  pub update-leaves :
      (sym : Text) (a : CoinAssignment)
      → lookup sym m.tier2 ≡ some a
      → mem sym (keys (update c now_ms best open_symbols m).0.tier2) ≡ false
      → ((update c now_ms best open_symbols m).1.symbol ≡ some sym)
        × Reason c best
            (upper best.symbol)
            (mem (upper best.symbol) (map upper open_symbols))
            m
            (sym, a)
  update-leaves = update-Steps.kept
