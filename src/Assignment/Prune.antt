-- ===== src/Assignment/Prune.antt =====
-- core/assignment_manager.py, `prune_outside_watchlist`: exactly which symbols stay.
use binance_future_bot.Base.{
  ◌≡◌, refl, ◌&&◌, ◌||◌, not, none, some, List, [], ◌∷◌, map, arith, Distinct, mem, text_eq,
  if◌then◌else◌, Bool-cases, inl, inr,
}
use binance_future_bot.Base.Text.{Text, upper}
use binance_future_bot.Base.Dict.{
  Dict, lookup, keys, delete, delete-Distinct, lookup-delete, mem-keys-lookup,
}
use binance_future_bot.Assignment.{outside, prune_each, prune_outside_watchlist}
use binance_future_bot.Assignment.Types.{CoinAssignment, AssignmentManager}

module _ (watchlist open_set : List Text) where
  -- The loop over `list(self._tier2.keys())` drops the symbols of the list that fail the test.
  lookup-prune_each :
      (symbols : List Text) (d : Dict Text CoinAssignment) (sym : Text)
      → Distinct symbols
      → Distinct (keys d)
      → lookup sym (prune_each watchlist open_set symbols d).0
        ≡ (if mem sym symbols && outside watchlist open_set d sym then none else lookup sym d)
  unfolding prune_each outside
  lookup-prune_each [] d sym ds dd = refl
  lookup-prune_each (k ∷ rest) d sym ds dd =
      let here = lookup-delete k sym d dd in
      let then_kept = lookup-prune_each rest d sym ds.1 dd in
      let then_dropped = lookup-prune_each rest (delete k d) sym ds.1 (delete-Distinct k d dd) in
      elim (Bool-cases (outside watchlist open_set d k)) [
        | inl drop ↦ ground (arith, text_eq.beq_iff k sym, text_eq.beq_iff sym k)
        | inr keep ↦ ground (arith, text_eq.beq_iff k sym, text_eq.beq_iff sym k)
      ]

  -- The symbols that the loop returns are those that fail the test.
  mem-prune_each :
      (symbols : List Text) (d : Dict Text CoinAssignment) (sym : Text)
      → Distinct symbols
      → Distinct (keys d)
      → mem sym (prune_each watchlist open_set symbols d).1
        ≡ (mem sym symbols && outside watchlist open_set d sym)
  unfolding prune_each outside
  mem-prune_each [] d sym ds dd = refl
  mem-prune_each (k ∷ rest) d sym ds dd =
      let here = lookup-delete k sym d dd in
      let then_kept = mem-prune_each rest d sym ds.1 dd in
      let then_dropped = mem-prune_each rest (delete k d) sym ds.1 (delete-Distinct k d dd) in
      elim (Bool-cases (outside watchlist open_set d k)) [
        | inl drop ↦ ground (arith, text_eq.beq_iff k sym, text_eq.beq_iff sym k)
        | inr keep ↦ ground (arith, text_eq.beq_iff k sym, text_eq.beq_iff sym k)
      ]

-- If no symbol stands twice in the pool, a watchlist refresh keeps an entry as it is if its symbol
-- is on the new watchlist, or it is frozen, or its symbol is open. It drops every other entry, and
-- returns exactly the symbols that it dropped.
pub prune_outside_watchlist-lookup :
    (tier1_symbols open_symbols : List Text) (m : AssignmentManager) (sym : Text)
    (a : CoinAssignment)
    → Distinct (keys m.tier2)
    → lookup sym m.tier2 ≡ some a
    → let stays =
        mem sym (map upper tier1_symbols) || a.frozen || mem sym (map upper open_symbols) in
      (lookup sym (prune_outside_watchlist tier1_symbols open_symbols m).0.tier2
        ≡ (if stays then some a else none))
      × (mem sym (prune_outside_watchlist tier1_symbols open_symbols m).1 ≡ not stays)
unfolding prune_outside_watchlist outside
prune_outside_watchlist-lookup tier1_symbols open_symbols m sym a d here =
    let there = mem-keys-lookup sym a m.tier2 here in
    let found =
      lookup-prune_each (map upper tier1_symbols) (map upper open_symbols) (keys m.tier2) m.tier2
        sym d d in
    let named =
      mem-prune_each (map upper tier1_symbols) (map upper open_symbols) (keys m.tier2) m.tier2 sym d
        d in
    (ground arith, ground arith)
