-- ===== src/Assignment/Size.antt =====
-- core/assignment_manager.py, `update`: a promotion into a full pool.
use binance_future_bot.Base.{
  ℕ, ◌≤◌, ◌≡◌, true, false, some, List, arith, length, mem, text_eq, le→leb,
}
use binance_future_bot.Base.Text.{Text, upper}
use binance_future_bot.Base.Dict.{keys, mem-keys-delete, lookup-eq-none}
use binance_future_bot.Assignment.{
  lowest_evictable, evict_lowest, qualifies_for_promotion, update_new, update, is_hot,
}
use binance_future_bot.Assignment.Types.{Config, StrategyScore, AssignmentManager}

-- If a qualifying symbol meets a full pool that has an entry to evict, `update` answers that the
-- symbol is promoted and names the evicted one, and the symbol is not in the pool afterwards.
pub promoted_left_out :
    (c : Config) (best : StrategyScore) (now_ms : ℕ) (open_symbols : List Text)
    (m : AssignmentManager) (evicted : Text)
    → mem (upper best.symbol) (keys m.tier2) ≡ false
    → qualifies_for_promotion c m best ≡ true
    → m.max_hot ≤ length m.tier2
    → lowest_evictable (upper best.symbol) m.tier2 ≡ some evicted
    → ((update c now_ms best open_symbols m).1.promoted ≡ true)
      × ((update c now_ms best open_symbols m).1.symbol ≡ some evicted)
      × (is_hot best.symbol (update c now_ms best open_symbols m).0 ≡ false)
unfolding update update_new evict_lowest is_hot qualifies_for_promotion
promoted_left_out c best now_ms open_symbols m evicted out fit full low =
    let no = lookup-eq-none (upper best.symbol) m.tier2 out in
    let test = le→leb _ _ full in
    let gone = mem-keys-delete evicted (upper best.symbol) m.tier2 in
    (ground arith, ground arith, ground arith)
