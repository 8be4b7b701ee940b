-- ===== src/Funnel/Hot.antt =====
-- core/tier_funnel.py, the Hot tier: promotion from Normal, the backtest turns, the rescoring and
-- the demotion.
use binance_future_bot.Base.{
  ℕ, zero, suc, ◌+◌, ◌%◌, Bool, true, false, ◌&&◌, ◌||◌, max, Option, none, some, List, [], ◌∷◌,
  ◌++◌, ltb, ◌==◌, if◌then◌else◌, length, take, filter, map, mem, text_eq,
}
use binance_future_bot.Base.Text.{Text, codes, upper, lower, contains}
use binance_future_bot.Base.Dict.{Dict, lookup, insert, delete, keys}
use binance_future_bot.Base.Sets.{set_add, discard}
use binance_future_bot.Base.Sort.{sort_by}
use binance_future_bot.PaceWindow.{take_slots}
use binance_future_bot.ScoreRanges.{meets_hot}
use binance_future_bot.Assignment.Types.{StrategyScore}
use binance_future_bot.Funnel.Types.{Config, HotRecord, TierFunnel, hot_history_demote_cooldown}
use binance_future_bot.Funnel.{
  is_blank, nth, clear_kline_pending, note_normal_score, drop_cooldowns,
}

unfoldable pub effective_score : StrategyScore → ℕ
effective_score row = max row.final_score row.score

-- The tuple of `_ranked_scores`, compared in its order.
unfoldable pub ranks_above : StrategyScore → StrategyScore → Bool
unfolding effective_score
ranks_above a b =
    ltb (effective_score b) (effective_score a)
    || (effective_score a == effective_score b
        && (ltb b.normalized_score a.normalized_score
            || (a.normalized_score == b.normalized_score
                && (ltb b.score a.score
                    || (a.score == b.score && ltb b.adjusted_score a.adjusted_score)))))

unfoldable pub ranked_scores : List StrategyScore → List StrategyScore
unfolding ranks_above
ranked_scores scores = sort_by ranks_above (filter (λ row. ltb 0 (effective_score row)) scores)

-- A score that is not positive is displayed as 0, so only a ranked one counts.
unfoldable pub display_score : List StrategyScore → ℕ
unfolding ranked_scores
display_score scores = elim (ranked_scores scores) [ [] ↦ 0 | best ∷ _ ↦ effective_score best ]

-- Why a coin leaves Hot: the passes ran out, its scores fell, or the backtest gave a reason.
pub data DemoteReason : Type 0 where
  passes_exceeded score_dropped : DemoteReason
  backtest_failed : Text → DemoteReason

-- On the texts; that of `passes_exceeded` ends in "insufficient 15m history".
unfoldable pub is_history_demote_reason : DemoteReason → Bool
is_history_demote_reason passes_exceeded = true
is_history_demote_reason score_dropped = false
is_history_demote_reason (backtest_failed reason) =
    let text = lower reason in
    contains (codes "insufficient 15m history") text
    || (contains (codes "exceeded") text && contains (codes "pass") text)

unfoldable pub in_history_demote_cooldown : ℕ → Text → TierFunnel → TierFunnel × Bool
unfolding drop_cooldowns
in_history_demote_cooldown now symbol m =
    let m' = drop_cooldowns now m in (m', mem (upper symbol) (keys m'.demote_cooldown_until))

abbrev pub strategies_of : List StrategyScore → List Text
strategies_of [] = []
strategies_of (row ∷ rows) = row.strategy ∷ strategies_of rows

unfoldable pub new_hot : Text → StrategyScore → List Text → HotRecord
new_hot key best backups = record {
  symbol = key;
  strategy = best.strategy;
  backup_strategies = backups;
  score = effective_score best;
  action = if is_blank best.action then codes "NEUTRAL" else best.action;
  backtest_passed = false;
  backtest_pending = false;
  pending_reason = [];
  pending_passes = 0;
  pending_pass_limit = 0;
  history_bars = 0;
  history_pct = 0;
  last_history_pct = 0;
  rest_cooldown_until = 0;
  backup_index = 0;
}

unfoldable pub add_hot : Text → HotRecord → TierFunnel → TierFunnel
add_hot key rec m = record m {
  hot = insert key rec m.hot;
  hot_order = m.hot_order ++ key ∷ [];
  promoted = set_add key m.promoted;
}

-- Of the ranked scores: promote the best, with the next two as backups.
unfoldable pub promote_ranked : Config → Text → List StrategyScore → TierFunnel → TierFunnel × Bool
unfolding add_hot new_hot
promote_ranked c key [] m = (m, false)
promote_ranked c key (best ∷ others) m =
    if meets_hot (c.range_for best.strategy) (effective_score best)
    then (add_hot key (new_hot key best (strategies_of (take 2 others))) m, true)
    else (m, false)

unfoldable pub is_known : Text → TierFunnel → Bool
is_known key m = mem key m.promoted || mem key (keys m.hot) || mem key (keys m.super)

unfoldable pub promote_from_normal :
    Config → ℕ → Text → List StrategyScore → TierFunnel → TierFunnel × Bool
unfolding promote_ranked is_known in_history_demote_cooldown ranked_scores
promote_from_normal c now symbol scores m =
    let key = upper symbol in
    let (m', cooling) = in_history_demote_cooldown now key m in
    if is_blank key || is_known key m
    then (m, false)
    else if cooling
    then (m', false)
    else promote_ranked c key (ranked_scores scores) m'

unfoldable pub record_normal_scan :
    Config → ℕ → Text → List StrategyScore → TierFunnel → TierFunnel × Bool
unfolding promote_from_normal display_score
record_normal_scan c now symbol scores m =
    let m' = note_normal_score symbol (display_score scores) (clear_kline_pending symbol m) in
    elim scores [ [] ↦ (m', false) | row ∷ rows ↦ promote_from_normal c now symbol (row ∷ rows) m' ]

-- Has the coin no need of a REST turn now: passed, on its way, or cooling?
unfoldable pub skips_rest : ℕ → TierFunnel → Text → Bool
skips_rest now m key = elim (lookup key m.hot) [
  | none ↦ true
  | some rec ↦ rec.backtest_passed || mem key m.pending_hot_rest || ltb now rec.rest_cooldown_until
]

-- The loop over the offsets from `offset` on, `rounds` of them left: the offset of the pick.
unfoldable pub find_rest : ℕ → TierFunnel → List Text → ℕ → ℕ → ℕ → Option ℕ
unfolding skips_rest
find_rest now m order start zero offset = none
find_rest now m order start (suc rounds) offset =
    elim (skips_rest now m (nth order ((start + offset) % length order))) [
      | false ↦ some offset
      | true ↦ find_rest now m order start rounds (offset + 1)
    ]

unfoldable pub take_hot_for_rest : ℕ → TierFunnel → TierFunnel × Option Text
unfolding find_rest
take_hot_for_rest now m =
    let order = filter (λ s. mem s (keys m.hot)) m.hot_order in
    let n = length order in
    let start = m.hot_rest_index % n in
    elim (find_rest now m order start n 0) [
      | none ↦ (m, none)
      | some offset ↦
          let key = nth order ((start + offset) % n) in
          let (clock, granted) = take_slots 1 now m.hot_clock in
          let m' = record m { hot_rest_index = (start + offset + 1) % n; hot_clock = clock } in
          if ltb granted 1
          then (m', none)
          else (record m' { pending_hot_rest = set_add key m.pending_hot_rest }, some key)
    ]

abbrev pub has_passed : Dict Text HotRecord → Text → Bool
has_passed hot key = elim (lookup key hot) [ none ↦ false | some rec ↦ rec.backtest_passed ]

unfoldable pub take_hot_for_rescore : ℕ → TierFunnel → TierFunnel × Option Text
take_hot_for_rescore now m =
    let parked = filter (has_passed m.hot) m.hot_order in
    let (clock, granted) = take_slots 1 now m.hot_clock in
    let m' = record m { hot_clock = clock } in
    elim parked [
      | [] ↦ (m, none)
      | first ∷ others ↦ if ltb granted 1 then (m', none) else (
        record m' { hot_index = (m.hot_index + 1) % max (length (first ∷ others)) 1 },
        some (nth (first ∷ others) (m.hot_index % length (first ∷ others))),
      )
    ]

unfoldable pub note_hot_rest_started : Text → TierFunnel → TierFunnel
note_hot_rest_started symbol m = record m {
  pending_hot_rest = set_add (upper symbol) m.pending_hot_rest;
}

unfoldable pub release_hot_rest : Text → TierFunnel → TierFunnel
release_hot_rest symbol m = record m {
  pending_hot_rest = discard (upper symbol) m.pending_hot_rest;
}

-- A coin out of Hot, and no longer promoted.
unfoldable pub drop_hot : Text → TierFunnel → TierFunnel
drop_hot key m = record m {
  hot = delete key m.hot;
  hot_order = discard key m.hot_order;
  pending_hot_rest = discard key m.pending_hot_rest;
}

unfoldable pub demote_hot : Config → ℕ → Text → DemoteReason → TierFunnel → TierFunnel
unfolding drop_hot is_history_demote_reason
demote_hot c now symbol reason m =
    let key = upper symbol in
    let m' = record (drop_hot key m) { promoted = discard key m.promoted } in
    elim (lookup key m.hot) [
      | none ↦ m'
      | some _ ↦ record m' {
        demoted_hold =
            if mem key (map upper m.demoted_hold)
            then m.demoted_hold
            else m.demoted_hold ++ key ∷ [];
        demote_cooldown_until =
            if is_history_demote_reason reason
            then insert key (now + hot_history_demote_cooldown c) m.demote_cooldown_until
            else m.demote_cooldown_until;
      }
    ]
