-- ===== src/Tests/Pool.antt =====
-- The tier-2 pool at concrete scores, in hundredths.
use binance_future_bot.Base.{ℕ, ◌≡◌, refl, true, false, none, some, [], ◌∷◌, mem, arith, text_eq}
use binance_future_bot.Base.Text.{Text, codes, upper, to_upper}
use binance_future_bot.Base.Dict.{lookup, insert, delete}
use binance_future_bot.Assignment.Types.{Config, StrategyScore, CoinAssignment, AssignmentManager}
use binance_future_bot.Assignment.{
  update, update_existing, update_new, prune_outside_watchlist, prune_each, outside, is_hot,
  lowest_evictable, lowest, evict_lowest, qualifies_for_promotion, qualifies_for_tier2,
  above_scaled_threshold, freeze, refresh, fresh, demote_bar,
}
use binance_future_bot.Assignment.Leave.{Reason, update-leaves}
use binance_future_bot.Assignment.Size.{promoted_left_out}
use binance_future_bot.Assignment.Prune.{prune_outside_watchlist-lookup}

abbrev config : Config
config = record {
  hot_size = 10;
  promote_score = 8000;
  promote_normalized = 7000;
  demote_normalized = 5000;
}

abbrev score_of : Text → ℕ → StrategyScore
score_of symbol normalized = record {
  symbol = symbol;
  strategy = codes "trend";
  score = 7500;
  adjusted_score = 6000;
  min_score = 6000;
  normalized_score = normalized;
  regime_fit = 100;
  priority_weight = 100;
  action = codes "LONG";
  bar_open_ms = 0;
  final_score = 0;
}

abbrev entry_of : Text → ℕ → CoinAssignment
entry_of symbol normalized = record {
  symbol = symbol;
  strategy = codes "trend";
  score = 7500;
  adjusted_score = 6000;
  normalized_score = normalized;
  min_score = 6000;
  assigned_bar_open_ms = 0;
  assigned_at_ms = 0;
  frozen = false;
}

abbrev btc : Text
btc = codes "BTC"

abbrev eth : Text
eth = codes "ETH"

abbrev sol : Text
sol = codes "SOL"

-- A pool for two symbols, both there.
abbrev full_pool : AssignmentManager
full_pool = record {
  promote_normalized = none;
  demote_normalized = none;
  max_hot = 2;
  tier2 = (btc, entry_of btc 8000) ∷ (eth, entry_of eth 7200) ∷ [];
  last_best = [];
}

program : Unit {0}
unfolding update update_existing update_new prune_outside_watchlist prune_each outside is_hot
    lowest_evictable lowest evict_lowest qualifies_for_promotion qualifies_for_tier2
    above_scaled_threshold freeze refresh fresh demote_bar lookup insert delete upper to_upper
program = tt

update-leaves_example :
    ((update config 0 (score_of (codes "eth") 4000) [] full_pool).1.symbol ≡ some eth)
    × Reason config (score_of (codes "eth") 4000) eth false full_pool (eth, entry_of eth 7200)
unfolding program
update-leaves_example =
    update-leaves config (score_of (codes "eth") 4000) 0 [] full_pool (refl, (refl, tt)) eth
      (entry_of eth 7200) refl refl

promoted_left_out_example :
    ((update config 0 (score_of sol 9000) [] full_pool).1.promoted ≡ true)
    × ((update config 0 (score_of sol 9000) [] full_pool).1.symbol ≡ some eth)
    × (is_hot sol (update config 0 (score_of sol 9000) [] full_pool).0 ≡ false)
unfolding program
promoted_left_out_example =
    promoted_left_out config (score_of sol 9000) 0 [] full_pool eth refl refl (omega arith) refl

prune_outside_watchlist-lookup_example :
    (lookup eth (prune_outside_watchlist (codes "btc" ∷ []) [] full_pool).0.tier2 ≡ none)
    × (mem eth (prune_outside_watchlist (codes "btc" ∷ []) [] full_pool).1 ≡ true)
unfolding program
prune_outside_watchlist-lookup_example =
    prune_outside_watchlist-lookup (codes "btc" ∷ []) [] full_pool eth (entry_of eth 7200)
      (refl, (refl, tt)) refl
