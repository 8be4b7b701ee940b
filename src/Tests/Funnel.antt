-- ===== src/Tests/Funnel.antt =====
-- The tier funnel, its rate window and the score ranges at concrete inputs.
use binance_future_bot.Base.{
  ℕ, ◌≡◌, ◌<◌, ◌≤◌, refl, ◌||◌, some, List, [], ◌∷◌, mem, arith, text_eq, length, ltb,
}
use binance_future_bot.Base.Text.{Text, codes, upper, to_upper}
use binance_future_bot.Base.Dict.{lookup, insert, delete}
use binance_future_bot.Base.Sets.{set_add, discard}
use binance_future_bot.Assignment.Types.{StrategyScore}
use binance_future_bot.PaceWindow.{new_window, take_slots, trim, remaining}
use binance_future_bot.PaceWindow.Rate.{taken, taken_in_minute, taken_in_minute-le}
use binance_future_bot.ScoreRanges.{StrategyScoreRange}
use binance_future_bot.Funnel.Types.{Config, HotRecord, TierFunnel, hot_pending_max_passes}
use binance_future_bot.Funnel.{
  new_funnel, take_normal, scan_pool, next_of_pool, note_scanned, bounded, lock_expired,
  next_normal_symbol, ingest_one, ingest_from, collect_keys, is_blocked, scan_universe_size,
}
use binance_future_bot.Funnel.Hot.{effective_score, new_hot}
use binance_future_bot.Funnel.Backtest.{Progress, kline_load_percent}
use binance_future_bot.Funnel.Super.{apply_hot_scores}
use binance_future_bot.Funnel.Calls.{
  Call, after_calls, normal_scan, promotion, new_universe, normal_turn, rest_turn,
  backtest_accepted, hot_scores, dropped,
}
use binance_future_bot.Funnel.Tiers.{Valid, tiering_of, with_hot-Valid}
use binance_future_bot.Funnel.Tiers.Reached.{left_after, after_calls-Valid}
use binance_future_bot.Funnel.Tiers.Rescore.{Placed, apply_hot_scores-Placed}
use binance_future_bot.Funnel.Scan.RoundRobin.{after_turns, next_of_pool-visits}
use binance_future_bot.Funnel.Scan.Recent.{IsRecent, note_scanned-IsRecent}
use binance_future_bot.Funnel.Backtest.Stuck.{Visit, after_visits}

abbrev bands : StrategyScoreRange
bands = record { super_score = 6800; hot_score = 6200; execution_min = 6000 }

abbrev pub config : Config
config = record {
  universe_size = 2;
  lock_ms = 10800000;
  passes_per_lock = 3;
  ingest_interval = 0;
  super_batch_size = 4;
  pending_cooldown = 120000;
  pending_max_passes = 2;
  demote_cooldown = 1800000;
  day_ms_per_super = 10000;
  day_max_ms = 300000;
  min_bars = 200;
  range_for = λ _. bands;
}

abbrev pub score_of : ℕ → StrategyScore
score_of score = record {
  symbol = codes "BTC";
  strategy = codes "SMC_TREND";
  score = score;
  adjusted_score = score;
  min_score = 6000;
  normalized_score = score;
  regime_fit = 100;
  priority_weight = 100;
  action = codes "LONG";
  bar_open_ms = 0;
  final_score = 0;
}

abbrev pub btc : Text
btc = codes "BTC"

abbrev pub eth : Text
eth = codes "ETH"

abbrev pub fresh : TierFunnel
fresh = new_funnel config 60 6 60

-- A day: two candidates, BTC to Hot and on to Super, and out of it.
abbrev day : List Call
day =
    new_universe 1000 1000 (btc ∷ eth ∷ []) []
    ∷ normal_turn 1000
    ∷ normal_scan 2000 btc (score_of 6500 ∷ [])
    ∷ rest_turn 3000
    ∷ backtest_accepted btc
    ∷ hot_scores 4000 btc (score_of 7000 ∷ [])
    ∷ dropped btc
    ∷ []

after_calls-Valid_example :
    Valid (left_after day []) (tiering_of (after_calls config day (new_funnel config 60 6 60)))
after_calls-Valid_example = after_calls-Valid config 60 6 60 day

program : Unit {0}
unfolding upper to_upper lookup insert delete after_calls new_hot effective_score take_normal
    take_slots trim remaining lock_expired next_normal_symbol ingest_one ingest_from next_of_pool
    scan_pool collect_keys is_blocked note_scanned bounded scan_universe_size set_add discard
    kline_load_percent hot_pending_max_passes taken after_turns after_visits
program = tt

-- BTC in Hot.
abbrev in_hot : TierFunnel
in_hot = record fresh {
  hot = (btc, new_hot btc (score_of 6500) []) ∷ [];
  hot_order = btc ∷ [];
  promoted = btc ∷ [];
}

in_hot-Valid : Valid [] (tiering_of in_hot)
unfolding program
in_hot-Valid =
    with_hot-Valid btc (new_hot btc (score_of 6500) []) (tiering_of fresh)
      (after_calls-Valid config 60 6 60 []) refl refl refl refl

apply_hot_scores-Placed_example :
    Placed [] (upper btc) (apply_hot_scores config 4000 btc (score_of 7000 ∷ []) in_hot)
unfolding program
apply_hot_scores-Placed_example =
    apply_hot_scores-Placed config 4000 btc (score_of 7000 ∷ []) in_hot in_hot-Valid refl

abbrev ingested : TierFunnel
ingested = record fresh { normal = btc ∷ eth ∷ []; normal_index = 1 }

next_of_pool-visits_example :
    (k : ℕ) × (k < length (scan_pool ingested))
    × ((next_of_pool (after_turns k ingested)).1 ≡ some btc)
unfolding program
next_of_pool-visits_example = next_of_pool-visits ingested btc refl

abbrev scanned : TierFunnel
scanned = record fresh { recently_scanned = btc ∷ codes "SOL" ∷ [] }

-- The list is full, so the scan of a third coin is not in it.
note_scanned-IsRecent_example :
    IsRecent 2 (note_scanned config eth scanned).recently_scanned
    × (mem (upper eth) (note_scanned config eth scanned).recently_scanned
        ≡ (mem (upper eth) scanned.recently_scanned || ltb (length scanned.recently_scanned) 2))
unfolding program
note_scanned-IsRecent_example =
    note_scanned-IsRecent config eth scanned refl
      (record { once = (refl, (refl, tt)); bound = omega arith })

abbrev half : Progress
half = record { reason = []; counted = 100; in_reason = 0; in_memory = 0 }

abbrev btc_record : HotRecord
btc_record = new_hot btc (score_of 6500) []

-- BTC has its turns, and ETH comes into Hot between them.
abbrev first_turn : Visit
first_turn = record { between = rest_turn 2900 ∷ []; now = 3000; progress = half }

abbrev last_turn : Visit
last_turn = record {
  between = promotion 100000 eth (score_of 6500 ∷ []) ∷ backtest_accepted eth ∷ [];
  now = 200000;
  progress = half;
}

taken_in_minute-le_example :
    taken_in_minute 0 (taken (new_window 2) ((1000, 1) ∷ (2000, 3) ∷ (61500, 1) ∷ [])) ≤ 2
taken_in_minute-le_example =
    taken_in_minute-le 2 ((1000, 1) ∷ (2000, 3) ∷ (61500, 1) ∷ []) 0
      (omega arith, (omega arith, (omega arith, tt)))
