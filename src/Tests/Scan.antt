-- ===== src/Tests/Scan.antt =====
-- The rotation and the scan queue at concrete symbols.
use binance_future_bot.Base.{
  ℕ, ◌+◌, ◌-◌, ◌%◌, ◌≤◌, ◌<◌, ◌≡◌, refl, true, false, ◌||◌, min, max, List, [], ◌∷◌, mem, arith,
  Distinct, length, All, ◌=?◌, text_eq,
}
use binance_future_bot.Base.Text.{Text, codes, upper, to_upper}
use binance_future_bot.Base.Dict.{keys}
use binance_future_bot.Rotation.Types.{Config, SymbolRotationManager, dormant}
use binance_future_bot.Rotation.{mark_evaluated, is_in_evaluated_memory}
use binance_future_bot.Rotation.Queues.{state_of, rotation_slices}
use binance_future_bot.Rotation.Slices.{rotating-Turn}
use binance_future_bot.Rotation.Memory.{mark_evaluated-is_in_evaluated_memory}
use binance_future_bot.ScanQueue.{
  ScanPriorityQueue, cap_of, item, batch_size, next_background_batch, fast_track,
}
use binance_future_bot.ScanQueue.FastTrack.{Queues, fast_track-Queues}
use binance_future_bot.ScanQueue.Batch.{next_background_batch-rotates}

abbrev config : Config
config = record {
  enable_rotation = true;
  enable_funnel = true;
  hot_size = 2;
  watchlist_size = 2;
  purge_ms = 12600000;
  memory_min_minutes = 45;
  memory_max_minutes = 60;
  opportunity_hot_min = 70;
  universe_pool_size = 4;
  rotating_batch_size = 2;
  background_batch_size = 2;
}

abbrev a : Text
a = codes "A"

abbrev b : Text
b = codes "B"

abbrev d : Text
d = codes "D"

abbrev memory : SymbolRotationManager
memory = record { evaluated = []; last_full_purge_at = 0; rotation_cycle = 0 }

abbrev slices : SymbolRotationManager × (List Text × List Text)
slices =
    rotation_slices config 5 ((a, 80) ∷ []) ((d, dormant) ∷ []) (a ∷ b ∷ d ∷ []) [] (b ∷ []) memory

rotating-Turn_example :
    Distinct slices.1.1
    × (length slices.1.1 ≤ max (4 - length slices.1.0) 1)
    × All
        (λ s.
          (mem s slices.1.0 ≡ false)
          × (mem s (keys slices.0.evaluated) ≡ false)
          × ((state_of ((d, dormant) ∷ []) s =? dormant) ≡ false))
        slices.1.1
rotating-Turn_example =
    rotating-Turn config 5 ((a, 80) ∷ []) ((d, dormant) ∷ []) (a ∷ b ∷ d ∷ []) [] (b ∷ []) memory

-- A source that draws the shortest lifetime.
abbrev draw_low : ℕ → ℕ → ℕ → ℕ
draw_low i lo hi = lo

mark_evaluated-is_in_evaluated_memory_example :
    (is_in_evaluated_memory 1000000 a (mark_evaluated draw_low config 0 (a ∷ b ∷ []) memory)).1
    ≡ true
unfolding upper to_upper
mark_evaluated-is_in_evaluated_memory_example =
    mark_evaluated-is_in_evaluated_memory draw_low (λ i lo hi h. (omega arith, omega arith)) config
      0 1000000 (a ∷ b ∷ []) memory a refl refl (omega arith)

abbrev queue : ScanPriorityQueue
queue = record {
  hot = a ∷ b ∷ [];
  background = d ∷ [];
  background_index = 0;
  bootstrap_index = 0;
  last_hot_scan_at = 0;
  last_background_batch_at = 0;
  rotation = memory;
  last_batch = [];
  pending_fast_track = [];
}

abbrev promoted : ScanPriorityQueue
promoted = (fast_track config (codes "d" ∷ []) queue).0

fast_track-Queues_example :
    Queues promoted.hot promoted.background
    × (length promoted.hot ≤ cap_of config)
    × ((s : Text)
        → (mem s (a ∷ b ∷ []) || mem s (d ∷ [])) ≡ true
        → (mem s promoted.hot || mem s promoted.background) ≡ true)
unfolding upper to_upper
fast_track-Queues_example = fast_track-Queues config (codes "d") [] queue (record {
  upper_hot = (refl, (refl, tt));
  upper_background = (refl, tt);
  distinct_hot = (refl, (refl, tt));
  distinct_background = (refl, tt);
  apart = λ s h. ground (arith, text_eq.beq_iff a s, text_eq.beq_iff b s, text_eq.beq_iff d s);
})

abbrev waiting : ScanPriorityQueue
waiting = record queue { background = a ∷ b ∷ d ∷ []; background_index = 2 }

next_background_batch-rotates_example :
    let (q', batch) = next_background_batch config 7 waiting in
    Distinct batch
    × All (λ s. mem s (a ∷ b ∷ d ∷ []) ≡ true) batch
    × (length batch ≤ batch_size config)
    × ((j : ℕ)
        → j < min (batch_size config) 3
        → mem (item (a ∷ b ∷ d ∷ []) ((2 + j) % 3)) batch ≡ true)
    × (q'.background_index % 3 ≡ (2 + min (batch_size config) 3) % 3)
next_background_batch-rotates_example =
    next_background_batch-rotates config 7 waiting a (b ∷ d ∷ []) refl
