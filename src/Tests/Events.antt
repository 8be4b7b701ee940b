-- ===== src/Tests/Events.antt =====
-- The queue of candle-close events at a concrete run.
use binance_future_bot.Base.{
  ℕ, ◌+◌, ◌≡◌, ◌&&◌, some, List, [], ◌∷◌, ltb, leb, if◌then◌else◌, filter, take,
}
use binance_future_bot.Base.Text.{Text, codes}
use binance_future_bot.EventScheduler.{new_scheduler, drain_due}
use binance_future_bot.EventScheduler.Drain.{is_due}
use binance_future_bot.EventScheduler.Drain.Calls.{
  Call, closed, drained, caught_up, after_calls, tally, handed_out_once, drain_due-take,
}

abbrev hash : Text → ℕ
hash _ = 7

abbrev frames : List Text
frames = codes "15m" ∷ []

-- A close, its duplicate, a drain, and a catch-up for two symbols.
abbrev calls : List Call
calls =
    closed 1000 (codes "btc") (codes "15m") 900
    ∷ closed 1001 (codes "BTC") (codes "15m") 900
    ∷ drained 5 5000
    ∷ caught_up (λ _ _. 6000) (λ _ _. some 1800) (codes "btc" ∷ codes "eth" ∷ [])
    ∷ []

handed_out_once_example :
    tally 1 (after_calls hash calls (new_scheduler frames 20, [])).1
      + tally 1 (after_calls hash calls (new_scheduler frames 20, [])).0.heap
    ≡ (if ltb 0 1 && leb 1 (after_calls hash calls (new_scheduler frames 20, [])).0.seq
        then 1
        else 0)
handed_out_once_example = handed_out_once hash frames 20 calls 1

drain_due-take_example :
    (drain_due 1 9000 (after_calls hash calls (new_scheduler frames 20, [])).0).1
    ≡ take 1 (filter (is_due 9000) (after_calls hash calls (new_scheduler frames 20, [])).0.heap)
drain_due-take_example = drain_due-take hash frames 20 calls 1 9000
