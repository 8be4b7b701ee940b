-- ===== src/ValidationQueue/Dropped.antt =====
-- core/validation_queue.py and core/tier_funnel.py: what becomes of the coin that a full queue drops.
use binance_future_bot.Base.{◌≡◌, true, false, List, mem, text_eq}
use binance_future_bot.Base.Text.{Text}
use binance_future_bot.Funnel.Types.{Config, TierFunnel}
use binance_future_bot.ValidationQueue.{QueueConfig, Validator, new_validator}
use binance_future_bot.ValidationQueue.Marks.{IsMarked}
use binance_future_bot.ValidationQueue.Turns.{Event, after_events}

-- How a turn treats a coin, by whether the queue has it pending and the funnel has it marked.
record Keeps (k : Text) (s t : Validator × TierFunnel) : Type 0 where
  -- A pending coin is marked.
  kept : (mem k s.0.pending ≡ true → IsMarked k s.1) → mem k t.0.pending ≡ true → IsMarked k t.1
  -- A coin that is marked and not pending stays so.
  waits : IsMarked k s.1 → mem k s.0.pending ≡ false → IsMarked k t.1 × (mem k t.0.pending ≡ false)

abbrev pub at_work : Config → QueueConfig → List Event → TierFunnel → Validator × TierFunnel
at_work c q events m = after_events c q events (new_validator, m)
