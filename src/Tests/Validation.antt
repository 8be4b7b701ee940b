-- ===== src/Tests/Validation.antt =====
-- The validation queue at a concrete run.
use binance_future_bot.Base.{List, [], ◌∷◌, text_eq}
use binance_future_bot.Base.Text.{codes}
use binance_future_bot.ValidationQueue.{QueueConfig, new_validator, capacity, passed, blocked}
use binance_future_bot.ValidationQueue.Held.{IsPending}
use binance_future_bot.ValidationQueue.Pending.{
  Call, enqueued, begun, finished, after_calls, after_calls-IsPending,
}
use binance_future_bot.ValidationQueue.Turns.{Event, due_turn}
use binance_future_bot.ValidationQueue.Turns
use binance_future_bot.Funnel.Calls.{promotion}
use binance_future_bot.Funnel.Calls
use binance_future_bot.Tests.Funnel.{config, fresh, btc, eth, score_of}

abbrev small : QueueConfig
small = record { queue_max = 1; queue_ttl = 30000 }

abbrev calls : List Call
calls =
    enqueued 1000 btc
    ∷ begun
    ∷ enqueued 1100 eth
    ∷ enqueued 1200 btc
    ∷ enqueued 1300 (codes "SOL")
    ∷ finished 1500 2000 passed
    ∷ begun
    ∷ finished 2500 3000 blocked
    ∷ []

after_calls-IsPending_example :
    IsPending (capacity small) (after_calls config small calls (new_validator, fresh)).0
after_calls-IsPending_example = after_calls-IsPending config small calls fresh

-- BTC and ETH in Hot.
abbrev two_in_hot : List Calls.Call
two_in_hot = promotion 500 btc (score_of 6500 ∷ []) ∷ promotion 600 eth (score_of 6500 ∷ []) ∷ []

-- The queue has room for one: BTC is put in, and ETH in its place. The worker then tests ETH.
abbrev later_turns : List Event
later_turns = Turns.begun ∷ due_turn 3000 ∷ Turns.finished 4000 4500 blocked ∷ due_turn 5000 ∷ []
