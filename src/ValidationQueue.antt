-- ===== src/ValidationQueue.antt =====
-- core/validation_queue.py: the queue of Hot coins before the backtest, its one worker, and what the
-- worker tells the funnel. One thread puts coins in. What the backtest and the REST guard answer is
-- an argument; of a candidate only the symbol is kept. Times are milliseconds.
pub mod Held
pub mod Pending
pub mod Marks
pub mod Due
pub mod Turns
pub mod Dropped
use binance_future_bot.Base.{
  ℕ, suc, ◌-◌, Bool, true, false, ◌&&◌, ◌||◌, not, Option, none, some, List, [], ◌∷◌, ◌++◌, ltb,
  leb, max, if◌then◌else◌, length, mem, take, drop, text_eq,
}
use binance_future_bot.Base.Text.{Text, codes, upper}
use binance_future_bot.Base.Sets.{set_add, discard}
use binance_future_bot.Funnel.Types.{Config, TierFunnel}
use binance_future_bot.Funnel.{is_blank}
use binance_future_bot.Funnel.Hot.{release_hot_rest, note_hot_rest_started, take_hot_for_rest}
use binance_future_bot.Funnel.Backtest.{Progress, note_hot_backtest_pending, on_backtest_failed}

pub record QueueConfig : Type 0 where
  pub queue_max : ℕ
  pub queue_ttl : ℕ

abbrev pub capacity : QueueConfig → ℕ
capacity q = max q.queue_max 1

abbrev pub ttl_of : QueueConfig → ℕ
ttl_of q = max q.queue_ttl 30000

pub record QueuedCandidate : Type 0 where
  pub symbol : Text
  pub queued_at : ℕ

-- The validator, with the item that the worker is at.
pub record Validator : Type 0 where
  pub inbound : List QueuedCandidate
  pub approved : List Text
  pub pending : List Text
  pub last_process_at : ℕ
  pub current : Option QueuedCandidate

abbrev pub new_validator : Validator
new_validator = record {
  inbound = [];
  approved = [];
  pending = [];
  last_process_at = 0;
  current = none;
}

-- `get_nowait` from a full queue, and the symbol that is no longer pending.
unfoldable pub drop_oldest : Validator → Validator
drop_oldest v = elim v.inbound [
  | [] ↦ v
  | oldest ∷ rest ↦ record v { inbound = rest; pending = discard (upper oldest.symbol) v.pending }
]

unfoldable pub enqueue : QueueConfig → ℕ → Text → Validator → Validator × Bool
unfolding drop_oldest
enqueue q now raw v =
    let symbol = upper raw in
    let v' = if leb (capacity q) (length v.inbound) then drop_oldest v else v in
    if is_blank symbol || mem symbol v.pending then (v, false) else (
      record v' {
        pending = set_add symbol v'.pending;
        inbound = v'.inbound ++ record { symbol = raw; queued_at = now } ∷ [];
      },
      true,
    )

unfoldable pub enqueue_many : QueueConfig → ℕ → List Text → Validator × ℕ → Validator × ℕ
unfolding enqueue
enqueue_many q now [] out = out
enqueue_many q now (raw ∷ rest) (v, added) =
    let (v', put) = enqueue q now raw v in
    enqueue_many q now rest (v', if put then suc added else added)

unfoldable pub drain_approved : ℕ → Validator → Validator × List Text
drain_approved max_n v =
    (record v { approved = drop (max max_n 1) v.approved }, take (max max_n 1) v.approved)

-- The worker takes the next item.
unfoldable pub begin_item : Validator → Validator
begin_item v = elim v.current [
  | some _ ↦ v
  | none ↦ elim v.inbound [
    | [] ↦ v
    | item ∷ rest ↦ record v { inbound = rest; current = some item }
  ]
]

-- How the worker's turn goes, unless the item is too old.
pub data Outcome : Type 0 where
  stopping blocked passed crashed : Outcome
  deferred : Progress → Outcome
  failed : Text → Outcome

unfoldable pub tell_funnel : Config → ℕ → Text → Outcome → TierFunnel → TierFunnel
tell_funnel c now symbol stopping m = m
tell_funnel c now symbol blocked m = release_hot_rest symbol m
tell_funnel c now symbol passed m = m
tell_funnel c now symbol crashed m =
    on_backtest_failed c now symbol (codes "Backtest validator error") m
tell_funnel c now symbol (deferred p) m = note_hot_backtest_pending c now symbol p m
tell_funnel c now symbol (failed reason) m =
    on_backtest_failed c now symbol (if is_blank reason then codes "Backtest rejected" else reason)
      m

abbrev pub approves : Outcome → Bool
approves passed = true
approves _ = false

-- The rest of the turn: the test of the age, the outcome at the second reading of the clock, and
-- the `finally` part.
unfoldable pub finish_item :
    Config → QueueConfig → ℕ → ℕ → Outcome → Validator × TierFunnel → Validator × TierFunnel
unfolding tell_funnel
finish_item c q checked now outcome (v, m) = elim v.current [
  | none ↦ (v, m)
  | some item ↦
      let symbol = upper item.symbol in
      let late = ltb (ttl_of q) (checked - item.queued_at) in
      let v' : Validator = record v {
        current = none;
        pending = discard symbol v.pending;
        last_process_at = now;
      } in
      if late then (v', on_backtest_failed c now symbol (codes "Backtest queue timed out") m) else (
        record v' { approved = if approves outcome then v.approved ++ symbol ∷ [] else v.approved },
        tell_funnel c now symbol outcome m,
      )
]

-- pipeline/event_scan_orchestrator.py: a Hot coin is put in the queue.
unfoldable pub enqueue_hot_backtest :
    QueueConfig → ℕ → Text → Validator × TierFunnel → Validator × TierFunnel
unfolding enqueue
enqueue_hot_backtest q now symbol (v, m) =
    let (v', put) = enqueue q now symbol v in
    if put then (v', note_hot_rest_started symbol m) else (v', release_hot_rest symbol m)

unfoldable pub enqueue_due_hot_rest :
    QueueConfig → ℕ → Validator × TierFunnel → Validator × TierFunnel
unfolding enqueue_hot_backtest
enqueue_due_hot_rest q now (v, m) =
    let (m', due) = take_hot_for_rest now m in
    elim due [ none ↦ (v, m') | some symbol ↦ enqueue_hot_backtest q now symbol (v, m') ]
