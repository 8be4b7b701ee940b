-- ===== src/ValidationQueue/Turns.antt =====
-- core/validation_queue.py with core/tier_funnel.py: the turns of the scan loop and of the worker on
-- the one state of the queue and the funnel, and what they do to one coin.
use binance_future_bot.Base.{
  ℕ, suc, ◌-◌, ◌≡◌, refl, sym, List, [], ◌∷◌, arith, text_eq, Bool-cases, Option-cases, inl, inr,
  ltb, subst,
}
use binance_future_bot.Base.Text.{Text, codes, upper}
use binance_future_bot.Assignment.Types.{StrategyScore}
use binance_future_bot.Funnel.Types.{Config, TierFunnel}
use binance_future_bot.Funnel.Hot.{
  take_hot_for_rest, note_hot_rest_started, release_hot_rest, record_normal_scan,
}
use binance_future_bot.Funnel.Tiers.{tiering_of, Valid-of}
use binance_future_bot.Funnel.Tiers.Kept.{take_hot_for_rest-same}
use binance_future_bot.Funnel.Tiers.Moves.{
  IsValid, record_normal_scan-Valid, on_backtest_failed-Valid, note_hot_backtest_pending-Valid,
}
use binance_future_bot.ValidationQueue.{
  QueueConfig, Validator, Outcome, stopping, blocked, passed, crashed, deferred, failed, capacity,
  ttl_of, tell_funnel, enqueue, begin_item, finish_item, drain_approved, enqueue_hot_backtest,
  enqueue_due_hot_rest,
}
use binance_future_bot.ValidationQueue.Held.{IsPending}
use binance_future_bot.ValidationQueue.Pending.{
  IsPending-of, enqueue-IsPending, begin_item-IsPending, finish_item-IsPending, finished-IsPending,
}

-- A turn: the next due Hot coin is put in the queue, the worker takes an item or ends with it, the
-- approved coins are taken, or a coin of the Normal tier is scanned.
pub data Event : Type 0 where
  due_turn : ℕ → Event
  begun : Event
  finished : ℕ → ℕ → Outcome → Event
  approved_taken : ℕ → Event
  scanned : ℕ → Text → List StrategyScore → Event

unfoldable pub after_event :
    Config → QueueConfig → Event → Validator × TierFunnel → Validator × TierFunnel
after_event c q (due_turn now) s = enqueue_due_hot_rest q now s
after_event c q begun (v, m) = (begin_item v, m)
after_event c q (finished checked now outcome) s = finish_item c q checked now outcome s
after_event c q (approved_taken n) (v, m) = ((drain_approved n v).0, m)
after_event c q (scanned now symbol scores) (v, m) =
    (v, (record_normal_scan c now symbol scores m).0)

unfoldable pub after_events :
    Config → QueueConfig → List Event → Validator × TierFunnel → Validator × TierFunnel
after_events c q [] s = s
after_events c q (event ∷ events) s = after_events c q events (after_event c q event s)

-- The queue holds what is pending, and the tiers are valid.
pub record System (q : QueueConfig) (left : List Text) (s : Validator × TierFunnel) : Type 0 where
  pub queue : IsPending (capacity q) s.0
  pub tiers : IsValid left s.1

tell_funnel-Valid :
    {left : List Text} (c : Config) (now : ℕ) (symbol : Text) (outcome : Outcome) (m : TierFunnel)
    → IsValid left m
    → IsValid left (tell_funnel c now symbol outcome m)
unfolding tell_funnel release_hot_rest
tell_funnel-Valid c now symbol stopping m v = v
tell_funnel-Valid c now symbol blocked m v = v
tell_funnel-Valid c now symbol passed m v = v
tell_funnel-Valid c now symbol crashed m v = on_backtest_failed-Valid c now symbol _ m v
tell_funnel-Valid c now symbol (deferred p) m v = note_hot_backtest_pending-Valid c now symbol p m v
tell_funnel-Valid c now symbol (failed reason) m v = on_backtest_failed-Valid c now symbol _ m v

finish_item-Valid :
    {left : List Text} (c : Config) (q : QueueConfig) (checked now : ℕ) (outcome : Outcome)
    (v : Validator) (m : TierFunnel)
    → IsValid left m
    → IsValid left (finish_item c q checked now outcome (v, m)).1
unfolding finish_item
finish_item-Valid c q checked now outcome v m valid = elim (Option-cases v.current) [
  | inl free ↦ Valid-of (ground (arith, free)) valid
  | inr (item, busy) ↦
      let key = upper item.symbol in
      let told = tell_funnel-Valid c now key outcome m valid in
      let timed_out =
        on_backtest_failed-Valid c now key (codes "Backtest queue timed out") m valid in
      elim (Bool-cases (ltb (ttl_of q) (checked - item.queued_at))) [
        | inl late ↦ Valid-of (ground (arith, busy, late)) timed_out
        | inr in_time ↦ Valid-of (ground (arith, busy, in_time)) told
      ]
]

due-tiering :
    (q : QueueConfig) (now : ℕ) (v : Validator) (m : TierFunnel)
    → tiering_of (enqueue_due_hot_rest q now (v, m)).1 ≡ tiering_of m
unfolding enqueue_due_hot_rest enqueue_hot_backtest note_hot_rest_started release_hot_rest
due-tiering q now v m = ground (arith, take_hot_for_rest-same now m)

due-IsPending :
    (q : QueueConfig) (now : ℕ) (v : Validator) (m : TierFunnel)
    → IsPending (capacity q) v
    → IsPending (capacity q) (enqueue_due_hot_rest q now (v, m)).0
unfolding enqueue_due_hot_rest enqueue_hot_backtest
due-IsPending q now v m h =
    let size : capacity q ≡ suc (capacity q - 1) = omega arith in
    let put = λ (symbol : Text).
      subst (λ n. IsPending n (enqueue q now symbol v).0) (sym size)
        (enqueue-IsPending (capacity q - 1) now symbol q v size (rw (← size) h)) in
    elim (Option-cases (take_hot_for_rest now m).1) [
      | inl nothing ↦ IsPending-of (ground (arith, nothing)) h
      | inr (symbol, taken) ↦ IsPending-of (ground (arith, taken)) (put symbol)
    ]

pub after_event-System :
    {left : List Text} (c : Config) (q : QueueConfig) (event : Event) (v : Validator)
    (m : TierFunnel)
    → System q left (v, m)
    → System q left (after_event c q event (v, m))
unfolding after_event drain_approved
after_event-System c q (due_turn now) v m s = record {
  queue = due-IsPending q now v m s.queue;
  tiers = Valid-of (due-tiering q now v m) s.tiers;
}
after_event-System c q begun v m s = record {
  queue = begin_item-IsPending (capacity q) v s.queue;
  tiers = s.tiers;
}
after_event-System c q (finished checked now outcome) v m s = record {
  queue = finish_item-IsPending (capacity q) c q checked now outcome v m s.queue;
  tiers = finish_item-Valid c q checked now outcome v m s.tiers;
}
after_event-System c q (approved_taken n) v m s = record {
  queue = finished-IsPending (capacity q) v (drain_approved n v).0 refl refl refl s.queue;
  tiers = s.tiers;
}
after_event-System c q (scanned now symbol scores) v m s = record {
  queue = s.queue;
  tiers = record_normal_scan-Valid c now symbol scores m s.tiers;
}
