-- ===== src/Funnel/Tiers/Kept.antt =====
-- core/tier_funnel.py: the operations that leave the tiers as they are.
use binance_future_bot.Base.{ℕ, ◌≡◌, arith, text_eq, Option-cases, inl, inr}
use binance_future_bot.Base.Text.{Text}
use binance_future_bot.PaceWindow.{take_slots}
use binance_future_bot.Funnel.Types.{Config, TierFunnel}
use binance_future_bot.Funnel.{
  note_kline_pending, note_normal_score, take_normal, next_normal_symbol, ingest_one, next_of_pool,
  note_scanned,
}
use binance_future_bot.Funnel.Hot.{take_hot_for_rest, take_hot_for_rescore}
use binance_future_bot.Funnel.Super.{
  take_super, take_super_batch, begin_day_validation, maybe_finish_day_validation,
}
use binance_future_bot.Funnel.Tiers.{tiering_of}

pub note_kline_pending-same :
    (symbol : Text) (m : TierFunnel) → tiering_of (note_kline_pending symbol m) ≡ tiering_of m
unfolding note_kline_pending
note_kline_pending-same symbol m = ground arith

pub note_normal_score-same :
    (symbol : Text) (score : ℕ) (m : TierFunnel)
    → tiering_of (note_normal_score symbol score m) ≡ tiering_of m
unfolding note_normal_score
note_normal_score-same symbol score m = ground arith

ingest_one-same : (m : TierFunnel) → tiering_of (ingest_one m).0 ≡ tiering_of m
unfolding ingest_one
ingest_one-same m = ground arith

next_of_pool-same : (m : TierFunnel) → tiering_of (next_of_pool m).0 ≡ tiering_of m
unfolding next_of_pool
next_of_pool-same m = ground arith

next_normal_symbol-same : (m : TierFunnel) → tiering_of (next_normal_symbol m).0 ≡ tiering_of m
unfolding next_normal_symbol
next_normal_symbol-same m =
    ground (arith, ingest_one-same m, next_of_pool-same m, next_of_pool-same (ingest_one m).0)

note_scanned-same :
    (c : Config) (symbol : Text) (m : TierFunnel)
    → tiering_of (note_scanned c symbol m) ≡ tiering_of m
unfolding note_scanned
note_scanned-same c symbol m = ground arith

pub take_normal-same :
    (c : Config) (now : ℕ) (m : TierFunnel) → tiering_of (take_normal c now m).0 ≡ tiering_of m
unfolding take_normal
take_normal-same c now m =
    let m1 : TierFunnel = record m { normal_clock = (take_slots 1 now m.normal_clock).0 } in
    let m2 : TierFunnel = (next_normal_symbol m1).0 in
    let scanned =
      λ (symbol : Text). note_scanned-same c symbol (record m2 { last_normal_take = now }) in
    elim (Option-cases (next_normal_symbol m1).1) [
      | inl nothing ↦ ground (arith, next_normal_symbol-same m1)
      | inr (symbol, some_symbol) ↦ ground (arith, next_normal_symbol-same m1, scanned symbol)
    ]

pub take_hot_for_rest-same :
    (now : ℕ) (m : TierFunnel) → tiering_of (take_hot_for_rest now m).0 ≡ tiering_of m
unfolding take_hot_for_rest
take_hot_for_rest-same now m = ground arith

pub take_hot_for_rescore-same :
    (now : ℕ) (m : TierFunnel) → tiering_of (take_hot_for_rescore now m).0 ≡ tiering_of m
unfolding take_hot_for_rescore
take_hot_for_rescore-same now m = ground arith

pub take_super-same : (now : ℕ) (m : TierFunnel) → tiering_of (take_super now m).0 ≡ tiering_of m
unfolding take_super
take_super-same now m = ground arith

pub take_super_batch-same :
    (c : Config) (m : TierFunnel) → tiering_of (take_super_batch c m).0 ≡ tiering_of m
unfolding take_super_batch
take_super_batch-same c m = ground arith

pub begin_day_validation-same :
    (c : Config) (now : ℕ) (m : TierFunnel)
    → tiering_of (begin_day_validation c now m).0 ≡ tiering_of m
unfolding begin_day_validation
begin_day_validation-same c now m = ground arith

pub maybe_finish_day_validation-same :
    (now : ℕ) (m : TierFunnel) → tiering_of (maybe_finish_day_validation now m).0 ≡ tiering_of m
unfolding maybe_finish_day_validation
maybe_finish_day_validation-same now m = ground arith
