-- ===== src/Funnel/Backtest.antt =====
-- core/tier_funnel.py: the outcomes of a Hot coin's backtest. The number of bars that the reason's
-- text names (`have 123`) and the one in the memory buffer are arguments.
pub mod Stuck
use binance_future_bot.Base.{
  ℕ, suc, ◌+◌, ◌-◌, ◌*◌, ◌/◌, ◌%◌, Bool, true, false, ◌&&◌, min, max, none, some, [], ltb, leb,
  ◌==◌, if◌then◌else◌, text_eq, ◌≡◌, refl, ◌⊎◌, inl, inr,
}
use binance_future_bot.Base.Text.{Text, codes, upper}
use binance_future_bot.Base.Dict.{lookup, insert}
use binance_future_bot.Base.Sets.{discard}
use binance_future_bot.Funnel.Types.{
  Config, HotRecord, TierFunnel, hot_pending_cooldown, hot_pending_max_passes,
}
use binance_future_bot.Funnel.{is_blank}
use binance_future_bot.Funnel.Hot.{passes_exceeded, backtest_failed, demote_hot}

-- `round(n / d)`: to the nearest, and at a half to the even one.
abbrev pub round_div : ℕ → ℕ → ℕ
round_div n d =
    let q = (2 * n + d) / (2 * d) in if (2 * n + d) % (2 * d) == 0 && q % 2 == 1 then q - 1 else q

unfoldable pub kline_load_percent : ℕ → ℕ → ℕ
kline_load_percent need have = if need == 0 then 0 else min 100 (round_div (have * 100) need)

-- What a turn reports: the bars that it counted, those in its reason, those in memory.
pub record Progress : Type 0 where
  pub reason : Text
  pub counted : ℕ
  pub in_reason : ℕ
  pub in_memory : ℕ

abbrev pub resolve_history_bars : Progress → HotRecord → ℕ
resolve_history_bars p rec = max (max (max p.counted p.in_reason) p.in_memory) rec.history_bars

unfoldable pub pending_record : Config → ℕ → Progress → HotRecord → HotRecord
pending_record c now p rec =
    let bars = resolve_history_bars p rec in
    record rec {
      backtest_pending = true;
      pending_reason = if is_blank p.reason then codes "Need 200+ closed 15m bars" else p.reason;
      pending_passes = suc rec.pending_passes;
      rest_cooldown_until = now + hot_pending_cooldown c;
      last_history_pct = rec.history_pct;
      history_bars = bars;
      history_pct = kline_load_percent c.min_bars bars;
    }

-- After a turn: the coin goes on, has one pass more, or is demoted.
pub data Turn : Type 0 where
  goes_on extra_pass stuck : Turn

pub Turn-cases : (t : Turn) → (t ≡ goes_on) ⊎ ((t ≡ extra_pass) ⊎ (t ≡ stuck))
Turn-cases goes_on = inl refl
Turn-cases extra_pass = inr (inl refl)
Turn-cases stuck = inr (inr refl)

unfoldable pub turn_of : Config → HotRecord → HotRecord → Turn
turn_of c before rec =
    let limit =
      if before.pending_pass_limit == 0
      then hot_pending_max_passes c
      else before.pending_pass_limit in
    if ltb rec.pending_passes limit
    then goes_on
    else if leb 100 rec.history_pct
    then extra_pass
    else if ltb before.history_pct rec.history_pct
    then extra_pass
    else stuck

unfoldable pub note_hot_backtest_pending : Config → ℕ → Text → Progress → TierFunnel → TierFunnel
unfolding pending_record turn_of
note_hot_backtest_pending c now symbol p m0 =
    let key = upper symbol in
    let m = record m0 { pending_hot_rest = discard key m0.pending_hot_rest } in
    elim (lookup key m.hot) [
      | none ↦ m
      | some before ↦
          let rec = pending_record c now p before in
          let next = record m { hot = insert key rec m.hot } in
          let longer = record rec { pending_pass_limit = suc rec.pending_passes } in
          if before.backtest_passed then m else elim (turn_of c before rec) [
            | goes_on ↦ next
            | extra_pass ↦ record m { hot = insert key longer m.hot }
            | stuck ↦ demote_hot c now key passes_exceeded next
          ]
    ]

unfoldable pub on_backtest_failed : Config → ℕ → Text → Text → TierFunnel → TierFunnel
on_backtest_failed c now symbol reason m0 =
    let key = upper symbol in
    let m = record m0 { pending_hot_rest = discard key m0.pending_hot_rest } in
    elim (lookup key m.hot) [ none ↦ m | some _ ↦ demote_hot c now key (backtest_failed reason) m ]

unfoldable pub passed_record : HotRecord → HotRecord
passed_record rec = record rec {
  backtest_passed = true;
  backtest_pending = false;
  pending_reason = [];
  pending_passes = 0;
  pending_pass_limit = 0;
  history_bars = 0;
  history_pct = 0;
  last_history_pct = 0;
  rest_cooldown_until = 0;
}

unfoldable pub on_backtest_passed : Text → TierFunnel → TierFunnel × Bool
unfolding passed_record
on_backtest_passed symbol m0 =
    let key = upper symbol in
    let m = record m0 { pending_hot_rest = discard key m0.pending_hot_rest } in
    elim (lookup key m.hot) [
      | none ↦ (m, false)
      | some rec ↦ (record m { hot = insert key (passed_record rec) m.hot }, true)
    ]
