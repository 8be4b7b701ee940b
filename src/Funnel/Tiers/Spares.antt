-- ===== src/Funnel/Tiers/Spares.antt =====
-- core/tier_funnel.py: what the calls that are about other coins leave of a Hot coin's record.
use binance_future_bot.Base.{
  ℕ, ◌≡◌, false, some, List, [], ◌∷◌, arith, Option-cases, inl, inr, text_eq, ◌=?◌, Distinct,
}
use binance_future_bot.Base.Text.{Text, upper, upper_idem}
use binance_future_bot.Base.Dict.{Dict, lookup, insert, keys}
use binance_future_bot.Assignment.Types.{StrategyScore}
use binance_future_bot.Funnel.Types.{Config, HotRecord, TierFunnel}
use binance_future_bot.Funnel.{clear_kline_pending, flush_non_setup, replace_normal_universe}
use binance_future_bot.Funnel.Hot.{
  drop_hot, effective_score, ranked_scores, note_hot_rest_started, release_hot_rest, score_dropped,
}
use binance_future_bot.Funnel.Super.{
  drop_super, apply_hot_scores, promote_super, rescore, switch_to, first_backup, by_tag,
  primary_reaches, reaches_super, reaches_hot, action_or,
}
use binance_future_bot.Funnel.Calls.{
  Call, after_call, after_calls, kline_pending, kline_loaded, normal_score, normal_scan, promotion,
  new_universe, flush, normal_turn, rest_turn, rescore_turn, super_turn, day_start, day_tick,
  super_turns, rest_started, rest_released, backtest_pending, backtest_refused, backtest_accepted,
  hot_scores, filled, demoted, dropped,
}
use binance_future_bot.Funnel.Tiers.Kept.{
  note_kline_pending-same, note_normal_score-same, take_normal-same, take_hot_for_rest-same,
  take_hot_for_rescore-same, take_super-same, take_super_batch-same, begin_day_validation-same,
  maybe_finish_day_validation-same,
}
use binance_future_bot.Funnel.Tiers.Moves.{IsValid}
use binance_future_bot.Funnel.Tiers.Reached.{left_by, after_call-Valid}
use binance_future_bot.Funnel.Tiers.Stands.{
  Stands, Stands-same, promote_from_normal-Stands, record_normal_scan-Stands, inserted-Stands,
  deleted-Stands, demote_hot-Stands, on_backtest_passed-Stands, on_backtest_failed-Stands,
  note_hot_backtest_pending-Stands, note_filled-Stands, demote_super_to_normal-Stands,
}

-- The call is no outcome of a backtest, no rescoring and no fill of the coin.
abbrev pub Spares : Text → Call → Type 0
Spares key (backtest_pending now symbol p) = (upper symbol =? key) ≡ false
Spares key (backtest_refused now symbol reason) = (upper symbol =? key) ≡ false
Spares key (backtest_accepted symbol) = (upper symbol =? key) ≡ false
Spares key (hot_scores now symbol scores) = (upper symbol =? key) ≡ false
Spares key (filled symbol) = (upper symbol =? key) ≡ false
Spares key call = Unit

abbrev pub AllSpare : Text → List Call → Type 0
AllSpare key [] = Unit
AllSpare key (call ∷ calls) = Spares key call × AllSpare key calls

promote_super-Stands :
    (key : Text) (rec r : HotRecord) (row : StrategyScore) (m : TierFunnel)
    → Distinct (keys m.hot)
    → (r.symbol =? key) ≡ false
    → Stands key rec m
    → Stands key rec (promote_super r row m)
unfolding promote_super drop_hot
promote_super-Stands key rec r row m once differ h = record {
  found = deleted-Stands key r.symbol rec m.hot once differ h.found;
}

Stands-of :
    {key : Text} {rec : HotRecord} {s t : TierFunnel} → t ≡ s → Stands key rec s → Stands key rec t
Stands-of e h = rw e h

rescore-Stands :
    (c : Config) (now : ℕ) (other key : Text) (r rec : HotRecord) (rows : Dict Text StrategyScore)
    (m : TierFunnel)
    → Distinct (keys m.hot)
    → r.symbol ≡ other
    → upper other ≡ other
    → (other =? key) ≡ false
    → Stands key rec m
    → Stands key rec (rescore c now other r rows m).0
unfolding rescore switch_to
rescore-Stands c now other key r rec rows m once name up differ h =
    let primary = lookup r.strategy rows in
    let differ' : (r.symbol =? key) ≡ false = rw name differ in
    let differ_up : (upper other =? key) ≡ false = rw up differ in
    elim (Option-cases (primary_reaches (reaches_super c) r primary)) [
      | inr (row, hit) ↦
          Stands-of (ground arith) (promote_super-Stands key rec r row m once differ' h)
      | inl miss ↦ elim (Option-cases (first_backup (reaches_super c) rows r.backup_strategies)) [
        | inr ((backup, row), hit) ↦
            Stands-of (ground arith)
              (promote_super-Stands key rec (switch_to backup row r) row m once differ' h)
        | inl miss2 ↦ elim (Option-cases (primary_reaches (reaches_hot c) r primary)) [
          | inr (row, hit) ↦
              let r' : HotRecord = record r {
                score = effective_score row;
                action = action_or row.action r.action;
              } in
              Stands-of {s = record m { hot = insert other r' m.hot }} (ground arith)
                (record { found = inserted-Stands key other rec r' m.hot differ h.found })
          | inl miss3 ↦
              elim (Option-cases (first_backup (reaches_hot c) rows r.backup_strategies)) [
                | inr ((backup, row), hit) ↦
                    Stands-of {s = record m { hot = insert other (switch_to backup row r) m.hot }}
                      (ground arith)
                      (record {
                        found =
                            inserted-Stands key other rec (switch_to backup row r) m.hot differ
                              h.found;
                      })
                | inl miss4 ↦
                    Stands-of (ground arith)
                      (demote_hot-Stands c now other key score_dropped rec m once differ_up h)
              ]
        ]
      ]
    ]

apply_hot_scores-Stands :
    {left : List Text} (c : Config) (now : ℕ) (symbol key : Text) (scores : List StrategyScore)
    (rec : HotRecord) (m : TierFunnel)
    → IsValid left m
    → (upper symbol =? key) ≡ false
    → Stands key rec m
    → Stands key rec (apply_hot_scores c now symbol scores m).0
unfolding apply_hot_scores
apply_hot_scores-Stands c now symbol key scores rec m v differ h =
    elim (Option-cases (lookup (upper symbol) m.hot)) [
      | inl nothing ↦ Stands-of (ground (arith, nothing)) h
      | inr (r, found) ↦ Stands-of (ground arith) (
          rescore-Stands c now (upper symbol) key r rec (by_tag (ranked_scores scores) []) m
            v.hot_once (v.named (upper symbol) r found) (upper_idem symbol) differ h)
    ]

after_call-Stands :
    {left : List Text} (c : Config) (call : Call) (key : Text) (rec : HotRecord) (m : TierFunnel)
    → IsValid left m
    → Spares key call
    → Stands key rec m
    → Stands key rec (after_call c call m)
unfolding after_call flush_non_setup replace_normal_universe clear_kline_pending
    note_hot_rest_started release_hot_rest drop_super
after_call-Stands c (kline_pending symbol) key rec m v d h =
    Stands-same (note_kline_pending-same symbol m) h
after_call-Stands c (kline_loaded symbol) key rec m v d h = record { found = h.found }
after_call-Stands c (normal_score symbol score) key rec m v d h =
    Stands-same (note_normal_score-same symbol score m) h
after_call-Stands c (normal_scan now symbol scores) key rec m v d h =
    record_normal_scan-Stands c now symbol scores key rec m h
after_call-Stands c (promotion now symbol scores) key rec m v d h =
    promote_from_normal-Stands c now symbol scores key rec m h
after_call-Stands c (new_universe clock now symbols keep) key rec m v d h = record {
  found = h.found;
}
after_call-Stands c (flush now keep) key rec m v d h = record { found = h.found }
after_call-Stands c (normal_turn now) key rec m v d h = Stands-same (take_normal-same c now m) h
after_call-Stands c (rest_turn now) key rec m v d h = Stands-same (take_hot_for_rest-same now m) h
after_call-Stands c (rescore_turn now) key rec m v d h =
    Stands-same (take_hot_for_rescore-same now m) h
after_call-Stands c (super_turn now) key rec m v d h = Stands-same (take_super-same now m) h
after_call-Stands c (day_start now) key rec m v d h =
    Stands-same (begin_day_validation-same c now m) h
after_call-Stands c (day_tick now) key rec m v d h =
    Stands-same (maybe_finish_day_validation-same now m) h
after_call-Stands c super_turns key rec m v d h = Stands-same (take_super_batch-same c m) h
after_call-Stands c (rest_started symbol) key rec m v d h = record { found = h.found }
after_call-Stands c (rest_released symbol) key rec m v d h = record { found = h.found }
after_call-Stands c (backtest_pending now symbol p) key rec m v d h =
    note_hot_backtest_pending-Stands c now symbol key p rec m v.hot_once d h
after_call-Stands c (backtest_refused now symbol reason) key rec m v d h =
    on_backtest_failed-Stands c now symbol reason key rec m v.hot_once d h
after_call-Stands c (backtest_accepted symbol) key rec m v d h =
    on_backtest_passed-Stands symbol key rec m d h
after_call-Stands c (hot_scores now symbol scores) key rec m v d h =
    apply_hot_scores-Stands c now symbol key scores rec m v d h
after_call-Stands c (filled symbol) key rec m v d h =
    note_filled-Stands symbol key rec m v.hot_once d h
after_call-Stands c (demoted symbol) key rec m v d h =
    demote_super_to_normal-Stands symbol key rec m h
after_call-Stands c (dropped symbol) key rec m v d h = record { found = h.found }

after_calls_from-Stands :
    {left : List Text} (c : Config) (calls : List Call) (key : Text) (rec : HotRecord)
    (m : TierFunnel)
    → IsValid left m
    → AllSpare key calls
    → Stands key rec m
    → Stands key rec (after_calls c calls m)
unfolding after_calls
after_calls_from-Stands {left = left} c [] key rec m v d h = h
after_calls_from-Stands {left = left} c (call ∷ calls) key rec m v d h =
    after_calls_from-Stands {left = left_by call left} c calls key rec (after_call c call m)
      (after_call-Valid c call m v) d.1 (after_call-Stands c call key rec m v d.0 h)

-- Calls that spare a coin of Hot leave its record as it is.
pub after_calls-lookup :
    {left : List Text} (c : Config) (calls : List Call) (key : Text) (rec : HotRecord)
    (m : TierFunnel)
    → IsValid left m
    → AllSpare key calls
    → lookup key m.hot ≡ some rec
    → lookup key (after_calls c calls m).hot ≡ some rec
after_calls-lookup c calls key rec m v d h =
    (after_calls_from-Stands c calls key rec m v d (record { found = h })).found
