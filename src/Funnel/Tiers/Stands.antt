-- ===== src/Funnel/Tiers/Stands.antt =====
-- core/tier_funnel.py: what scans, demotions and the outcomes of backtests leave of the record of
-- another Hot coin.
use binance_future_bot.Base.{
  ℕ, ◌≡◌, ap, ◌∙◌, false, some, List, [], ◌∷◌, arith, take, suc, Bool-cases, Option-cases, inl, inr,
  text_eq, ◌=?◌, =?_iff, Distinct,
}
use binance_future_bot.Base.Text.{Text, upper, upper_idem}
use binance_future_bot.Base.Dict.{
  Dict, lookup, insert, delete, keys, lookup-insert, lookup-delete, mem-keys-lookup,
  insert-Distinct,
}
use binance_future_bot.Base.Sets.{discard}
use binance_future_bot.Assignment.Types.{StrategyScore}
use binance_future_bot.Funnel.Types.{Config, HotRecord, TierFunnel}
use binance_future_bot.Funnel.{clear_kline_pending, note_normal_score, drop_cooldowns}
use binance_future_bot.Funnel.Hot.{
  record_normal_scan, promote_from_normal, promote_ranked, add_hot, is_known, demote_hot, drop_hot,
  new_hot, strategies_of, DemoteReason, in_history_demote_cooldown, display_score, ranked_scores,
  passes_exceeded, backtest_failed,
}
use binance_future_bot.Funnel.Backtest.{
  Progress, note_hot_backtest_pending, on_backtest_failed, on_backtest_passed, pending_record,
  passed_record, turn_of, Turn-cases,
}
use binance_future_bot.Funnel.Super.{note_filled, demote_super_to_normal, drop_super}
use binance_future_bot.Funnel.Tiers.{tiering_of, Tiering}
use binance_future_bot.Funnel.Tiers.Kept.{note_normal_score-same}

-- The coin is in Hot, with this record.
pub record Stands (key : Text) (rec : HotRecord) (m : TierFunnel) : Type 0 where
  pub found : lookup key m.hot ≡ some rec

pub Stands-same :
    {key : Text} {rec : HotRecord} {s m : TierFunnel}
    → tiering_of s ≡ tiering_of m
    → Stands key rec m
    → Stands key rec s
Stands-same {key} e h = record { found = ap (λ (t : Tiering). lookup key t.hot) e ∙ h.found }

promote_ranked-Stands :
    (c : Config) (key other : Text) (rows : List StrategyScore) (rec : HotRecord) (m : TierFunnel)
    → (other =? key) ≡ false
    → Stands key rec m
    → Stands key rec (promote_ranked c other rows m).0
unfolding promote_ranked add_hot new_hot
promote_ranked-Stands c key other [] rec m d h = h
promote_ranked-Stands c key other (best ∷ others) rec m d h =
    let r = new_hot other best (strategies_of (take 2 others)) in
    let kept = lookup-insert other key r m.hot in
    record { found = ground (arith, d, h.found, kept) }

pub promote_from_normal-Stands :
    (c : Config) (now : ℕ) (symbol : Text) (scores : List StrategyScore) (key : Text)
    (rec : HotRecord) (m : TierFunnel)
    → Stands key rec m
    → Stands key rec (promote_from_normal c now symbol scores m).0
unfolding promote_from_normal is_known in_history_demote_cooldown drop_cooldowns
promote_from_normal-Stands c now symbol scores key rec m h =
    let there = mem-keys-lookup key rec m.hot h.found in
    elim (Bool-cases (upper symbol =? key)) [
      | inl same ↦ record { found = ground (arith, there, h.found, =?_iff (upper symbol) key) }
      | inr other ↦
          let kept =
            promote_ranked-Stands c key (upper symbol) (ranked_scores scores) rec
              (drop_cooldowns now m) other (record { found = h.found }) in
          record { found = ground (arith, kept.found, h.found) }
    ]

pub record_normal_scan-Stands :
    (c : Config) (now : ℕ) (symbol : Text) (scores : List StrategyScore) (key : Text)
    (rec : HotRecord) (m : TierFunnel)
    → Stands key rec m
    → Stands key rec (record_normal_scan c now symbol scores m).0
unfolding record_normal_scan clear_kline_pending
record_normal_scan-Stands c now symbol [] key rec m h =
    Stands-same (note_normal_score-same symbol (display_score []) (clear_kline_pending symbol m)) h
record_normal_scan-Stands c now symbol (row ∷ rows) key rec m h =
    let cleared = clear_kline_pending symbol m in
    let scores = row ∷ rows in
    promote_from_normal-Stands c now symbol scores key rec
      (note_normal_score symbol (display_score scores) cleared)
      (Stands-same (note_normal_score-same symbol (display_score scores) cleared) h)

demote_hot-hot :
    (c : Config) (now : ℕ) (symbol : Text) (reason : DemoteReason) (m : TierFunnel)
    → (demote_hot c now symbol reason m).hot ≡ delete (upper symbol) m.hot
unfolding demote_hot drop_hot
demote_hot-hot c now symbol reason m = ground arith

-- Where a coin's record stays when another coin's is changed, or leaves.
pub inserted-Stands :
    (key other : Text) (rec r : HotRecord) (d : Dict Text HotRecord)
    → (other =? key) ≡ false
    → lookup key d ≡ some rec
    → lookup key (insert other r d) ≡ some rec
inserted-Stands key other rec r d differ h = ground (arith, differ, h, lookup-insert other key r d)

pub deleted-Stands :
    (key other : Text) (rec : HotRecord) (d : Dict Text HotRecord)
    → Distinct (keys d)
    → (other =? key) ≡ false
    → lookup key d ≡ some rec
    → lookup key (delete other d) ≡ some rec
deleted-Stands key other rec d once differ h =
    ground (arith, differ, h, lookup-delete other key d once)

pub demote_hot-Stands :
    (c : Config) (now : ℕ) (symbol key : Text) (reason : DemoteReason) (rec : HotRecord)
    (m : TierFunnel)
    → Distinct (keys m.hot)
    → (upper symbol =? key) ≡ false
    → Stands key rec m
    → Stands key rec (demote_hot c now symbol reason m)
demote_hot-Stands c now symbol key reason rec m once differ h = record {
  found =
      rw (demote_hot-hot c now symbol reason m)
        (deleted-Stands key (upper symbol) rec m.hot once differ h.found);
}

pub on_backtest_passed-Stands :
    (symbol key : Text) (rec : HotRecord) (m : TierFunnel)
    → (upper symbol =? key) ≡ false
    → Stands key rec m
    → Stands key rec (on_backtest_passed symbol m).0
unfolding on_backtest_passed
on_backtest_passed-Stands symbol key rec m differ h =
    elim (Option-cases (lookup (upper symbol) m.hot)) [
      | inl nothing ↦ record { found = ground (arith, nothing, h.found) }
      | inr (old, found) ↦
          let kept =
            inserted-Stands key (upper symbol) rec (passed_record old) m.hot differ h.found in
          record { found = ground (arith, found, kept) }
    ]

pub on_backtest_failed-Stands :
    (c : Config) (now : ℕ) (symbol reason key : Text) (rec : HotRecord) (m : TierFunnel)
    → Distinct (keys m.hot)
    → (upper symbol =? key) ≡ false
    → Stands key rec m
    → Stands key rec (on_backtest_failed c now symbol reason m)
unfolding on_backtest_failed
on_backtest_failed-Stands c now symbol reason key rec m once differ h =
    let s = upper symbol in
    let m' : TierFunnel = record m { pending_hot_rest = discard s m.pending_hot_rest } in
    let kept =
      demote_hot-Stands c now s key (backtest_failed reason) rec m' once
        (rw (upper_idem symbol) differ) (record { found = h.found }) in
    record { found = ground (arith, kept.found, h.found) }

pub note_hot_backtest_pending-Stands :
    (c : Config) (now : ℕ) (symbol key : Text) (p : Progress) (rec : HotRecord) (m : TierFunnel)
    → Distinct (keys m.hot)
    → (upper symbol =? key) ≡ false
    → Stands key rec m
    → Stands key rec (note_hot_backtest_pending c now symbol p m)
unfolding note_hot_backtest_pending
note_hot_backtest_pending-Stands c now symbol key p rec m once differ h =
    let s = upper symbol in
    elim (Option-cases (lookup s m.hot)) [
      | inl nothing ↦ record { found = ground (arith, nothing, h.found) }
      | inr (before, found) ↦
          let new = pending_record c now p before in
          let longer : HotRecord = record new { pending_pass_limit = suc new.pending_passes } in
          let next : TierFunnel = record m {
            hot = insert s new m.hot;
            pending_hot_rest = discard s m.pending_hot_rest;
          } in
          let kept = inserted-Stands key s rec new m.hot differ h.found in
          let kept_longer = inserted-Stands key s rec longer m.hot differ h.found in
          let kept_out =
            demote_hot-Stands c now s key passes_exceeded rec next
              (insert-Distinct s new m.hot once) (rw (upper_idem symbol) differ)
              (record { found = kept }) in
          elim (Turn-cases (turn_of c before new)) [
            | inl on ↦ record { found = ground (arith, found, on, kept, h.found) }
            | inr (inl extra) ↦ record {
              found = ground (arith, found, extra, kept_longer, h.found);
            }
            | inr (inr end) ↦ record { found = ground (arith, found, end, kept_out.found, h.found) }
          ]
    ]

pub note_filled-Stands :
    (symbol key : Text) (rec : HotRecord) (m : TierFunnel)
    → Distinct (keys m.hot)
    → (upper symbol =? key) ≡ false
    → Stands key rec m
    → Stands key rec (note_filled symbol m)
unfolding note_filled drop_super drop_hot
note_filled-Stands symbol key rec m once differ h = record {
  found = deleted-Stands key (upper symbol) rec m.hot once differ h.found;
}

pub demote_super_to_normal-Stands :
    (symbol key : Text) (rec : HotRecord) (m : TierFunnel)
    → Stands key rec m
    → Stands key rec (demote_super_to_normal symbol m)
unfolding demote_super_to_normal drop_super
demote_super_to_normal-Stands symbol key rec m h = record { found = ground (arith, h.found) }
