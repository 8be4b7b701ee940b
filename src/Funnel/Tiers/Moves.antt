-- ===== src/Funnel/Tiers/Moves.antt =====
-- core/tier_funnel.py: the operations that move a coin between the tiers, or change its record.
use binance_future_bot.Base.{
  ℕ, suc, ◌≡◌, refl, true, false, ◌||◌, List, [], ◌∷◌, arith, mem, Bool-cases, Option-cases, inl,
  inr, text_eq, take, =?_iff,
}
use binance_future_bot.Base.Text.{Text, upper, upper_idem}
use binance_future_bot.Base.Dict.{lookup, keys, insert, mem-keys-lookup, mem-keys-insert}
use binance_future_bot.Base.Sets.{discard}
use binance_future_bot.ScoreRanges.{meets_hot}
use binance_future_bot.Assignment.Types.{StrategyScore}
use binance_future_bot.Funnel.Types.{Config, HotRecord, TierFunnel}
use binance_future_bot.Funnel.{is_blank, note_normal_score, clear_kline_pending, drop_cooldowns}
use binance_future_bot.Funnel.Hot.{
  record_normal_scan, promote_from_normal, promote_ranked, add_hot, new_hot, is_known, demote_hot,
  drop_hot, effective_score, strategies_of, DemoteReason, passes_exceeded, backtest_failed,
  in_history_demote_cooldown, display_score, ranked_scores,
}
use binance_future_bot.Funnel.Backtest.{
  Progress, note_hot_backtest_pending, on_backtest_failed, on_backtest_passed, pending_record,
  passed_record, turn_of, Turn-cases,
}
use binance_future_bot.Funnel.Super.{note_filled, demote_super_to_normal, drop_super}
use binance_future_bot.Funnel.Tiers.{
  tiering_of, Valid, Valid-of, with_hot-Valid, with_record-Valid, without-Valid, without_hot-Valid,
  without_super-Valid, left_super-Valid,
}
use binance_future_bot.Funnel.Tiers.Kept.{note_normal_score-same}

abbrev pub IsValid : List Text → TierFunnel → Type 0
IsValid left m = Valid left (tiering_of m)

promote_ranked-Valid :
    {left : List Text} (c : Config) (key : Text) (rows : List StrategyScore) (m : TierFunnel)
    → IsValid left m
    → upper key ≡ key
    → mem key (keys m.hot) ≡ false
    → mem key (keys m.super) ≡ false
    → IsValid left (promote_ranked c key rows m).0
unfolding promote_ranked add_hot new_hot
promote_ranked-Valid c key [] m v up new other = v
promote_ranked-Valid c key (best ∷ others) m v up new other =
    let v' =
      with_hot-Valid key (new_hot key best (strategies_of (take 2 others))) (tiering_of m) v up refl
        new other in
    elim (Bool-cases (meets_hot (c.range_for best.strategy) (effective_score best))) [
      | inl meets ↦ Valid-of (ground arith) v'
      | inr misses ↦ Valid-of (ground arith) v
    ]

pub promote_from_normal-Valid :
    {left : List Text} (c : Config) (now : ℕ) (symbol : Text) (scores : List StrategyScore)
    (m : TierFunnel)
    → IsValid left m
    → IsValid left (promote_from_normal c now symbol scores m).0
unfolding promote_from_normal is_known in_history_demote_cooldown drop_cooldowns
promote_from_normal-Valid c now symbol scores m v =
    let key = upper symbol in
    let m' = drop_cooldowns now m in
    elim (Bool-cases (is_blank key || is_known key m)) [
      | inl out ↦ Valid-of (ground arith) v
      | inr free ↦
          let new : mem key (keys m.hot) ≡ false = ground arith in
          let other : mem key (keys m.super) ≡ false = ground arith in
          let v' =
            promote_ranked-Valid c key (ranked_scores scores) m' v (upper_idem symbol) new other in
          elim (Bool-cases (in_history_demote_cooldown now key m).1) [
            | inl cooling ↦ Valid-of (ground arith) v
            | inr ready ↦ Valid-of (ground arith) v'
          ]
    ]

pub record_normal_scan-Valid :
    {left : List Text} (c : Config) (now : ℕ) (symbol : Text) (scores : List StrategyScore)
    (m : TierFunnel)
    → IsValid left m
    → IsValid left (record_normal_scan c now symbol scores m).0
unfolding record_normal_scan clear_kline_pending
record_normal_scan-Valid c now symbol [] m v =
    Valid-of (note_normal_score-same symbol (display_score []) (clear_kline_pending symbol m)) v
record_normal_scan-Valid c now symbol (row ∷ rows) m v =
    let cleared = clear_kline_pending symbol m in
    let scores = row ∷ rows in
    promote_from_normal-Valid c now symbol scores
      (note_normal_score symbol (display_score scores) cleared)
      (Valid-of (note_normal_score-same symbol (display_score scores) cleared) v)

pub demote_hot-Valid :
    {left : List Text} (c : Config) (now : ℕ) (symbol : Text) (reason : DemoteReason)
    (m : TierFunnel)
    → IsValid left m
    → mem (upper symbol) (keys m.hot) ≡ true
    → IsValid left (demote_hot c now symbol reason m)
unfolding demote_hot drop_hot
demote_hot-Valid c now symbol reason m v there =
    Valid-of (ground arith)
      (without_hot-Valid (upper symbol) (tiering_of m) v (v.apart (upper symbol) there))

pub on_backtest_passed-Valid :
    {left : List Text} (symbol : Text) (m : TierFunnel)
    → IsValid left m
    → IsValid left (on_backtest_passed symbol m).0
unfolding on_backtest_passed passed_record
on_backtest_passed-Valid symbol m v = elim (Option-cases (lookup (upper symbol) m.hot)) [
  | inl nothing ↦ Valid-of (ground arith) v
  | inr (rec, found) ↦ Valid-of (ground arith) (
      with_record-Valid (upper symbol) (passed_record rec) (tiering_of m) v
        (v.named (upper symbol) rec found) (mem-keys-lookup (upper symbol) rec m.hot found))
]

pub on_backtest_failed-Valid :
    {left : List Text} (c : Config) (now : ℕ) (symbol reason : Text) (m : TierFunnel)
    → IsValid left m
    → IsValid left (on_backtest_failed c now symbol reason m)
unfolding on_backtest_failed
on_backtest_failed-Valid c now symbol reason m v =
    let key = upper symbol in
    let m' : TierFunnel = record m { pending_hot_rest = discard key m.pending_hot_rest } in
    elim (Option-cases (lookup key m.hot)) [
      | inl nothing ↦ Valid-of (ground arith) v
      | inr (rec, found) ↦
          let there : mem (upper key) (keys m.hot) ≡ true =
            rw (upper_idem symbol) (mem-keys-lookup key rec m.hot found) in
          Valid-of (ground arith) (demote_hot-Valid c now key (backtest_failed reason) m' v there)
    ]

pub note_hot_backtest_pending-Valid :
    {left : List Text} (c : Config) (now : ℕ) (symbol : Text) (p : Progress) (m : TierFunnel)
    → IsValid left m
    → IsValid left (note_hot_backtest_pending c now symbol p m)
unfolding note_hot_backtest_pending pending_record
note_hot_backtest_pending-Valid c now symbol p m v =
    let key = upper symbol in
    elim (Option-cases (lookup key m.hot)) [
      | inl nothing ↦ Valid-of (ground arith) v
      | inr (before, found) ↦
          let rec = pending_record c now p before in
          let longer : HotRecord = record rec { pending_pass_limit = suc rec.pending_passes } in
          let there = mem-keys-lookup key before m.hot found in
          let name = v.named key before found in
          let pending = with_record-Valid key rec (tiering_of m) v name there in
          let next : TierFunnel = record m {
            hot = insert key rec m.hot;
            pending_hot_rest = discard key m.pending_hot_rest;
          } in
          let still : mem (upper key) (keys (insert key rec m.hot)) ≡ true =
            rw (upper_idem symbol)
              (ground (arith, mem-keys-insert key key rec m.hot, =?_iff key key)) in
          elim (Bool-cases before.backtest_passed) [
            | inl passed ↦ Valid-of (ground arith) v
            | inr not_yet ↦ elim (Turn-cases (turn_of c before rec)) [
              | inl on ↦ Valid-of (ground arith) pending
              | inr (inl extra) ↦
                  Valid-of (ground arith) (with_record-Valid key longer (tiering_of m) v name there)
              | inr (inr end) ↦
                  Valid-of (ground arith)
                    (demote_hot-Valid c now key passes_exceeded next pending still)
            ]
          ]
    ]

pub note_filled-Valid :
    {left : List Text} (symbol : Text) (m : TierFunnel)
    → IsValid left m
    → IsValid left (note_filled symbol m)
unfolding note_filled drop_super drop_hot
note_filled-Valid symbol m v =
    Valid-of (ground (arith, upper_idem symbol)) (without-Valid (upper symbol) (tiering_of m) v)

pub demote_super_to_normal-Valid :
    {left : List Text} (symbol : Text) (m : TierFunnel)
    → IsValid left m
    → IsValid left (demote_super_to_normal symbol m)
unfolding demote_super_to_normal drop_super
demote_super_to_normal-Valid symbol m v =
    let key = upper symbol in
    elim (Bool-cases (mem key (keys m.super))) [
      | inl there ↦
          let absent : mem key (keys m.hot) ≡ false = ground (arith, v.apart key) in
          Valid-of (ground (arith, upper_idem symbol))
            (without_super-Valid key (tiering_of m) v absent)
      | inr absent ↦ Valid-of (ground (arith, v.super_listed key)) v
    ]

pub drop_super-Valid :
    {left : List Text} (symbol : Text) (m : TierFunnel)
    → IsValid left m
    → IsValid (upper symbol ∷ left) (drop_super symbol m)
unfolding drop_super
drop_super-Valid symbol m v =
    Valid-of (ground arith) (left_super-Valid (upper symbol) (tiering_of m) v)
