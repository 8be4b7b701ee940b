-- ===== src/Funnel/Tiers/Rescore.antt =====
-- core/tier_funnel.py: where a rescored Hot coin ends up.
use binance_future_bot.Base.{
  ℕ, ◌≡◌, true, some, List, [], arith, if◌then◌else◌, mem, Option-cases, inl, inr, text_eq, =?_iff,
}
use binance_future_bot.Base.Text.{Text, upper, upper_idem}
use binance_future_bot.Base.Dict.{
  Dict, lookup, keys, insert, mem-keys-lookup, mem-keys-insert, mem-keys-delete_self, mem-keys-none,
}
use binance_future_bot.Assignment.Types.{StrategyScore}
use binance_future_bot.Funnel.Types.{Config, HotRecord, SuperRecord, TierFunnel}
use binance_future_bot.Funnel.Hot.{
  demote_hot, drop_hot, effective_score, score_dropped, ranked_scores,
}
use binance_future_bot.Funnel.Super.{
  Tier, super_tier, hot_tier, normal_tier, apply_hot_scores, promote_super, rescore, switch_to,
  first_backup, by_tag, primary_reaches, reaches_super, reaches_hot, action_or,
}
use binance_future_bot.Funnel.Tiers.{tiering_of, Valid-of, with_record-Valid, with_super-Valid}
use binance_future_bot.Funnel.Tiers.Moves.{IsValid, demote_hot-Valid}

-- Where a coin is.
abbrev pub tier_of : Text → TierFunnel → Tier
tier_of key m =
    if mem key (keys m.super)
    then super_tier
    else if mem key (keys m.hot)
    then hot_tier
    else normal_tier

-- The state is valid, and the answer names the tier of the coin.
pub record Placed (left : List Text) (key : Text) (out : TierFunnel × Tier) : Type 0 where
  pub valid : IsValid left out.0
  pub at_answer : tier_of key out.0 ≡ out.1

Placed-of :
    {left : List Text} {key : Text} {s t : TierFunnel × Tier}
    → t ≡ s
    → Placed left key s
    → Placed left key t
Placed-of e p = rw e p

promote_super-Placed :
    {left : List Text} (key : Text) (old rec : HotRecord) (row : StrategyScore) (m : TierFunnel)
    → IsValid left m
    → lookup key m.hot ≡ some old
    → rec.symbol ≡ key
    → Placed left key (promote_super rec row m, super_tier)
unfolding promote_super drop_hot
promote_super-Placed key old rec row m v found name =
    let new : SuperRecord = record {
      symbol = key;
      strategy = row.strategy;
      backup_strategies = rec.backup_strategies;
      score = effective_score row;
    } in
    record {
      valid =
          Valid-of (ground arith)
            (with_super-Valid key new (tiering_of m) v (mem-keys-lookup key old m.hot found));
      at_answer = ground (arith, mem-keys-insert key key new m.super, =?_iff key key);
    }

stay-Placed :
    {left : List Text} (key : Text) (old rec : HotRecord) (m : TierFunnel)
    → IsValid left m
    → lookup key m.hot ≡ some old
    → rec.symbol ≡ key
    → Placed left key (record m { hot = insert key rec m.hot }, hot_tier)
stay-Placed key old rec m v found name =
    let there = mem-keys-lookup key old m.hot found in
    record {
      valid = with_record-Valid key rec (tiering_of m) v name there;
      at_answer = ground (arith, mem-keys-insert key key rec m.hot, v.apart key, =?_iff key key);
    }

demote-Placed :
    {left : List Text} (c : Config) (now : ℕ) (key : Text) (old : HotRecord) (m : TierFunnel)
    → IsValid left m
    → lookup key m.hot ≡ some old
    → upper key ≡ key
    → Placed left key (demote_hot c now key score_dropped m, normal_tier)
unfolding demote_hot drop_hot
demote-Placed c now key old m v found up =
    let there = mem-keys-lookup key old m.hot found in
    record {
      valid = demote_hot-Valid c now key score_dropped m v (rw up there);
      at_answer = ground (arith, v.apart key, mem-keys-delete_self key m.hot v.hot_once);
    }

rescore-Placed :
    {left : List Text} (c : Config) (now : ℕ) (key : Text) (rec : HotRecord)
    (rows : Dict Text StrategyScore) (m : TierFunnel)
    → IsValid left m
    → lookup key m.hot ≡ some rec
    → upper key ≡ key
    → Placed left key (rescore c now key rec rows m)
unfolding rescore switch_to
rescore-Placed c now key rec rows m v found up =
    let name = v.named key rec found in
    let primary = lookup rec.strategy rows in
    elim (Option-cases (primary_reaches (reaches_super c) rec primary)) [
      | inr (row, hit) ↦
          Placed-of (ground arith) (promote_super-Placed key rec rec row m v found name)
      | inl miss ↦ elim (Option-cases (first_backup (reaches_super c) rows rec.backup_strategies)) [
        | inr ((backup, row), hit) ↦
            Placed-of (ground arith)
              (promote_super-Placed key rec (switch_to backup row rec) row m v found name)
        | inl miss2 ↦ elim (Option-cases (primary_reaches (reaches_hot c) rec primary)) [
          | inr (row, hit) ↦
              let rec' : HotRecord = record rec {
                score = effective_score row;
                action = action_or row.action rec.action;
              } in
              Placed-of (ground arith) (stay-Placed key rec rec' m v found name)
          | inl miss3 ↦
              elim (Option-cases (first_backup (reaches_hot c) rows rec.backup_strategies)) [
                | inr ((backup, row), hit) ↦
                    Placed-of (ground arith)
                      (stay-Placed key rec (switch_to backup row rec) m v found name)
                | inl miss4 ↦ Placed-of (ground arith) (demote-Placed c now key rec m v found up)
              ]
        ]
      ]
    ]

-- In a valid state, whatever coins `drop_super` left behind, rescoring a coin that is in Hot gives a valid state, and the answer is the tier
-- that the coin is in from then on.
pub apply_hot_scores-Placed :
    {left : List Text} (c : Config) (now : ℕ) (symbol : Text) (scores : List StrategyScore)
    (m : TierFunnel)
    → IsValid left m
    → mem (upper symbol) (keys m.hot) ≡ true
    → Placed left (upper symbol) (apply_hot_scores c now symbol scores m)
unfolding apply_hot_scores
apply_hot_scores-Placed c now symbol scores m v there =
    let key = upper symbol in
    elim (Option-cases (lookup key m.hot)) [
      | inl nothing ↦ cc (there, mem-keys-none key m.hot nothing)
      | inr (rec, found) ↦ Placed-of (ground arith) (
          rescore-Placed c now key rec (by_tag (ranked_scores scores) []) m v found
            (upper_idem symbol))
    ]
