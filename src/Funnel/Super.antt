-- ===== src/Funnel/Super.antt =====
-- core/tier_funnel.py, the Super tier: the rescoring of Hot coins, the batches, what follows a fill,
-- and the validation window of a new day.
use binance_future_bot.Base.{
  ℕ, zero, suc, ◌+◌, ◌*◌, ◌%◌, Bool, true, false, ◌&&◌, ◌||◌, not, min, max, Option, none, some,
  List, [], ◌∷◌, ◌++◌, ltb, leb, ◌==◌, if◌then◌else◌, length, map, mem, text_eq,
}
use binance_future_bot.Base.Text.{Text, upper}
use binance_future_bot.Base.Dict.{Dict, lookup, insert, delete, keys}
use binance_future_bot.Base.Sets.{discard}
use binance_future_bot.PaceWindow.{take_slots}
use binance_future_bot.ScoreRanges.{meets_hot, meets_super}
use binance_future_bot.Assignment.Types.{StrategyScore}
use binance_future_bot.Funnel.Types.{Config, HotRecord, SuperRecord, TierFunnel}
use binance_future_bot.Funnel.{is_blank, nth}
use binance_future_bot.Funnel.Hot.{
  effective_score, ranked_scores, score_dropped, drop_hot, demote_hot,
}

unfoldable pub promote_super : HotRecord → StrategyScore → TierFunnel → TierFunnel
promote_super rec row m =
    let key = rec.symbol in
    let m' = drop_hot key m in
    record m' {
      super_order = if mem key (keys m.super) then m.super_order else m.super_order ++ key ∷ [];
      super =
          insert key
            (record {
              symbol = key;
              strategy = row.strategy;
              backup_strategies = rec.backup_strategies;
              score = effective_score row;
            })
            m.super;
    }

-- `{row.strategy: row for row in ranked}`: of two rows of one strategy the last stays.
unfoldable pub by_tag : List StrategyScore → Dict Text StrategyScore → Dict Text StrategyScore
by_tag [] d = d
by_tag (row ∷ rows) d = by_tag rows (insert row.strategy row d)

-- The first backup whose row passes the test.
unfoldable pub first_backup :
    (Text → StrategyScore → Bool)
    → Dict Text StrategyScore
    → List Text
    → Option (Text × StrategyScore)
first_backup passes rows [] = none
first_backup passes rows (backup ∷ backups) = elim (lookup backup rows) [
  | none ↦ first_backup passes rows backups
  | some row ↦ elim (passes backup row) [
    | true ↦ some (backup, row)
    | false ↦ first_backup passes rows backups
  ]
]

abbrev pub action_or : Text → Text → Text
action_or a b = if is_blank a then b else a

unfoldable pub switch_to : Text → StrategyScore → HotRecord → HotRecord
switch_to backup row rec = record rec {
  strategy = backup;
  score = effective_score row;
  action = action_or row.action rec.action;
  backup_index = suc rec.backup_index;
}

pub data Tier : Type 0 where
  super_tier hot_tier normal_tier : Tier

abbrev pub reaches_super : Config → Text → StrategyScore → Bool
reaches_super c tag row = meets_super (c.range_for tag) (effective_score row)

abbrev pub reaches_hot : Config → Text → StrategyScore → Bool
reaches_hot c tag row = meets_hot (c.range_for tag) (effective_score row)

abbrev pub primary_reaches :
    (Text → StrategyScore → Bool) → HotRecord → Option StrategyScore → Option StrategyScore
primary_reaches passes rec none = none
primary_reaches passes rec (some row) = if passes rec.strategy row then some row else none

-- `apply_hot_scores` for a coin that is in Hot, from the rows by strategy.
unfoldable pub rescore :
    Config → ℕ → Text → HotRecord → Dict Text StrategyScore → TierFunnel → TierFunnel × Tier
unfolding first_backup switch_to promote_super
rescore c now key rec rows m =
    let primary = lookup rec.strategy rows in
    elim (primary_reaches (reaches_super c) rec primary) [
      | some row ↦ (promote_super rec row m, super_tier)
      | none ↦ elim (first_backup (reaches_super c) rows rec.backup_strategies) [
        | some (backup, row) ↦ (promote_super (switch_to backup row rec) row m, super_tier)
        | none ↦ elim (primary_reaches (reaches_hot c) rec primary) [
          | some row ↦
              let rec' = record rec {
                score = effective_score row;
                action = action_or row.action rec.action;
              } in
              (record m { hot = insert key rec' m.hot }, hot_tier)
          | none ↦ elim (first_backup (reaches_hot c) rows rec.backup_strategies) [
            | some (backup, row) ↦
                (record m { hot = insert key (switch_to backup row rec) m.hot }, hot_tier)
            | none ↦ (demote_hot c now key score_dropped m, normal_tier)
          ]
        ]
      ]
    ]

unfoldable pub apply_hot_scores :
    Config → ℕ → Text → List StrategyScore → TierFunnel → TierFunnel × Tier
unfolding rescore by_tag ranked_scores
apply_hot_scores c now symbol scores m =
    let key = upper symbol in
    elim (lookup key m.hot) [
      | none ↦ (m, normal_tier)
      | some rec ↦ rescore c now key rec (by_tag (ranked_scores scores) []) m
    ]

unfoldable pub take_super : ℕ → TierFunnel → TierFunnel × Option SuperRecord
take_super now m =
    let (clock, granted) = take_slots 1 now m.super_clock in
    let m' = record m { super_clock = clock } in
    let n = length m.super_order in
    if n == 0 then (m, none) else if ltb granted 1 then (m', none) else (
      record m' { super_index = (m.super_index + 1) % n },
      lookup (nth m.super_order (m.super_index % n)) m.super,
    )

-- The loop over the offsets, `rounds` of them left; `seen` are the keys of the batch.
unfoldable pub batch_from : TierFunnel → ℕ → ℕ → ℕ → ℕ → List Text → List Text
batch_from m cap start zero offset seen = seen
batch_from m cap start (suc rounds) offset seen =
    let key = nth m.super_order ((start + offset) % length m.super_order) in
    let next = if not (mem key (keys m.super)) || mem key seen then seen else seen ++ key ∷ [] in
    elim (leb cap (length seen)) [
      | true ↦ seen
      | false ↦ batch_from m cap start rounds (offset + 1) next
    ]

unfoldable pub take_super_batch : Config → TierFunnel → TierFunnel × List Text
unfolding batch_from
take_super_batch c m =
    let n = length m.super_order in
    let start = m.super_index % n in
    let out = batch_from m c.super_batch_size start n 0 [] in
    if n == 0
    then (m, [])
    else if length out == 0
    then (m, [])
    else (record m { super_index = (start + length out) % max n 1 }, out)

unfoldable pub drop_super : Text → TierFunnel → TierFunnel
drop_super symbol m =
    let key = upper symbol in
    let order = discard key m.super_order in
    record m {
      super = delete key m.super;
      super_order = order;
      super_index = if leb (length order) m.super_index then 0 else m.super_index;
    }

unfoldable pub note_filled : Text → TierFunnel → TierFunnel
unfolding drop_super drop_hot
note_filled symbol m =
    let key = upper symbol in
    let m' = drop_hot key (drop_super key m) in record m' { promoted = discard key m'.promoted }

abbrev pub append_missing : Text → List Text → List Text
append_missing key l = if mem key (map upper l) then l else l ++ key ∷ []

unfoldable pub demote_super_to_normal : Text → TierFunnel → TierFunnel
unfolding drop_super
demote_super_to_normal symbol m =
    let key = upper symbol in
    let m' = drop_super key m in
    if not (mem key (keys m.super)) && not (mem key m.super_order) then m else record m' {
      promoted = discard key m.promoted;
      normal = if is_blank key then m.normal else append_missing key m.normal;
      demoted_hold = append_missing key m.demoted_hold;
    }

unfoldable pub begin_day_validation : Config → ℕ → TierFunnel → TierFunnel × ℕ
begin_day_validation c now m =
    let count = length m.super_order in
    let duration = min (count * c.day_ms_per_super) c.day_max_ms in
    if count == 0
    then (
      record m { day_validation_until = 0; day_validation_started = 0; day_validation_initial = 0 },
      0,
    )
    else (
      record m {
        day_validation_until = now + duration;
        day_validation_started = now;
        day_validation_initial = count;
      },
      duration,
    )

unfoldable pub day_validation_active : ℕ → TierFunnel → Bool
day_validation_active now m = ltb 0 m.day_validation_until && ltb now m.day_validation_until

unfoldable pub maybe_finish_day_validation : ℕ → TierFunnel → TierFunnel × Bool
maybe_finish_day_validation now m =
    if m.day_validation_until == 0
    then (m, false)
    else if ltb now m.day_validation_until
    then (m, false)
    else (
      record m { day_validation_until = 0; day_validation_started = 0; day_validation_initial = 0 },
      true,
    )
