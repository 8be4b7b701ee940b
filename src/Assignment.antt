-- ===== src/Assignment.antt =====
-- core/assignment_manager.py: the tier-2 pool of hot symbols, with the promotion test of
-- core/scoring_engine.py. Scores, fits and weights are hundredths and stand between 0 and 100.
-- Logging is left out; the time and the open symbols are arguments.
pub mod Types
pub mod Evict
pub mod Leave
pub mod Size
pub mod Prune
use binance_future_bot.Base.{
  ℕ, ◌+◌, ◌-◌, ◌*◌, Bool, true, false, ◌&&◌, ◌||◌, not, Option, none, some, List, [], ◌∷◌, ltb, leb,
  ◌==◌, if◌then◌else◌, length, filter, map, mem, ◌=?◌, text_eq,
}
use binance_future_bot.Base.Text.{Text, upper}
use binance_future_bot.Base.Dict.{Dict, lookup, insert, delete, keys}
use Types.{Config, StrategyScore, CoinAssignment, AssignmentManager, Outcome}

-- `a or b` on numbers
abbrev or_else : ℕ → ℕ → ℕ
or_else a b = if a == 0 then b else a

unfoldable pub new_manager : Config → Option ℕ → Option ℕ → Option ℕ → AssignmentManager
new_manager c promote demote max_hot = record {
  promote_normalized = promote;
  demote_normalized = demote;
  max_hot = elim max_hot [ none ↦ c.hot_size | some n ↦ or_else n c.hot_size ];
  tier2 = [];
  last_best = [];
}

-- `adjusted_score >= scaled_adjusted_threshold(...)`, both sides times 10 ^ 10
unfoldable pub above_scaled_threshold : StrategyScore → ℕ → Bool
above_scaled_threshold best promote =
    leb
      ((best.min_score * 10000 + (10000 - best.min_score) * promote)
        * best.regime_fit
        * best.priority_weight)
      (best.adjusted_score * 100000000)

unfoldable pub qualifies_for_tier2 : Config → StrategyScore → ℕ → Bool
unfolding above_scaled_threshold
qualifies_for_tier2 c best promote_normalized =
    let effective = or_else best.final_score best.score in
    let promote = or_else promote_normalized c.promote_normalized in
    if ltb effective best.min_score
    then false
    else if leb c.promote_score effective
    then true
    else if leb promote best.normalized_score
    then true
    else above_scaled_threshold best promote

unfoldable pub qualifies_for_promotion : Config → AssignmentManager → StrategyScore → Bool
qualifies_for_promotion c m best =
    qualifies_for_tier2 c best
      (elim m.promote_normalized [ none ↦ c.promote_normalized | some p ↦ p ])

unfoldable pub demote_bar : Config → AssignmentManager → ℕ
demote_bar c m = elim m.demote_normalized [ none ↦ c.demote_normalized | some n ↦ n ]

-- `min(..., key=normalized_score)`: the first of the lowest
unfoldable pub lowest : Text × CoinAssignment → Dict Text CoinAssignment → Text × CoinAssignment
lowest best [] = best
lowest best (x ∷ rest) =
    lowest (if ltb x.1.normalized_score best.1.normalized_score then x else best) rest

abbrev pub evictable : Text → Text × CoinAssignment → Bool
evictable unless x = not (x.0 =? unless) && not x.1.frozen

abbrev pub lowest_of : Dict Text CoinAssignment → Option Text
lowest_of [] = none
lowest_of (x ∷ rest) = some (lowest x rest).0

-- The symbol that `_evict_lowest` takes out of the pool.
unfoldable pub lowest_evictable : Text → Dict Text CoinAssignment → Option Text
lowest_evictable unless tier2 = lowest_of (filter (evictable (upper unless)) tier2)

unfoldable pub evict_lowest : Text → AssignmentManager → AssignmentManager × Option Text
evict_lowest unless m = elim (lowest_evictable unless m.tier2) [
  | none ↦ (m, none)
  | some sym ↦ (record m { tier2 = delete sym m.tier2 }, some sym)
]

abbrev pub refused : Outcome
refused = record { promoted = false; demoted = false; symbol = none }

-- An entry of an open symbol: frozen, with the new scores.
unfoldable pub freeze : StrategyScore → CoinAssignment → CoinAssignment
freeze best a = record a {
  frozen = true;
  score = best.score;
  adjusted_score = best.adjusted_score;
  normalized_score = best.normalized_score;
  min_score = best.min_score;
  strategy = best.strategy;
}

unfoldable pub refresh : StrategyScore → CoinAssignment → CoinAssignment
refresh best a = record a {
  strategy = best.strategy;
  score = best.score;
  adjusted_score = best.adjusted_score;
  normalized_score = best.normalized_score;
  min_score = best.min_score;
  assigned_bar_open_ms = best.bar_open_ms;
  frozen = false;
}

unfoldable pub fresh : Text → StrategyScore → ℕ → Bool → CoinAssignment
fresh symbol best now_ms frozen = record {
  symbol = symbol;
  strategy = best.strategy;
  score = best.score;
  adjusted_score = best.adjusted_score;
  normalized_score = best.normalized_score;
  min_score = best.min_score;
  assigned_bar_open_ms = best.bar_open_ms;
  assigned_at_ms = now_ms;
  frozen = frozen;
}

-- `update` for a symbol that is in the pool.
unfoldable pub update_existing :
    Config
    → StrategyScore
    → Text
    → Bool
    → CoinAssignment
    → AssignmentManager
    → AssignmentManager × Outcome
update_existing c best symbol frozen a m =
    if frozen
    then (record m { tier2 = insert symbol (freeze best a) m.tier2 }, refused)
    else if ltb best.normalized_score (demote_bar c m)
    then (
      record m { tier2 = delete symbol m.tier2 },
      record { promoted = false; demoted = true; symbol = some symbol },
    )
    else (record m { tier2 = insert symbol (refresh best a) m.tier2 }, refused)

abbrev pub promote :
    StrategyScore → Text → ℕ → Bool → AssignmentManager → AssignmentManager × Outcome
promote best symbol now_ms frozen m = (
  record m { tier2 = insert symbol (fresh symbol best now_ms frozen) m.tier2 },
  record { promoted = true; demoted = false; symbol = none },
)

-- What the full pool gives up before a promotion.
abbrev pub make_room : Text → AssignmentManager → AssignmentManager × Option Text
make_room symbol m = if leb m.max_hot (length m.tier2) then evict_lowest symbol m else (m, none)

-- `update` for a symbol that is not: after an eviction it returns before the insertion.
unfoldable pub update_new :
    Config → StrategyScore → Text → ℕ → Bool → AssignmentManager → AssignmentManager × Outcome
update_new c best symbol now_ms frozen m =
    if not (qualifies_for_promotion c m best)
    then (m, refused)
    else let (m', evicted) = make_room symbol m in
      elim evicted [
        | some sym ↦ (m', record { promoted = true; demoted = false; symbol = some sym })
        | none ↦ promote best symbol now_ms frozen m'
      ]

unfoldable pub update :
    Config → ℕ → StrategyScore → List Text → AssignmentManager → AssignmentManager × Outcome
update c now_ms best open_symbols m =
    let symbol = upper best.symbol in
    let frozen = mem symbol (map upper open_symbols) in
    let m1 = record m { last_best = insert symbol best m.last_best } in
    elim (lookup symbol m.tier2) [
      | some a ↦ update_existing c best symbol frozen a m1
      | none ↦ update_new c best symbol now_ms frozen m1
    ]

-- One symbol of the loop of `prune_outside_watchlist`: is it dropped?
unfoldable pub outside : List Text → List Text → Dict Text CoinAssignment → Text → Bool
outside watchlist open_set tier2 sym = elim (lookup sym tier2) [
  | none ↦ false
  | some a ↦ not (mem sym watchlist) && not (a.frozen || mem sym open_set)
]

unfoldable pub prune_each :
    List Text
    → List Text
    → List Text
    → Dict Text CoinAssignment
    → Dict Text CoinAssignment × List Text
prune_each watchlist open_set [] tier2 = (tier2, [])
prune_each watchlist open_set (sym ∷ rest) tier2 = elim (outside watchlist open_set tier2 sym) [
  | false ↦ prune_each watchlist open_set rest tier2
  | true ↦
      let (tier2', removed) = prune_each watchlist open_set rest (delete sym tier2) in
      (tier2', sym ∷ removed)
]

unfoldable pub prune_outside_watchlist :
    List Text → List Text → AssignmentManager → AssignmentManager × List Text
prune_outside_watchlist tier1_symbols open_symbols m =
    let (tier2', removed) =
      prune_each (map upper tier1_symbols) (map upper open_symbols) (keys m.tier2) m.tier2 in
    (record m { tier2 = tier2' }, removed)

unfoldable pub is_hot : Text → AssignmentManager → Bool
is_hot symbol m = mem (upper symbol) (keys m.tier2)
