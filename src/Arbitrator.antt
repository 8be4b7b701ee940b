-- ===== src/Arbitrator.antt =====
-- core/candidate_arbitrator.py: the choice between candidates. Scores are billionths, volumes whole
-- units of the quote currency. A candidate carries a number for the identity of its object.
pub mod Winner
use binance_future_bot.Base.{
  ℕ, ◌+◌, Bool, true, false, ◌&&◌, not, min, Option, none, some, List, [], ◌∷◌, ◌++◌, ltb, leb,
  ◌==◌, if◌then◌else◌, filter, take,
}
use binance_future_bot.Base.Sort.{sort_by}

pub data Action : Type 0 where
  long short other : Action

pub record SignalCandidate : Type 0 where
  pub object : ℕ
  pub action : Action
  pub score : ℕ
  pub adjusted_score : ℕ
  pub volume_24h : ℕ

unfoldable pub sort_key : SignalCandidate → ℕ
sort_key c =
    (if c.adjusted_score == 0 then c.score else c.adjusted_score) + min c.volume_24h 500000000

abbrev pub is_long : SignalCandidate → Bool
is_long c = elim c.action [ long ↦ true | short ↦ false | other ↦ false ]

abbrev pub is_short : SignalCandidate → Bool
is_short c = elim c.action [ long ↦ false | short ↦ true | other ↦ false ]

abbrev pub is_sided : SignalCandidate → Bool
is_sided c = elim c.action [ long ↦ true | short ↦ true | other ↦ false ]

-- `max` of `best ∷ l` by the key: the first of the largest.
unfoldable pub best_of : SignalCandidate → List SignalCandidate → SignalCandidate
unfolding sort_key
best_of best [] = best
best_of best (c ∷ l) = best_of (if ltb (sort_key best) (sort_key c) then c else best) l

abbrev pub without : SignalCandidate → List SignalCandidate → List SignalCandidate
without winner l = filter (λ c. not (c.object == winner.object)) l

-- Both sides have candidates: of a long and a short with one key, the long one wins.
unfoldable pub settle :
    SignalCandidate
    → List SignalCandidate
    → SignalCandidate
    → List SignalCandidate
    → Option SignalCandidate × List SignalCandidate
unfolding best_of
settle l longs s shorts =
    let best_long = best_of l longs in
    let best_short = best_of s shorts in
    if leb (sort_key best_short) (sort_key best_long)
    then (some best_long, (s ∷ shorts) ++ without best_long (l ∷ longs))
    else (some best_short, (l ∷ longs) ++ without best_short (s ∷ shorts))

-- All candidates are on one side.
unfoldable pub best_of_side : List SignalCandidate → Option SignalCandidate × List SignalCandidate
unfolding best_of
best_of_side [] = (none, [])
best_of_side (c ∷ l) = (some (best_of c l), without (best_of c l) (c ∷ l))

unfoldable pub pick_symbol_winner :
    List SignalCandidate → Option SignalCandidate × List SignalCandidate
unfolding settle best_of_side
pick_symbol_winner candidates =
    let valid = filter is_sided candidates in
    let one_side = best_of_side valid in
    elim (filter is_long valid) [
      | [] ↦ one_side
      | l ∷ longs ↦ elim (filter is_short valid) [
        | [] ↦ one_side
        | s ∷ shorts ↦ settle l longs s shorts
      ]
    ]

unfoldable pub rank_global : List SignalCandidate → ℕ → List SignalCandidate
unfolding sort_key
rank_global candidates max_results =
    take max_results (sort_by (λ a b. ltb (sort_key b) (sort_key a)) candidates)
