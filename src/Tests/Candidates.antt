-- ===== src/Tests/Candidates.antt =====
-- The arbitrator at a concrete batch.
use binance_future_bot.Base.{ℕ, ◌≡◌, List, [], ◌∷◌, filter}
use binance_future_bot.Arbitrator.{
  SignalCandidate, Action, long, short, other, is_sided, pick_symbol_winner,
}
use binance_future_bot.Arbitrator.Winner.{key_of, top_key, pick_symbol_winner-top_key}

abbrev candidate : ℕ → Action → ℕ → SignalCandidate
candidate object action score = record {
  object = object;
  action = action;
  score = score;
  adjusted_score = 0;
  volume_24h = 1000;
}

abbrev batch : List SignalCandidate
batch = candidate 1 long 70 ∷ candidate 2 short 80 ∷ candidate 3 other 99 ∷ candidate 4 long 75 ∷ []

pick_symbol_winner-top_key_example :
    key_of (pick_symbol_winner batch).0 ≡ top_key (filter is_sided batch)
pick_symbol_winner-top_key_example = pick_symbol_winner-top_key batch
