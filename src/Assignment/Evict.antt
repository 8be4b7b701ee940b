-- ===== src/Assignment/Evict.antt =====
-- The symbol that `_evict_lowest` of core/assignment_manager.py picks.
use binance_future_bot.Base.{
  ℕ, ◌≤◌, ◌≡◌, true, false, some, [], ◌∷◌, arith, ltb, filter, All, All-filter, Distinct, ◌=?◌,
  text_eq, Bool-cases, inl, inr, if◌then◌else◌, subst,
}
use binance_future_bot.Base.Text.{Text, upper}
use binance_future_bot.Base.Dict.{Dict, lookup, keys, All-lookup}
use binance_future_bot.Assignment.{lowest, lowest_of, evictable, lowest_evictable}
use binance_future_bot.Assignment.Types.{CoinAssignment}

-- What the candidates have, the lowest has.
lowest-All :
    (Q : Text × CoinAssignment → Type 0) (best : Text × CoinAssignment)
    (rest : Dict Text CoinAssignment)
    → Q best
    → All Q rest
    → Q (lowest best rest)
unfolding lowest
lowest-All Q best [] h k = h
lowest-All Q best (x ∷ rest) h k =
    elim (Bool-cases (ltb x.1.normalized_score best.1.normalized_score)) [
      | inl below ↦ rw (below, lowest) (lowest-All Q x rest k.0 k.1)
      | inr above ↦ rw (above, lowest) (lowest-All Q best rest h k.1)
    ]

lowest-le :
    (best : Text × CoinAssignment) (rest : Dict Text CoinAssignment) (n : ℕ)
    → n ≤ (lowest best rest).1.normalized_score
    → (n ≤ best.1.normalized_score) × All (λ x. n ≤ x.1.normalized_score) rest
unfolding lowest
lowest-le best [] n h = (h, tt)
lowest-le best (x ∷ rest) n h =
    let r =
      lowest-le (if ltb x.1.normalized_score best.1.normalized_score then x else best) rest n h in
    (ground (arith, r), (ground (arith, r), r.1))

-- What is evicted: an entry `a` under the key `k`, no worse than the rest.
abbrev pub Lowest : Text → Dict Text CoinAssignment → Text → Type 0
Lowest unless d k =
    (a : CoinAssignment) × (lookup k d ≡ some a)
    × (a.frozen ≡ false)
    × ((k =? upper unless) ≡ false)
    × All (λ x. a.normalized_score ≤ x.1.normalized_score) (filter (evictable (upper unless)) d)

lowest_of-All :
    (Q : Text × CoinAssignment → Type 0) (l : Dict Text CoinAssignment) (k : Text)
    → All Q l
    → lowest_of l ≡ some k
    → (a : CoinAssignment) × Q (k, a) × All (λ x. a.normalized_score ≤ x.1.normalized_score) l
lowest_of-All Q [] k h e = cc
lowest_of-All Q (x ∷ rest) k h e =
    let found = lowest x rest in
    let (first, others) = lowest-le x rest found.1.normalized_score (omega arith) in
    let at : found.0 ≡ k = cc e in
    (found.1, subst (λ i. Q (i, found.1)) at (lowest-All Q x rest h.0 h.1), (first, others))

-- If the pool evicts a symbol to make room for another, that is an unfrozen entry of another
-- symbol, and its normalized score is the lowest of all unfrozen entries of other symbols.
pub lowest_evictable-Lowest :
    (unless k : Text) (d : Dict Text CoinAssignment)
    → Distinct (keys d)
    → lowest_evictable unless d ≡ some k
    → Lowest unless d k
unfolding lowest_evictable
lowest_evictable-Lowest unless k d h e =
    let own =
      All-filter (λ x. lookup x.0 d ≡ some x.1) (evictable (upper unless)) d (All-lookup d h) in
    let (a, found, least) =
      lowest_of-All (λ x. (lookup x.0 d ≡ some x.1) × (evictable (upper unless) x ≡ true))
        (filter (evictable (upper unless)) d) k own e in
    let test = found.1 in (a, found.0, ground (arith, test), ground (arith, test), least)
