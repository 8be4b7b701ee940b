-- ===== src/Arbitrator/Winner.antt =====
-- core/candidate_arbitrator.py: which candidate wins.
use binance_future_bot.Base.{
  ℕ, ◌≤◌, ◌≡◌, ◌⊎◌, refl, ap, sym, ◌∙◌, max, Option, none, some, List, [], ◌∷◌, ltb, filter, arith,
  Bool-cases, inl, inr,
}
use binance_future_bot.Arbitrator.{
  SignalCandidate, Action, sort_key, is_long, is_short, is_sided, best_of, settle, best_of_side,
  pick_symbol_winner, long, short, other,
}

-- The largest key of a list, if it has one.
abbrev pub above : ℕ → Option ℕ → ℕ
above a none = a
above a (some b) = max a b

abbrev pub top_key : List SignalCandidate → Option ℕ
top_key [] = none
top_key (c ∷ l) = some (above (sort_key c) (top_key l))

abbrev pub key_of : Option SignalCandidate → Option ℕ
key_of none = none
key_of (some c) = some (sort_key c)

above-max : (a b : ℕ) (t : Option ℕ) → above (max a b) t ≡ max a (above b t)
above-max a b none = refl
above-max a b (some c) = omega arith

above-drop : (a b : ℕ) (t : Option ℕ) → b ≤ a → above a t ≡ max a (above b t)
above-drop a b none h = omega arith
above-drop a b (some c) h = omega arith

best_of-top_key :
    (best : SignalCandidate) (l : List SignalCandidate)
    → sort_key (best_of best l) ≡ above (sort_key best) (top_key l)
unfolding best_of
best_of-top_key best [] = refl
best_of-top_key best (c ∷ l) = elim (Bool-cases (ltb (sort_key best) (sort_key c))) [
  | inl less ↦
      let up : max (sort_key best) (sort_key c) ≡ sort_key c = ground (arith, less) in
      let by_max : above (sort_key c) (top_key l)
          ≡ max (sort_key best) (above (sort_key c) (top_key l)) =
        ap (λ k. above k (top_key l)) (sym up)
        ∙ above-max (sort_key best) (sort_key c) (top_key l) in
      rw (less, best_of) (best_of-top_key c l ∙ by_max)
  | inr not_less ↦
      let lower : sort_key c ≤ sort_key best = ground (arith, not_less) in
      rw (not_less, best_of)
        (best_of-top_key best l ∙ above-drop (sort_key best) (sort_key c) (top_key l) lower)
]

abbrev either : Option ℕ → Option ℕ → Option ℕ
either none b = b
either (some a) b = some (above a b)

either-left : (k : ℕ) (a b : Option ℕ) → some (above k (either a b)) ≡ either (some (above k a)) b
either-left k none b = refl
either-left k (some a) none = refl
either-left k (some a) (some b) = ap (λ x. some x) (omega arith)

either-right : (k : ℕ) (a b : Option ℕ) → some (above k (either a b)) ≡ either a (some (above k b))
either-right k none b = refl
either-right k (some a) none = ap (λ x. some x) (omega arith)
either-right k (some a) (some b) = ap (λ x. some x) (omega arith)

Action-cases : (a : Action) → (a ≡ long) ⊎ ((a ≡ short) ⊎ (a ≡ other))
Action-cases long = inl refl
Action-cases short = inr (inl refl)
Action-cases other = inr (inr refl)

-- The largest key of the sided candidates is that of the long or that of the short ones.
top_key-sides :
    (l : List SignalCandidate)
    → top_key (filter is_sided l)
      ≡ either
          (top_key (filter is_long (filter is_sided l)))
          (top_key (filter is_short (filter is_sided l)))
unfolding sort_key
top_key-sides [] = refl
top_key-sides (c ∷ l) =
    let longs = top_key (filter is_long (filter is_sided l)) in
    let shorts = top_key (filter is_short (filter is_sided l)) in
    let rest = ap (λ t. some (above (sort_key c) t)) (top_key-sides l) in
    elim (Action-cases c.action) [
      | inl is ↦ rw is (rest ∙ either-left (sort_key c) longs shorts)
      | inr (inl is) ↦ rw is (rest ∙ either-right (sort_key c) longs shorts)
      | inr (inr is) ↦ rw is (top_key-sides l)
    ]

settle-top_key :
    (l : SignalCandidate) (longs : List SignalCandidate) (s : SignalCandidate)
    (shorts : List SignalCandidate)
    → key_of (settle l longs s shorts).0 ≡ either (top_key (l ∷ longs)) (top_key (s ∷ shorts))
unfolding settle
settle-top_key l longs s shorts = ground (arith, best_of-top_key l longs, best_of-top_key s shorts)

best_of_side-top_key : (l : List SignalCandidate) → key_of (best_of_side l).0 ≡ top_key l
unfolding best_of_side
best_of_side-top_key [] = refl
best_of_side-top_key (c ∷ l) = ap (λ k. some k) (best_of-top_key c l)

candidates-cases :
    (l : List SignalCandidate)
    → (l ≡ []) ⊎ ((c : SignalCandidate) × (rest : List SignalCandidate) × (l ≡ c ∷ rest))
candidates-cases [] = inl refl
candidates-cases (c ∷ rest) = inr (c, rest, refl)

-- However the sides are split and compared: there is a winner if and only if a candidate is long or
-- short, and its key is the largest key of these.
pub pick_symbol_winner-top_key :
    (candidates : List SignalCandidate)
    → key_of (pick_symbol_winner candidates).0 ≡ top_key (filter is_sided candidates)
unfolding pick_symbol_winner
pick_symbol_winner-top_key candidates =
    let valid = filter is_sided candidates in
    let side = best_of_side-top_key valid in
    elim (candidates-cases (filter is_long valid)) [
      | inl none_long ↦ rw (none_long, pick_symbol_winner) side
      | inr (l, longs, some_long) ↦ elim (candidates-cases (filter is_short valid)) [
        | inl none_short ↦ rw (some_long, none_short, pick_symbol_winner) side
        | inr (s, shorts, some_short) ↦
            let split : either (top_key (l ∷ longs)) (top_key (s ∷ shorts)) ≡ top_key valid =
              cc (top_key-sides candidates, some_long, some_short) in
            rw (some_long, some_short, pick_symbol_winner) (settle-top_key l longs s shorts ∙ split)
      ]
    ]
