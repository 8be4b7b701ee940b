-- ===== src/ConflictGuard/Approved.antt =====
-- core/symbol_conflict_guard.py: what an approval means.
use binance_future_bot.Base.{
  ◌≡◌, refl, true, false, ◌&&◌, ◌||◌, not, Option, none, some, List, [], ◌∷◌, arith, All, ◌=?◌,
  Option-cases, inl, inr, text_eq,
}
use binance_future_bot.Base.Text.{Text, upper}
use binance_future_bot.Base.Dict.{lookup, lookup-insert}
use binance_future_bot.ConflictGuard.{
  SignalCandidate, Trade, Answers, Reason, Claims, long, short, is_blank, or_next, check_cycle,
  check_positions, check_trade, check_trades, check_symbol, refusal, approve,
}

or_next-none : (a b : Option Reason) → or_next a b ≡ none → (a ≡ none) × (b ≡ none)
or_next-none none b h = (refl, h)
or_next-none (some v) b h = cc

-- A trade of the database does not stand against a long or short candidate of the strategy.
abbrev pub Agrees : Answers → Text → Text → Trade → Type 0
Agrees e action strategy t =
    ((is_blank (upper t.side) || (upper t.side =? action)) ≡ true)
    × ((not (upper t.side =? action)
          || is_blank t.strategy
          || (t.strategy =? strategy)
          || e.allow_scale_in)
        ≡ true)

check_trade-Agrees :
    (e : Answers) (action strategy : Text) (t : Trade)
    → check_trade e action strategy t ≡ none
    → Agrees e action strategy t
unfolding check_trade
check_trade-Agrees e action strategy t h = (ground arith, ground arith)

check_trades-Agrees :
    (e : Answers) (action strategy : Text) (trades : List Trade)
    → check_trades e action strategy trades ≡ none
    → All (Agrees e action strategy) trades
unfolding check_trades
check_trades-Agrees e action strategy [] h = tt
check_trades-Agrees e action strategy (t ∷ trades) h =
    let (here, rest) = or_next-none _ _ h in
    (check_trade-Agrees e action strategy t here, check_trades-Agrees e action strategy trades rest)

-- What holds for a candidate that no test refuses.
pub record Cleared (e : Answers) (c : SignalCandidate) : Type 0 where
  pub no_long : (not (long =? upper c.action) && e.has_open_position (upper c.symbol) long) ≡ false
  pub no_short :
      (not (short =? upper c.action) && e.has_open_position (upper c.symbol) short) ≡ false
  pub no_own :
      (e.has_open_position (upper c.symbol) (upper c.action) && not e.allow_scale_in) ≡ false
  pub trades : All (Agrees e (upper c.action) c.strategy) (e.open_trades (upper c.symbol))
  pub not_blacklisted : e.is_blacklisted (upper c.symbol) ≡ false
  pub no_cooldown : e.is_on_cooldown (upper c.symbol) ≡ false

positions_parts :
    (e : Answers) (symbol action : Text)
    → check_positions e symbol action ≡ none
    → ((not (long =? action) && e.has_open_position symbol long) ≡ false)
      × ((not (short =? action) && e.has_open_position symbol short) ≡ false)
      × ((e.has_open_position symbol action && not e.allow_scale_in) ≡ false)
unfolding check_positions
positions_parts e symbol action h = (ground arith, ground arith, ground arith)

symbol_parts :
    (e : Answers) (symbol : Text)
    → check_symbol e symbol ≡ none
    → (e.is_blacklisted symbol ≡ false) × (e.is_on_cooldown symbol ≡ false)
unfolding check_symbol
symbol_parts e symbol h = (ground arith, ground arith)

approve-refusal :
    (e : Answers) (c : SignalCandidate) (claims : Claims)
    → (approve e c claims).1 ≡ none
    → refusal e c claims ≡ none
unfolding approve
approve-refusal e c claims h = elim (Option-cases (refusal e c claims)) [
  | inl free ↦ free
  | inr (v, refused) ↦ absurd (let x = h in ground arith)
]

-- An approved candidate: the other side of its symbol has no open position, nor has its own unless
-- scale-in is allowed; each open trade of the symbol in the database agrees in its side, and, unless
-- scale-in is allowed, in its strategy; the symbol is neither blacklisted nor on cooldown; and the
-- symbol is claimed for the candidate.
pub approve-Cleared :
    (e : Answers) (c : SignalCandidate) (claims : Claims)
    → (approve e c claims).1 ≡ none
    → Cleared e c × (lookup (upper c.symbol) (approve e c claims).0 ≡ some c)
unfolding approve refusal
approve-Cleared e c claims h =
    let free = approve-refusal e c claims h in
    let (cycle, rest) = or_next-none _ _ free in
    let (positions, rest') = or_next-none _ _ rest in
    let (trades, symbol) = or_next-none _ _ rest' in
    let (a, b, own) = positions_parts e (upper c.symbol) (upper c.action) positions in
    let (listed, cool) = symbol_parts e (upper c.symbol) symbol in
    let claim = lookup-insert (upper c.symbol) (upper c.symbol) c claims in
    (
      record {
        no_long = a;
        no_short = b;
        no_own = own;
        trades = check_trades-Agrees e (upper c.action) c.strategy _ trades;
        not_blacklisted = listed;
        no_cooldown = cool;
      },
      rw (free, approve) (ground (arith, text_eq.beq_iff (upper c.symbol) (upper c.symbol))),
    )

-- Two candidates for one symbol that are approved one after the other in a cycle have the same
-- action, and the same strategy unless scale-in is allowed.
pub approve-twice :
    (e e' : Answers) (c c' : SignalCandidate) (claims : Claims)
    → (approve e c claims).1 ≡ none
    → (approve e' c' (approve e c claims).0).1 ≡ none
    → upper c.symbol ≡ upper c'.symbol
    → (c.action ≡ upper c'.action) × (((c.strategy =? c'.strategy) || e'.allow_scale_in) ≡ true)
unfolding refusal check_cycle
approve-twice e e' c c' claims h h' same =
    let claimed = (approve-Cleared e c claims h).1 in
    let free = approve-refusal e' c' (approve e c claims).0 h' in
    let claims' = (approve e c claims).0 in
    let cycle : check_cycle e' c' claims' ≡ none =
      (or_next-none (check_cycle e' c' claims')
        (or_next (check_positions e' (upper c'.symbol) (upper c'.action)) (
          or_next (check_trades e' (upper c'.action) c'.strategy (e'.open_trades (upper c'.symbol)))
            (check_symbol e' (upper c'.symbol))))
        free).0 in
    let here : lookup (upper c'.symbol) (approve e c claims).0 ≡ some c = cc (same, claimed) in
    (ground (arith, text_eq.beq_iff c.action (upper c'.action)), ground (arith))
