-- ===== src/Rotation/Queues.antt =====
-- core/symbol_rotation_manager.py, `build_scan_slices`: the priority and the rotating queue. Trigger
-- scores are natural numbers. `sorted` is an insertion sort, stable as Python's.
use binance_future_bot.Base.{
  ℕ, suc, ◌-◌, Bool, true, false, ◌&&◌, ◌||◌, not, max, none, some, List, [], ◌∷◌, ◌++◌, ltb, leb,
  ◌==◌, if◌then◌else◌, length, take, drop, filter, map, mem, ◌=?◌, text_eq,
}
use binance_future_bot.Base.Text.{Text, upper}
use binance_future_bot.Base.Dict.{Dict, lookup, insert, keys}
use binance_future_bot.Rotation.Types.{
  Config, SymbolRotationManager, dormant, weakened, active, priority_states, scannable_states,
}
use binance_future_bot.Rotation.{is_empty, maybe_full_purge, cleanup_expired, clear_evaluated}

-- `{k.upper(): v for k, v in d.items()}`
abbrev pub upper_keys_onto {ℓ} : {V : Type ℓ} → Dict Text V → Dict Text V → Dict Text V
upper_keys_onto [] acc = acc
upper_keys_onto ((k, v) ∷ d) acc = upper_keys_onto d (insert (upper k) v acc)

abbrev pub score_of : Dict Text ℕ → Text → ℕ
score_of scores sym = elim (lookup sym scores) [ none ↦ 0 | some n ↦ n ]

abbrev pub index_of : Text → List Text → ℕ
index_of sym [] = 0
index_of sym (x ∷ xs) = if x =? sym then 0 else suc (index_of sym xs)

abbrev pub place : List Text → Text → ℕ
place primary sym = if mem sym primary then index_of sym primary else 0

-- `rank_key(a) > rank_key(b)`; a symbol outside the primary pool has the second key 0.
abbrev pub ranks_above : Dict Text ℕ → List Text → Text → Text → Bool
ranks_above scores primary a b =
    ltb (score_of scores b) (score_of scores a)
    || (score_of scores b == score_of scores a && ltb (place primary a) (place primary b))

-- `x` after every element that does not rank below it.
abbrev pub insert_ranked : (Text → Text → Bool) → Text → List Text → List Text
insert_ranked above x [] = x ∷ []
insert_ranked above x (y ∷ l) = if above x y then x ∷ y ∷ l else y ∷ insert_ranked above x l

abbrev pub sort_onto : (Text → Text → Bool) → List Text → List Text → List Text
sort_onto above [] acc = acc
sort_onto above (x ∷ l) acc = sort_onto above l (insert_ranked above x acc)

-- `sorted(l, key=..., reverse=True)`
unfoldable pub sort_ranked : (Text → Text → Bool) → List Text → List Text
sort_ranked above l = sort_onto above l []

-- `[s.upper() for s in pool if s]`
abbrev pub upper_pool : List Text → List Text
upper_pool pool = map upper (filter (λ s. not (is_empty s)) pool)

abbrev pub state_is : Dict Text Text → Text → Text → Bool
state_is life sym state = elim (lookup sym life) [ none ↦ false | some s ↦ s =? state ]

abbrev pub state_in : Dict Text Text → Text → List Text → Bool
state_in life sym states = elim (lookup sym life) [ none ↦ false | some s ↦ mem s states ]

-- `_push`; the set `seen` is the set of the symbols in the list.
unfoldable pub push : Dict Text Text → Text → List Text → List Text
push life sym priority =
    if is_empty sym || mem sym priority || state_is life sym dormant
    then priority
    else priority ++ sym ∷ []

unfoldable pub push_all : Dict Text Text → List Text → List Text → List Text
unfolding push
push_all life [] priority = priority
push_all life (sym ∷ rest) priority = push_all life rest (push life sym priority)

unfoldable pub push_wanted : Dict Text Text → (Text → Bool) → Text → List Text → List Text
push_wanted life wanted sym priority = if wanted sym then push life sym priority else priority

-- `for sym in ...: if wanted(sym): _push(sym)`, left once `size` are there.
unfoldable pub push_until : Dict Text Text → (Text → Bool) → ℕ → List Text → List Text → List Text
unfolding push_wanted
push_until life wanted size [] priority = priority
push_until life wanted size (sym ∷ rest) priority =
    let next = push_wanted life wanted sym priority in
    elim (leb size (length next)) [ true ↦ next | false ↦ push_until life wanted size rest next ]

-- `life.get(sym, "ACTIVE")`
abbrev pub state_of : Dict Text Text → Text → Text
state_of life sym = elim (lookup sym life) [ none ↦ active | some s ↦ s ]

abbrev pub is_nil {ℓ} : {A : Type ℓ} → List A → Bool
is_nil [] = true
is_nil (_ ∷ _) = false

unfoldable pub may_rotate : List Text → Dict Text Text → Text → Bool
may_rotate blocked life sym =
    not (mem sym blocked)
    && not (state_of life sym =? dormant)
    && (is_nil life || mem (state_of life sym) scannable_states)

-- `_accept_rotating`
abbrev pub accept_rotating : List Text → Dict Text Text → List Text → Text → Bool
accept_rotating blocked life rotating sym = not (mem sym rotating) && may_rotate blocked life sym

-- The symbols of one pool; `waiting` are the weakened ones, for the end.
unfoldable pub rotate_pool :
    List Text → Dict Text Text → ℕ → List Text → List Text × List Text → List Text × List Text
unfolding may_rotate
rotate_pool blocked life target [] (waiting, rotating) = (waiting, rotating)
rotate_pool blocked life target (sym ∷ rest) (waiting, rotating) =
    let skipped = rotate_pool blocked life target rest (waiting, rotating) in
    let later = rotate_pool blocked life target rest (waiting ++ sym ∷ [], rotating) in
    let next = rotating ++ sym ∷ [] in
    let further = rotate_pool blocked life target rest (waiting, next) in
    if not (accept_rotating blocked life rotating sym)
    then skipped
    else if state_is life sym weakened
    then later
    else if leb target (length next)
    then (waiting, next)
    else further

unfoldable pub rotate_pools :
    List Text
    → Dict Text Text
    → ℕ
    → List (List Text)
    → List Text × List Text
    → List Text × List Text
unfolding rotate_pool
rotate_pools blocked life target [] x = x
rotate_pools blocked life target (pool ∷ pools) x =
    let next = rotate_pool blocked life target pool x in
    let further = rotate_pools blocked life target pools next in
    if leb target (length next.1) then next else further

unfoldable pub add_accepted : List Text → Dict Text Text → Text → List Text → List Text
add_accepted blocked life sym rotating =
    if accept_rotating blocked life rotating sym then rotating ++ sym ∷ [] else rotating

unfoldable pub rotate_weakened : List Text → Dict Text Text → ℕ → List Text → List Text → List Text
unfolding add_accepted
rotate_weakened blocked life target [] rotating = rotating
rotate_weakened blocked life target (sym ∷ rest) rotating =
    let next = add_accepted blocked life sym rotating in
    let further = rotate_weakened blocked life target rest next in
    if leb target (length next) then next else further

-- The rotating queue, from the pools in their order.
unfoldable pub rotating_slice : List Text → Dict Text Text → ℕ → List (List Text) → List Text
unfolding rotate_pools rotate_weakened
rotating_slice blocked life target pools =
    let (waiting, rotating) = rotate_pools blocked life target pools ([], []) in
    if ltb (length rotating) target
    then rotate_weakened blocked life target waiting rotating
    else rotating

abbrev pub is_hot_now : Config → Dict Text ℕ → Dict Text Text → List Text → Text → Bool
is_hot_now c scores life primary sym =
    state_in life sym priority_states
    || (leb c.opportunity_hot_min (score_of scores sym) && mem sym primary)

-- The priority queue, before it is cut to its size.
unfoldable pub priority_slice :
    Config → Dict Text ℕ → Dict Text Text → ℕ → List Text → List Text → List Text → List Text
unfolding push_all push_until sort_ranked
priority_slice c scores life hot_size fast primary universe =
    let above = ranks_above scores primary in
    let hot =
      push_until life (is_hot_now c scores life primary) hot_size (sort_ranked above universe)
        (push_all life fast []) in
    if ltb (length hot) hot_size
    then push_until life (λ _. true) hot_size (sort_ranked above primary) hot
    else hot

-- `max(int(Config.TIER2_HOT_SIZE), 1)`, or the watchlist's size without the funnel
abbrev pub hot_size_of : Config → ℕ
hot_size_of c = if c.enable_funnel then max c.hot_size 1 else max c.watchlist_size 1

-- The rest of `build_scan_slices` when the rotation is on, on pools and keys in upper case.
unfoldable pub rotation_slices :
    Config
    → ℕ
    → Dict Text ℕ
    → Dict Text Text
    → List Text
    → List Text
    → List Text
    → SymbolRotationManager
    → SymbolRotationManager × (List Text × List Text)
unfolding maybe_full_purge cleanup_expired clear_evaluated priority_slice rotating_slice
rotation_slices c now scores life primary extended fast m =
    let (purged, _) = maybe_full_purge c now m in
    let (cleaned, _) = cleanup_expired now purged in
    let m' = clear_evaluated fast cleaned in
    let universe = primary ++ filter (λ s. not (mem s primary)) extended in
    let priority =
      take (hot_size_of c) (priority_slice c scores life (hot_size_of c) fast primary universe) in
    let blocked = keys m'.evaluated ++ priority in
    let target = max (c.universe_pool_size - length priority) 1 in
    let pools = drop (length priority) primary ∷ extended ∷ primary ∷ [] in
    (m', (priority, rotating_slice blocked life target pools))

unfoldable pub build_scan_slices :
    Config
    → ℕ
    → List Text
    → List Text
    → Dict Text ℕ
    → Dict Text Text
    → List Text
    → SymbolRotationManager
    → SymbolRotationManager × (List Text × List Text)
unfolding rotation_slices sort_ranked
build_scan_slices c now primary_pool extended_pool trigger_scores lifecycle fast_track m =
    let scores = upper_keys_onto trigger_scores [] in
    let life = upper_keys_onto (map (λ x. (x.0, upper x.1)) lifecycle) [] in
    let primary = upper_pool primary_pool in
    let extended = filter (λ s. not (mem s primary)) (upper_pool extended_pool) in
    let ranked = sort_ranked (λ a b. ltb (score_of scores b) (score_of scores a)) primary in
    if c.enable_rotation
    then rotation_slices c now scores life primary extended (upper_pool fast_track) m
    else (m, (take (hot_size_of c) ranked, drop (hot_size_of c) ranked))
