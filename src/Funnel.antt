-- ===== src/Funnel.antt =====
-- core/tier_funnel.py, the Normal tier: the lock, the flush, the paced ingest and the scan queue.
-- The clock readings are arguments. Of the messages and the digest nothing is kept.
pub mod Types
pub mod Hot
pub mod Backtest
pub mod Super
pub mod Calls
pub mod Tiers
pub mod Scan
use binance_future_bot.Base.{
  ℕ, zero, suc, ◌+◌, ◌-◌, ◌*◌, ◌/◌, ◌%◌, Bool, true, false, ◌&&◌, ◌||◌, not, min, max, Option, none,
  some, List, [], ◌∷◌, ◌++◌, ltb, leb, ◌==◌, if◌then◌else◌, length, take, drop, filter, map, mem,
  ◌=?◌, text_eq,
}
use binance_future_bot.Base.Text.{Text, upper}
use binance_future_bot.Base.Dict.{Dict, lookup, insert, delete, keys}
use binance_future_bot.Base.Sets.{set_add, discard}
use binance_future_bot.PaceWindow.{MinuteWindow, new_window, take_slots}
use Types.{Config, TierFunnel}

abbrev pub new_funnel : Config → ℕ → ℕ → ℕ → TierFunnel
new_funnel c normal_rate hot_rate super_rate = record {
  candidates = [];
  normal = [];
  demoted_hold = [];
  normal_index = 0;
  ingest_index = 0;
  lock_started = 0;
  lock_cycle = 0;
  pass_number = 1;
  scans_this_window = 0;
  current_index = 0;
  current_symbol = [];
  last_normal_take = 0;
  last_flushed = [];
  flush_count = 0;
  normal_scores = [];
  kline_pending = [];
  recently_scanned = [];
  recent_cap = max c.universe_size 1;
  hot = [];
  hot_order = [];
  hot_index = 0;
  hot_rest_index = 0;
  super = [];
  super_order = [];
  super_index = 0;
  promoted = [];
  normal_clock = new_window normal_rate;
  hot_clock = new_window hot_rate;
  super_clock = new_window super_rate;
  pending_hot_rest = [];
  demote_cooldown_until = [];
  day_validation_until = 0;
  day_validation_started = 0;
  day_validation_initial = 0;
}

abbrev pub is_blank : Text → Bool
is_blank [] = true
is_blank (_ ∷ _) = false

-- `set(self._hot) | set(self._super)`
unfoldable pub is_blocked : TierFunnel → Text → Bool
is_blocked m key = mem key (keys m.hot) || mem key (keys m.super)

unfoldable pub note_kline_pending : Text → TierFunnel → TierFunnel
note_kline_pending symbol m =
    if is_blank symbol
    then m
    else record m { kline_pending = set_add (upper symbol) m.kline_pending }

unfoldable pub clear_kline_pending : Text → TierFunnel → TierFunnel
clear_kline_pending symbol m = record m { kline_pending = discard (upper symbol) m.kline_pending }

-- `d.setdefault(key, value)`
abbrev pub set_default : Text → ℕ → Dict Text ℕ → Dict Text ℕ
set_default key value d = if mem key (keys d) then d else insert key value d

unfoldable pub note_normal_score : Text → ℕ → TierFunnel → TierFunnel
note_normal_score symbol score m =
    let key = upper symbol in
    if is_blank symbol
    then m
    else if score == 0
    then (if mem key m.kline_pending
        then m
        else record m { normal_scores = set_default key 0 m.normal_scores })
    else record m {
      normal_scores = insert key score m.normal_scores;
      kline_pending = discard key m.kline_pending;
    }

abbrev pub passes_of : Config → ℕ
passes_of c = max c.passes_per_lock 1

abbrev pub is_nil : List Text → Bool
is_nil [] = true
is_nil (_ ∷ _) = false

unfoldable pub lock_expired : Config → ℕ → TierFunnel → Bool
lock_expired c now m =
    if m.lock_started == 0
    then true
    else if not (is_nil m.candidates)
        && leb (passes_of c * max (length m.candidates) 1) m.scans_this_window
    then true
    else leb (max c.lock_ms 900000) (now - m.lock_started)

-- `_active_history_quarantine`: the cooldowns that are over are dropped, and the rest returned.
unfoldable pub drop_cooldowns : ℕ → TierFunnel → TierFunnel
drop_cooldowns now m = record m {
  demote_cooldown_until = filter (λ x. ltb now x.1) m.demote_cooldown_until;
}

-- The loop that collects the keys that are not blank, not in `out` and not in `seen`.
unfoldable pub collect_keys : (Text → Bool) → List Text → List Text → List Text
collect_keys out [] seen = seen
collect_keys out (raw ∷ rest) seen =
    let key = upper raw in
    collect_keys out rest
      (if is_blank key || out key || mem key seen then seen else seen ++ key ∷ [])

abbrev pub kept_keys : List Text → TierFunnel → List Text
kept_keys keep m =
    map upper (filter (λ s. not (is_blank s)) keep)
    ++ (keys m.hot ++ (keys m.super ++ keys m.demote_cooldown_until))

unfoldable pub flush_non_setup : ℕ → List Text → TierFunnel → TierFunnel
unfolding drop_cooldowns collect_keys
flush_non_setup now keep m0 =
    let m = drop_cooldowns now m0 in
    let kept = kept_keys keep m in
    record m {
      normal = filter (λ s. mem s kept) m.normal;
      demoted_hold = filter (λ s. mem s kept) m.demoted_hold;
      candidates = [];
      ingest_index = 0;
      normal_index = 0;
      scans_this_window = 0;
      pass_number = 1;
      current_index = 0;
      current_symbol = [];
      last_normal_take = 0;
      last_flushed =
          collect_keys (λ s. mem s kept) (m.normal ++ (m.demoted_hold ++ m.candidates)) [];
      recently_scanned = [];
      normal_scores = filter (λ x. mem x.0 kept) m.normal_scores;
      kline_pending = filter (λ s. mem s kept) m.kline_pending;
    }

-- The candidates of a new window: the first `cap` keys that are not in Hot or Super.
unfoldable pub seed_candidates : TierFunnel → ℕ → List Text → List Text
unfolding collect_keys is_blocked
seed_candidates m cap symbols = take cap (collect_keys (is_blocked m) symbols [])

unfoldable pub replace_normal_universe :
    Config → ℕ → ℕ → List Text → List Text → TierFunnel → TierFunnel
unfolding flush_non_setup seed_candidates
replace_normal_universe c clock now symbols keep m0 =
    let m = flush_non_setup clock keep m0 in
    let cap = max c.universe_size 1 in
    record m {
      candidates = seed_candidates m cap symbols;
      ingest_index = 0;
      normal_index = 0;
      lock_started = now;
      lock_cycle = suc m.lock_cycle;
      flush_count = suc m.lock_cycle;
      pass_number = 1;
      scans_this_window = 0;
      recently_scanned = [];
      recent_cap = cap;
    }

unfoldable pub scan_pool : TierFunnel → List Text
unfolding collect_keys is_blocked
scan_pool m = collect_keys (is_blocked m) (m.normal ++ m.demoted_hold) []

-- The loop of `_ingest_one` over the candidates from the index on: the new index, and the key.
unfoldable pub ingest_from : (Text → Bool) → List Text → ℕ → ℕ × Option Text
ingest_from out [] index = (index, none)
ingest_from out (key ∷ rest) index = elim (is_blank key || out key) [
  | true ↦ ingest_from out rest (index + 1)
  | false ↦ (index + 1, some key)
]

unfoldable pub ingest_one : TierFunnel → TierFunnel × Option Text
unfolding ingest_from is_blocked
ingest_one m =
    let (index, found) =
      ingest_from (is_blocked m) (drop m.ingest_index m.candidates) m.ingest_index in
    elim found [
      | none ↦ (record m { ingest_index = index }, none)
      | some key ↦ (record m { ingest_index = index; normal = set_add key m.normal }, some key)
    ]

-- `l[index]`, which the callers keep in range.
abbrev pub nth : List Text → ℕ → Text
nth [] index = []
nth (x ∷ l) zero = x
nth (x ∷ l) (suc index) = nth l index

unfoldable pub next_of_pool : TierFunnel → TierFunnel × Option Text
unfolding scan_pool
next_of_pool m =
    let pool = scan_pool m in
    let start = if leb (length pool) m.normal_index then 0 else m.normal_index in
    if is_nil pool then (m, none) else (
      record m { normal_index = (start + 1) % max (length pool) 1 },
      some (nth pool (start % length pool)),
    )

unfoldable pub next_normal_symbol : TierFunnel → TierFunnel × Option Text
unfolding ingest_one next_of_pool
next_normal_symbol m =
    let (m', ingested) = ingest_one m in
    if ltb m.ingest_index (length m.candidates)
    then elim ingested [ some key ↦ (m', some key) | none ↦ next_of_pool m' ]
    else next_of_pool m

unfoldable pub scan_universe_size : Config → TierFunnel → ℕ
scan_universe_size c m =
    if is_nil m.candidates then max c.universe_size 1 else max (length m.candidates) 1

-- `deque(l, maxlen=cap)`, which drops from the left.
unfoldable pub bounded : ℕ → List Text → List Text
bounded cap l = drop (length l - cap) l

unfoldable pub note_scanned : Config → Text → TierFunnel → TierFunnel
unfolding scan_universe_size bounded
note_scanned c symbol m =
    let key = upper symbol in
    let scans = suc m.scans_this_window in
    let universe = scan_universe_size c m in
    if is_blank key then m else record m {
      recently_scanned = bounded m.recent_cap (key ∷ discard key m.recently_scanned);
      current_symbol = key;
      scans_this_window = scans;
      current_index = (scans - 1) % universe + 1;
      pass_number = min (passes_of c) ((scans - 1) / universe + 1);
    }

unfoldable pub take_normal : Config → ℕ → TierFunnel → TierFunnel × Option Text
unfolding lock_expired next_normal_symbol note_scanned
take_normal c now m =
    let (clock, granted) = take_slots 1 now m.normal_clock in
    let m1 = record m { normal_clock = clock } in
    let (m2, found) = next_normal_symbol m1 in
    if lock_expired c now m
    then (m, none)
    else if ltb 0 m.last_normal_take && ltb (now - m.last_normal_take) c.ingest_interval
    then (m, none)
    else if ltb granted 1
    then (m1, none)
    else elim found [
      | none ↦ (m2, none)
      | some symbol ↦ (note_scanned c symbol (record m2 { last_normal_take = now }), some symbol)
    ]
