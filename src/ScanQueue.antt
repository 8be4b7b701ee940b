-- ===== src/ScanQueue.antt =====
-- core/scan_priority_queue.py: the hot list and the rotating background batches. The clock reading
-- is an argument; the two intervals come from config.py, in milliseconds.
pub mod FastTrack
pub mod Batch
use binance_future_bot.Base.{
  ℕ, zero, suc, ◌+◌, ◌-◌, ◌%◌, Bool, true, false, ◌||◌, not, min, max, Option, none, some, List, [],
  ◌∷◌, ◌++◌, ltb, leb, if◌then◌else◌, length, take, drop, filter, map, mem, get_elem?, ◌=?◌,
  text_eq,
}
use binance_future_bot.Base.Text.{Text, upper}
use binance_future_bot.Base.Dict.{Dict}
use binance_future_bot.Rotation.Types.{Config, SymbolRotationManager}
use binance_future_bot.Rotation.{is_empty, clear_evaluated, mark_evaluated}
use binance_future_bot.Rotation.Queues.{build_scan_slices}

pub record ScanPriorityQueue : Type 0 where
  pub hot : List Text
  pub background : List Text
  pub background_index : ℕ
  pub bootstrap_index : ℕ
  pub last_hot_scan_at : ℕ
  pub last_background_batch_at : ℕ
  pub rotation : SymbolRotationManager
  pub last_batch : List Text
  pub pending_fast_track : List Text

unfoldable pub is_priority : Text → ScanPriorityQueue → Bool
is_priority symbol q = mem (upper symbol) (map upper q.hot)

-- The loop that merges the fast-tracked symbols, each once.
unfoldable pub merge_fast : List Text → List Text → List Text
merge_fast [] merged = merged
merge_fast (s ∷ rest) merged =
    merge_fast rest (if mem (upper s) merged then merged else merged ++ upper s ∷ [])

unfoldable pub update :
    Config
    → ℕ
    → List Text
    → List Text
    → Dict Text ℕ
    → Dict Text Text
    → List Text
    → ScanPriorityQueue
    → ScanPriorityQueue
unfolding merge_fast
update c now ranked extended trigger_scores lifecycle fast q =
    let (rotation', (hot', background')) =
      build_scan_slices c now ranked extended trigger_scores lifecycle
        (merge_fast (fast ++ q.pending_fast_track) []) q.rotation in
    record q {
      hot = hot';
      background = background';
      background_index =
          if leb (length background') q.background_index then 0 else q.background_index;
      rotation = rotation';
      pending_fast_track = [];
    }

-- The three lists that the loop of `fast_track` changes; `hot_set` is the set of the upper-case
-- symbols of the hot list.
pub record Promotion : Type 0 where
  pub hot : List Text
  pub background : List Text
  pub added : List Text
  pub rotation : SymbolRotationManager

unfoldable pub promote_one : Text → Promotion → Promotion
promote_one raw p =
    let sym = upper raw in
    if is_empty sym || mem sym (map upper p.hot) then p else record {
      hot = sym ∷ p.hot;
      background = filter (λ s. not (upper s =? sym)) p.background;
      added = p.added ++ sym ∷ [];
      rotation = clear_evaluated (sym ∷ []) p.rotation;
    }

unfoldable pub promote_each : List Text → Promotion → Promotion
promote_each [] p = p
promote_each (raw ∷ rest) p = promote_each rest (promote_one raw p)

-- The overflow of the hot list goes to the front of the background list, unless it is there.
unfoldable pub return_overflow : List Text → List Text → List Text
return_overflow [] background = background
return_overflow (s ∷ rest) background =
    return_overflow rest
      (if mem (upper s) (map upper background) then background else s ∷ background)

abbrev pub cap_of : Config → ℕ
cap_of c = max c.watchlist_size 1

abbrev pub is_none_added : List Text → Bool
is_none_added [] = true
is_none_added (_ ∷ _) = false

unfoldable pub fast_track : Config → List Text → ScanPriorityQueue → ScanPriorityQueue × List Text
unfolding promote_each return_overflow
fast_track c symbols q =
    let p =
      promote_each symbols
        (record { hot = q.hot; background = q.background; added = []; rotation = q.rotation }) in
    if is_none_added symbols then (q, []) else (
      record q {
        hot = take (cap_of c) p.hot;
        background = return_overflow (drop (cap_of c) p.hot) p.background;
        rotation = p.rotation;
        last_hot_scan_at = if is_none_added p.added then q.last_hot_scan_at else 0;
        pending_fast_track = q.pending_fast_track ++ p.added;
      },
      p.added,
    )

unfoldable pub should_run_hot_scan : ℕ → ℕ → ScanPriorityQueue → Bool
should_run_hot_scan interval now q = elim q.hot [
  | [] ↦ false
  | _ ∷ _ ↦ leb (max interval 120000) (now - q.last_hot_scan_at)
]

unfoldable pub mark_hot_scan_complete : ℕ → ScanPriorityQueue → ScanPriorityQueue
mark_hot_scan_complete now q = record q { last_hot_scan_at = now }

unfoldable pub should_run_background_batch : ℕ → ℕ → ScanPriorityQueue → Bool
should_run_background_batch batch_delay now q = elim q.background [
  | [] ↦ false
  | _ ∷ _ ↦ leb (max batch_delay 10000) (now - q.last_background_batch_at)
]

-- `l[index]`, which the callers keep in range.
abbrev pub item : List Text → ℕ → Text
item l index = elim (get_elem? l index) [ none ↦ [] | some s ↦ s ]

-- The loop over `range(n)` of a batch from a pool that is not empty: the index and the batch.
unfoldable pub collect : List Text → ℕ → ℕ → List Text → ℕ × List Text
collect pool zero index batch = (index, batch)
collect pool (suc n) index batch =
    let s = item pool (index % length pool) in
    collect pool n ((index + 1) % length pool) (if mem s batch then batch else batch ++ s ∷ [])

unfoldable pub batch_size : Config → ℕ
batch_size c =
    min (min (max c.rotating_batch_size 1) (max c.background_batch_size 1)) c.watchlist_size

unfoldable pub next_background_batch :
    Config → ℕ → ScanPriorityQueue → ScanPriorityQueue × List Text
unfolding collect batch_size
next_background_batch c now q =
    let n = min (batch_size c) (length q.background) in
    let (index, batch) = collect q.background n q.background_index [] in
    if is_none_added q.background then (q, []) else (
      record q { background_index = index; last_background_batch_at = now; last_batch = batch },
      batch,
    )

unfoldable pub mark_last_background_batch_evaluated :
    (ℕ → ℕ → ℕ → ℕ) → Config → ℕ → ScanPriorityQueue → ScanPriorityQueue
unfolding is_priority
mark_last_background_batch_evaluated randint c now q =
    if is_none_added q.last_batch then q else record q {
      rotation =
          mark_evaluated randint c now (filter (λ s. not (is_priority s q)) q.last_batch)
            q.rotation;
      last_batch = [];
    }

unfoldable pub next_background_bootstrap_symbols :
    Config → Option ℕ → ScanPriorityQueue → ScanPriorityQueue × List Text
unfolding collect
next_background_bootstrap_symbols c count q =
    let wanted : ℕ = elim count [ none ↦ max c.background_batch_size 1 | some n ↦ n ] in
    let n = min wanted (length q.background) in
    let (index, batch) = collect q.background n q.bootstrap_index [] in
    if is_none_added q.background then (q, []) else (record q { bootstrap_index = index }, batch)
