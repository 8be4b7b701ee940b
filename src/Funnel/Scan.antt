-- ===== src/Funnel/Scan.antt =====
-- core/tier_funnel.py: which coins a turn of the Normal tier gives.
pub mod RoundRobin
pub mod Recent
use native.Mathlib.Nat.{mod-lt, mod-add-mod, mod-eq_of_lt}
use binance_future_bot.Base.{
  ℕ, zero, suc, ◌+◌, ◌-◌, ◌*◌, ◌<◌, ◌≤◌, ◌%◌, ◌≡◌, refl, ap, sym, ◌∙◌, Bool, true, false, ◌&&◌,
  ◌||◌, not, Option, none, some, List, [], ◌∷◌, ◌++◌, arith, ltb, leb, if◌then◌else◌, length, drop,
  mem, ◌=?◌, Bool-cases, Option-cases, inl, inr, text_eq, All, All-append, Distinct,
  Distinct-append_one,
}
use binance_future_bot.Base.Text.{Text, upper}
use binance_future_bot.Base.Dict.{keys}
use binance_future_bot.PaceWindow.{take_slots}
use binance_future_bot.Funnel.Types.{Config, TierFunnel}
use binance_future_bot.Funnel.{
  is_blank, is_nil, is_blocked, collect_keys, scan_pool, ingest_from, ingest_one, nth, next_of_pool,
  next_normal_symbol, take_normal, note_scanned,
}

-- A symbol that a turn may give: not blank, and in neither tier.
abbrev pub IsFree : TierFunnel → Text → Type 0
IsFree m s = (is_blank s || is_blocked m s) ≡ false

All-collect_keys :
    (out : Text → Bool) (l seen : List Text)
    → All (λ s. (is_blank s || out s) ≡ false) seen
    → All (λ s. (is_blank s || out s) ≡ false) (collect_keys out l seen)
unfolding collect_keys
All-collect_keys out [] seen h = h
All-collect_keys out (raw ∷ rest) seen h =
    let key = upper raw in
    elim (Bool-cases (is_blank key || out key || mem key seen)) [
      | inl left ↦ rw left (All-collect_keys out rest seen h)
      | inr taken ↦
          let free : (is_blank key || out key) ≡ false = ground arith in
          rw taken (
            All-collect_keys out rest (seen ++ key ∷ [])
              (All-append (λ s. (is_blank s || out s) ≡ false) seen (key ∷ []) h (free, tt)))
    ]

pub collect_keys-Distinct :
    (out : Text → Bool) (l seen : List Text) → Distinct seen → Distinct (collect_keys out l seen)
unfolding collect_keys
collect_keys-Distinct out [] seen h = h
collect_keys-Distinct out (raw ∷ rest) seen h =
    let key = upper raw in
    elim (Bool-cases (is_blank key || out key || mem key seen)) [
      | inl left ↦ rw left (collect_keys-Distinct out rest seen h)
      | inr taken ↦
          let new : mem key seen ≡ false = ground arith in
          rw taken
            (collect_keys-Distinct out rest (seen ++ key ∷ []) (Distinct-append_one key seen h new))
    ]

All-nth : (P : Text → Type 0) (l : List Text) (i : ℕ) → All P l → i < length l → P (nth l i)
All-nth P [] i h below = absurd (omega arith)
All-nth P (x ∷ l) zero h below = h.0
All-nth P (x ∷ l) (suc i) h below = All-nth P l i h.1 (omega (arith, below))

pub All-scan_pool : (m : TierFunnel) → All (IsFree m) (scan_pool m)
unfolding scan_pool
All-scan_pool m = All-collect_keys (is_blocked m) (m.normal ++ m.demoted_hold) [] tt

is_nil-length : (l : List Text) → is_nil l ≡ false → 0 < length l
is_nil-length [] h = cc
is_nil-length (x ∷ l) h = omega arith

next_of_pool-IsFree : (m : TierFunnel) (s : Text) → (next_of_pool m).1 ≡ some s → IsFree m s
unfolding next_of_pool
next_of_pool-IsFree m s h =
    let pool = scan_pool m in
    let start = if leb (length pool) m.normal_index then 0 else m.normal_index in
    elim (Bool-cases (is_nil pool)) [
      | inl empty ↦ ground arith
      | inr full ↦
          let at =
            All-nth (IsFree m) pool (start % length pool) (All-scan_pool m)
              (mod-lt start (is_nil-length pool full)) in
          let same : nth pool (start % length pool) ≡ s = ground arith in rw (sym same) at
    ]

ingest_from-IsFree :
    (out : Text → Bool) (l : List Text) (index : ℕ) (s : Text)
    → (ingest_from out l index).1 ≡ some s
    → (is_blank s || out s) ≡ false
unfolding ingest_from
ingest_from-IsFree out [] index s h = cc
ingest_from-IsFree out (key ∷ rest) index s h =
    ground (arith, ingest_from-IsFree out rest (index + 1) s)

ingest_one-IsFree : (m : TierFunnel) (s : Text) → (ingest_one m).1 ≡ some s → IsFree m s
unfolding ingest_one
ingest_one-IsFree m s h =
    ground
      (arith, ingest_from-IsFree (is_blocked m) (drop m.ingest_index m.candidates) m.ingest_index s)

-- Only the Hot and the Super tier decide whether a coin is free.
ingest_one-is_blocked : (m : TierFunnel) (s : Text) → is_blocked (ingest_one m).0 s ≡ is_blocked m s
unfolding ingest_one is_blocked
ingest_one-is_blocked m s = ground arith

next_normal_symbol-IsFree :
    (m : TierFunnel) (s : Text) → (next_normal_symbol m).1 ≡ some s → IsFree m s
unfolding next_normal_symbol
next_normal_symbol-IsFree m s h = ground (
  arith,
  ingest_one-IsFree m s,
  ingest_one-is_blocked m s,
  next_of_pool-IsFree m s,
  next_of_pool-IsFree (ingest_one m).0 s,
)

-- A coin that a turn of the Normal tier gives is not blank, and in neither the Hot nor the Super
-- tier.
take_normal-free :
    (c : Config) (now : ℕ) (m : TierFunnel) (s : Text)
    → (take_normal c now m).1 ≡ some s
    → (is_blank s ≡ false) × (mem s (keys m.hot) ≡ false) × (mem s (keys m.super) ≡ false)
unfolding take_normal is_blocked
take_normal-free c now m s h =
    let m1 : TierFunnel = record m { normal_clock = (take_slots 1 now m.normal_clock).0 } in
    let next = next_normal_symbol-IsFree m1 s in
    elim (Option-cases (next_normal_symbol m1).1) [
      | inl nothing ↦ ground arith
      | inr (symbol, found) ↦
          let same : symbol ≡ s = ground arith in
          let free = next (cc (found, same)) in (ground arith, ground arith, ground arith)
    ]
