-- ===== src/Funnel/Scan/RoundRobin.antt =====
-- core/tier_funnel.py: the rotation of the Normal tier over its pool, once the candidates of the
-- window are ingested.
use native.Mathlib.Nat.{mod-lt, mod-add-mod, mod-eq_of_lt, mod-eq-sub-mod}
use binance_future_bot.Base.{
  ℕ, zero, suc, ◌+◌, ◌-◌, ◌<◌, ◌≤◌, ◌%◌, ◌≡◌, refl, ap, ◌∙◌, true, false, some, List, [], ◌∷◌,
  arith, leb, if◌then◌else◌, length, mem, ◌=?◌, Bool-cases, inl, inr, text_eq, =?_iff, max,
}
use binance_future_bot.Base.Text.{Text}
use binance_future_bot.Funnel.Types.{TierFunnel}
use binance_future_bot.Funnel.{is_blocked, scan_pool, nth, next_of_pool, is_nil}

-- The state after `k` turns of the pool.
unfoldable pub after_turns : ℕ → TierFunnel → TierFunnel
after_turns zero m = m
after_turns (suc k) m = after_turns k (next_of_pool m).0

-- Where the next turn starts.
unfoldable start_of : TierFunnel → ℕ
start_of m = if leb (length (scan_pool m)) m.normal_index then 0 else m.normal_index

next_of_pool-pool : (m : TierFunnel) → scan_pool (next_of_pool m).0 ≡ scan_pool m
unfolding next_of_pool scan_pool is_blocked
next_of_pool-pool m = ground arith

is_nil-no : (l : List Text) → 0 < length l → is_nil l ≡ false
is_nil-no [] h = absurd (omega arith)
is_nil-no (x ∷ l) h = refl

start_of-lt : (m : TierFunnel) → 0 < length (scan_pool m) → start_of m < length (scan_pool m)
unfolding start_of
start_of-lt m h = ground arith

next_of_pool-index :
    (m : TierFunnel)
    → 0 < length (scan_pool m)
    → (next_of_pool m).0.normal_index ≡ (start_of m + 1) % length (scan_pool m)
unfolding next_of_pool start_of
next_of_pool-index m h =
    let full = is_nil-no (scan_pool m) h in
    let same : max (length (scan_pool m)) 1 ≡ length (scan_pool m) = ground arith in ground arith

next_of_pool-start :
    (m : TierFunnel)
    → 0 < length (scan_pool m)
    → start_of (next_of_pool m).0 ≡ (start_of m + 1) % length (scan_pool m)
unfolding start_of
next_of_pool-start m h =
    let below = mod-lt (start_of m + 1) h in
    ground (arith, next_of_pool-index m h, next_of_pool-pool m)

next_of_pool-gives :
    (m : TierFunnel)
    → 0 < length (scan_pool m)
    → (next_of_pool m).1 ≡ some (nth (scan_pool m) (start_of m % length (scan_pool m)))
unfolding next_of_pool start_of
next_of_pool-gives m h = let full = is_nil-no (scan_pool m) h in ground arith

after_turns-gives :
    (k : ℕ) (m : TierFunnel)
    → 0 < length (scan_pool m)
    → (next_of_pool (after_turns k m)).1
      ≡ some (nth (scan_pool m) ((start_of m + k) % length (scan_pool m)))
unfolding after_turns
after_turns-gives zero m h =
    let same : start_of m + 0 ≡ start_of m = omega arith in rw same (next_of_pool-gives m h)
after_turns-gives (suc k) m h =
    let n = length (scan_pool m) in
    let m' = (next_of_pool m).0 in
    let pool = next_of_pool-pool m in
    let h' : 0 < length (scan_pool m') = rw pool h in
    let sum : start_of m + 1 + k ≡ start_of m + suc k = omega arith in
    let index : (start_of m' + k) % n ≡ (start_of m + suc k) % n =
      rw (next_of_pool-start m h) (mod-add-mod (start_of m + 1) n k ∙ ap (λ x. x % n) sum) in
    cc (after_turns-gives k m' h', pool, index)

mem-nth : (s : Text) (l : List Text) → mem s l ≡ true → (j : ℕ) × (j < length l) × (nth l j ≡ s)
mem-nth s [] h = absurd (cc h)
mem-nth s (x ∷ l) h = elim (Bool-cases (x =? s)) [
  | inl same ↦ (0, omega arith, (=?_iff x s).0 same)
  | inr other ↦ let (j, below, at) = mem-nth s l (ground arith) in (suc j, omega (arith, below), at)
]

-- The turn at which the rotation that stands at `start` comes to `j`.
turn_at : (n start j : ℕ) → start < n → j < n → (k : ℕ) × (k < n) × ((start + k) % n ≡ j)
turn_at n start j below at = elim (Bool-cases (leb start j)) [
  | inl after ↦
      let sum : start + (j - start) ≡ j = ground arith in
      (j - start, ground arith, ap (λ x. x % n) sum ∙ mod-eq_of_lt at)
  | inr before ↦
      let less : j < start = ground arith in
      let sum : start + (n + j - start) ≡ j + n = omega (arith, below) in
      let enough : n ≤ j + n = omega arith in
      let back : j + n - n ≡ j = omega arith in
      let wrap : (j + n) % n ≡ j % n = mod-eq-sub-mod enough ∙ ap (λ x. x % n) back in
      (n + j - start, omega (arith, less, below), ap (λ x. x % n) sum ∙ (wrap ∙ mod-eq_of_lt at))
]

-- Each coin of the pool is given by one of the next turns of the pool, of which there are as many
-- as the pool has coins.
pub next_of_pool-visits :
    (m : TierFunnel) (s : Text)
    → mem s (scan_pool m) ≡ true
    → (k : ℕ) × (k < length (scan_pool m)) × ((next_of_pool (after_turns k m)).1 ≡ some s)
next_of_pool-visits m s h =
    let (j, below, at) = mem-nth s (scan_pool m) h in
    let some_left : 0 < length (scan_pool m) = omega (arith, below) in
    let (k, soon, there) =
      turn_at (length (scan_pool m)) (start_of m) j (start_of-lt m some_left) below in
    (k, soon, cc (after_turns-gives k m some_left, there, at))
