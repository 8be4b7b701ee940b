-- ===== src/Funnel/Scan/Recent.antt =====
-- core/tier_funnel.py: the list of the coins that the Normal tier scanned last.
use binance_future_bot.Base.{
  ℕ, zero, suc, ◌-◌, ◌<◌, ◌≤◌, ◌≡◌, refl, true, false, ◌||◌, List, [], ◌∷◌, arith, ltb, length,
  drop, mem, Bool-cases, inl, inr, text_eq, =?_iff, Distinct, Distinct-drop,
}
use binance_future_bot.Base.Text.{Text, upper}
use binance_future_bot.Base.Sets.{discard, mem-discard, discard-Distinct}
use binance_future_bot.Funnel.Types.{Config, TierFunnel}
use binance_future_bot.Funnel.{is_blank, note_scanned, bounded}

length-discard-le : (k : Text) (l : List Text) → length (discard k l) ≤ length l
unfolding discard
length-discard-le k [] = omega arith
length-discard-le k (x ∷ l) = ground (arith, length-discard-le k l)

length-discard-mem : (k : Text) (l : List Text) → mem k l ≡ true → length (discard k l) < length l
unfolding discard
length-discard-mem k [] h = absurd (cc h)
length-discard-mem k (x ∷ l) h =
    ground (arith, length-discard-mem k l, length-discard-le k l, =?_iff x k, =?_iff k x)

length-discard_absent :
    (k : Text) (l : List Text) → mem k l ≡ false → length (discard k l) ≡ length l
unfolding discard
length-discard_absent k [] h = refl
length-discard_absent k (x ∷ l) h =
    ground (arith, length-discard_absent k l, =?_iff x k, =?_iff k x)

length-drop : (n : ℕ) (l : List Text) → length (drop n l) ≡ length l - n
length-drop zero l = omega arith
length-drop (suc n) [] = omega arith
length-drop (suc n) (x ∷ l) = omega (arith, length-drop n l)

-- The list of a window: each coin once, and no more than its bound.
pub record IsRecent (cap : ℕ) (l : List Text) : Type 0 where
  pub once : Distinct l
  pub bound : length l ≤ cap

-- After a scan the list has each coin once and keeps to its bound. The scanned coin is in it if it
-- was there or the list was not full, and only then.
pub note_scanned-IsRecent :
    (c : Config) (symbol : Text) (m : TierFunnel)
    → is_blank (upper symbol) ≡ false
    → IsRecent m.recent_cap m.recently_scanned
    → IsRecent m.recent_cap (note_scanned c symbol m).recently_scanned
      × (mem (upper symbol) (note_scanned c symbol m).recently_scanned
          ≡ (mem (upper symbol) m.recently_scanned || ltb (length m.recently_scanned) m.recent_cap))
unfolding note_scanned bounded
note_scanned-IsRecent c symbol m named r =
    let key = upper symbol in
    let old = m.recently_scanned in
    let kept = discard key old in
    let n = suc (length kept) - m.recent_cap in
    let same : (note_scanned c symbol m).recently_scanned ≡ drop n (key ∷ kept) = ground arith in
    let fresh : mem key kept ≡ false = ground (arith, mem-discard key key old, =?_iff key key) in
    let distinct : Distinct (key ∷ kept) = (fresh, discard-Distinct key old r.once) in
    let size = length-drop n (key ∷ kept) in
    let small = length-discard-le key old in
    let recent : IsRecent m.recent_cap (note_scanned c symbol m).recently_scanned =
      rw same (record {
        once = Distinct-drop n (key ∷ kept) distinct;
        bound = ground (arith, size, small, r.bound);
      }) in
    let room : (mem key old || ltb (length old) m.recent_cap) ≡ ltb (length kept) m.recent_cap =
      ground (arith, length-discard-mem key old, length-discard_absent key old, r.bound) in
    elim (Bool-cases (ltb (length kept) m.recent_cap)) [
      | inl fits ↦
          let none_left : n ≡ 0 = ground (arith, fits) in
          (recent, rw (same, room, fits, none_left) (ground (arith, =?_iff key key)))
      | inr full ↦
          let one_left : n ≡ 1 = ground (arith, full, small, r.bound) in
          let rest : drop n (key ∷ kept) ≡ kept = rw one_left refl in
          (recent, rw (same, room, full, rest) fresh)
    ]
