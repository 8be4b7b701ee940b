-- ===== src/ScanQueue/FastTrack.antt =====
-- core/scan_priority_queue.py, `fast_track`: spikes move to the hot list, and no symbol is lost.
use binance_future_bot.Base.{
  ℕ, ◌≤◌, ◌≡◌, refl, ap, true, false, not, ◌&&◌, ◌||◌, List, [], ◌∷◌, map, arith, All, All-take,
  All-drop, All-filtered, Distinct, Distinct-take, Distinct-filter, mem, mem-take-drop,
  take-drop_apart, mem-take, take, drop, filter, length, length-take-le, ◌=?◌, text_eq, Bool-cases,
  inl, inr, ◌∙◌,
}
use binance_future_bot.Base.Text.{Text, upper, upper_idem}
use binance_future_bot.Rotation.{is_empty}
use binance_future_bot.Rotation.Types.{Config}
use binance_future_bot.ScanQueue.{
  ScanPriorityQueue, Promotion, promote_one, promote_each, return_overflow, cap_of, fast_track,
}

-- Both lists hold upper-case symbols, each once, and share none.
pub record Queues (hot background : List Text) : Type 0 where
  pub upper_hot : All (λ s. upper s ≡ s) hot
  pub upper_background : All (λ s. upper s ≡ s) background
  pub distinct_hot : Distinct hot
  pub distinct_background : Distinct background
  pub apart : (s : Text) → mem s hot ≡ true → mem s background ≡ false

map-upper : (l : List Text) → All (λ s. upper s ≡ s) l → map upper l ≡ l
map-upper [] h = refl
map-upper (s ∷ l) h = cc (h.0, map-upper l h.1)

-- Without the symbols that read `sym` in upper case, the rest stays.
mem-without :
    (sym s : Text) (l : List Text)
    → All (λ s. upper s ≡ s) l
    → mem s (filter (λ x. not (upper x =? sym)) l) ≡ (mem s l && not (s =? sym))
mem-without sym s [] h = refl
mem-without sym s (x ∷ l) h =
    let at : (upper x =? sym) ≡ (x =? sym) = ap (λ y. y =? sym) h.0 in
    let rest = mem-without sym s l h.1 in
    elim (Bool-cases (x =? s)) [
      | inl same ↦
          let is_s : (x =? sym) ≡ (s =? sym) = ap (λ y. y =? sym) ((text_eq.beq_iff x s).0 same) in
          ground arith
      | inr other ↦ ground arith
    ]

promote_one-Queues :
    (raw : Text) (p : Promotion)
    → Queues p.hot p.background
    → Queues (promote_one raw p).hot (promote_one raw p).background
unfolding promote_one
promote_one-Queues raw p w =
    let sym = upper raw in
    let same_hot = map-upper p.hot w.upper_hot in
    elim (Bool-cases (is_empty sym || mem sym (map upper p.hot))) [
      | inl skipped ↦ rw (skipped, promote_one) w
      | inr new ↦
          rw (new, promote_one)
            (record {
              upper_hot = (upper_idem raw, w.upper_hot);
              upper_background = All-filtered _ _ p.background w.upper_background;
              distinct_hot = (ground arith, w.distinct_hot);
              distinct_background = Distinct-filter _ p.background w.distinct_background;
              apart = λ s h. ground (
                arith,
                mem-without sym s p.background w.upper_background,
                w.apart s,
                text_eq.beq_iff sym s,
                text_eq.beq_iff s sym,
              );
            })
    ]

-- A step adds its symbol to the hot list, if it has one, and loses nothing.
promote_one-mem :
    (raw : Text) (p : Promotion) (s : Text)
    → Queues p.hot p.background
    → (mem s p.hot || mem s p.background) ≡ true
    → (mem s (promote_one raw p).hot || mem s (promote_one raw p).background) ≡ true
unfolding promote_one
promote_one-mem raw p s w h =
    let sym = upper raw in
    elim (Bool-cases (is_empty sym || mem sym (map upper p.hot))) [
      | inl skipped ↦ rw (skipped, promote_one) h
      | inr new ↦
          rw (new, promote_one)
            (ground (
              arith,
              mem-without sym s p.background w.upper_background,
              text_eq.beq_iff sym s,
              text_eq.beq_iff s sym,
            ))
    ]

promote_each-Queues :
    (symbols : List Text) (p : Promotion)
    → Queues p.hot p.background
    → Queues (promote_each symbols p).hot (promote_each symbols p).background
unfolding promote_each
promote_each-Queues [] p w = w
promote_each-Queues (raw ∷ rest) p w =
    promote_each-Queues rest (promote_one raw p) (promote_one-Queues raw p w)

promote_each-mem :
    (symbols : List Text) (p : Promotion) (s : Text)
    → Queues p.hot p.background
    → (mem s p.hot || mem s p.background) ≡ true
    → (mem s (promote_each symbols p).hot || mem s (promote_each symbols p).background) ≡ true
unfolding promote_each
promote_each-mem [] p s w h = h
promote_each-mem (raw ∷ rest) p s w h =
    promote_each-mem rest (promote_one raw p) s (promote_one-Queues raw p w)
      (promote_one-mem raw p s w h)

-- Upper-case symbols, each once.
record Proper (l : List Text) : Type 0 where
  upper_all : All (λ s. upper s ≡ s) l
  distinct : Distinct l

return_overflow-Proper :
    (overflow background : List Text)
    → All (λ s. upper s ≡ s) overflow
    → Proper background
    → Proper (return_overflow overflow background)
      × ((s : Text)
          → mem s (return_overflow overflow background) ≡ (mem s overflow || mem s background))
unfolding return_overflow
return_overflow-Proper [] background u w = (w, λ s. refl)
return_overflow-Proper (x ∷ rest) background u w =
    let same = map-upper background w.upper_all in
    let test : mem (upper x) (map upper background) ≡ mem x background = cc (same, u.0) in
    elim (Bool-cases (mem x background)) [
      | inl there ↦
          let (proper, holds) = return_overflow-Proper rest background u.1 w in
          rw (test, there, return_overflow) (proper, λ s. at s there (holds s))
      | inr new ↦
          let bigger : Proper (x ∷ background) = record {
            upper_all = (u.0, w.upper_all);
            distinct = (new, w.distinct);
          } in
          let (proper, holds) = return_overflow-Proper rest (x ∷ background) u.1 bigger in
          rw (test, new, return_overflow) (proper, λ s. ground (arith, holds s))
    ]
  where
    at :
        (s : Text)
        → mem x background ≡ true
        → mem s (return_overflow rest background) ≡ (mem s rest || mem s background)
        → mem s (return_overflow rest background) ≡ (mem s (x ∷ rest) || mem s background)
    at s there h = elim (Bool-cases (x =? s)) [
      | inl same ↦
          let moved : mem x background ≡ mem s background =
            ap (λ y. mem y background) ((text_eq.beq_iff x s).0 same) in
          ground arith
      | inr other ↦ ground arith
    ]

-- If the two lists hold upper-case symbols, each once, and share none, then so they do after
-- `fast_track`; the hot list is then at most as long as its cap, unless no symbol was named; and
-- each symbol that was on one of the lists is on one of them still.
pub fast_track-Queues :
    (c : Config) (raw : Text) (rest : List Text) (q : ScanPriorityQueue)
    → Queues q.hot q.background
    → let q' = (fast_track c (raw ∷ rest) q).0 in
      Queues q'.hot q'.background
      × (length q'.hot ≤ cap_of c)
      × ((s : Text)
          → (mem s q.hot || mem s q.background) ≡ true
          → (mem s q'.hot || mem s q'.background) ≡ true)
unfolding fast_track
fast_track-Queues c raw rest q w =
    let start : Promotion = record {
      hot = q.hot;
      background = q.background;
      added = [];
      rotation = q.rotation;
    } in
    let p = promote_each (raw ∷ rest) start in
    let k = promote_each-Queues (raw ∷ rest) start w in
    let n = cap_of c in
    let (proper, holds) =
      return_overflow-Proper (drop n p.hot) p.background (All-drop _ n p.hot k.upper_hot)
        (record { upper_all = k.upper_background; distinct = k.distinct_background }) in
    (
      record {
        upper_hot = All-take _ n p.hot k.upper_hot;
        upper_background = proper.upper_all;
        distinct_hot = Distinct-take n p.hot k.distinct_hot;
        distinct_background = proper.distinct;
        apart = λ s h.
            let out = k.apart s (mem-take n s p.hot h) in
            let cut = take-drop_apart n s p.hot k.distinct_hot h in holds s ∙ cc (out, cut);
      },
      length-take-le n p.hot,
      λ s h.
          let kept = promote_each-mem (raw ∷ rest) start s w h in
          either s n p.hot p.background _ (mem-take-drop n s p.hot) (holds s) kept,
    )
  where
    either :
        (s : Text) (n : ℕ) (hot background after : List Text)
        → mem s hot ≡ (mem s (take n hot) || mem s (drop n hot))
        → mem s after ≡ (mem s (drop n hot) || mem s background)
        → (mem s hot || mem s background) ≡ true
        → (mem s (take n hot) || mem s after) ≡ true
    either s n hot background after cut holds kept = ground arith
