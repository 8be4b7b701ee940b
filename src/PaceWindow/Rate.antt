-- ===== src/PaceWindow/Rate.antt =====
-- core/pace_clock.py: the rate of a window over any sequence of takes.
use mathlib.Core.List.{append_assoc, append-nil}
use binance_future_bot.Base.{
  ℕ, zero, suc, ◌+◌, ◌-◌, ◌≤◌, ◌≡◌, refl, List, [], ◌∷◌, ◌++◌, arith, min, length, true,
}
use binance_future_bot.Base.Window.{
  drop_while, Ordered, within, total, total-append, Bounded, Splits, Splits-later, Splits-drop,
  Splits-append, Bounded-append,
}
use binance_future_bot.PaceWindow.{
  MinuteWindow, new_window, is_old, trim, remaining, copies, take_slots,
}

abbrev one : ℕ → ℕ
one _ = 1

abbrev stamp : ℕ → ℕ
stamp t = t

-- The stamps granted to the takes of `(time, n)`, in order.
unfoldable pub taken : MinuteWindow → List (ℕ × ℕ) → List ℕ
taken w [] = []
taken w ((now, n) ∷ calls) =
    let (w', granted) = take_slots n now w in copies granted now ++ taken w' calls

abbrev pub times : List (ℕ × ℕ) → List ℕ
times [] = []
times ((now, n) ∷ calls) = now ∷ times calls

-- The number of takes granted in [from, from + 60 s).
abbrev pub taken_in_minute : ℕ → List ℕ → ℕ
taken_in_minute from = within stamp one from (from + 60000)

record Tracks (cap now : ℕ) (kept log : List ℕ) : Type 0 where
  splits : Splits stamp one 60000 now log kept
  bounded : Bounded stamp one 60000 cap log

total-one : (l : List ℕ) → total stamp one l ≡ length l
total-one [] = refl
total-one (x ∷ l) = omega (arith, total-one l)

-- Admitting `n` stamps at once keeps the bound while there is room for them.
copies-Tracks :
    (n cap now : ℕ) (kept log : List ℕ)
    → n ≤ cap - length kept
    → Tracks cap now kept log
    → Tracks cap now (kept ++ copies n now) (log ++ copies n now)
copies-Tracks zero cap now kept log room t = rw (append-nil kept, append-nil log) t
copies-Tracks (suc n) cap now kept log room t =
    let next : Tracks cap now (kept ++ now ∷ []) (log ++ now ∷ []) = record {
      splits = Splits-append stamp one (now ∷ []) t.splits;
      bounded =
          Bounded-append stamp one now t.splits t.bounded refl (omega (arith, total-one kept));
    } in
    let size = total-append stamp one kept (now ∷ []) in
    rw (← append_assoc kept (now ∷ []) (copies n now), ← append_assoc log (now ∷ []) (copies n now))
      (copies-Tracks n cap now (kept ++ now ∷ []) (log ++ now ∷ [])
        (omega (arith, size, total-one kept, total-one (kept ++ now ∷ []))) next)

is_old_left : (now x : ℕ) → is_old now x ≡ true → stamp x + 60000 ≤ now
is_old_left now x h = ground arith

take_slots-Tracks :
    (n now later : ℕ) (w : MinuteWindow) (log : List ℕ)
    → now ≤ later
    → Tracks w.per_minute now w.stamps log
    → let (w', granted) = take_slots n later w in
      Tracks w.per_minute later w'.stamps (log ++ copies granted later)
unfolding take_slots remaining trim
take_slots-Tracks n now later w log le t =
    let kept = drop_while (is_old later) w.stamps in
    let cut : Tracks w.per_minute later kept log = record {
      splits =
          Splits-drop stamp one (is_old later) (is_old_left later)
            (Splits-later stamp one le t.splits);
      bounded = t.bounded;
    } in
    let room = w.per_minute - length kept in
    copies-Tracks (min n room) w.per_minute later kept log (omega arith) cut

taken-Tracks :
    (calls : List (ℕ × ℕ)) (now : ℕ) (w : MinuteWindow) (log : List ℕ)
    → Ordered now (times calls)
    → Tracks w.per_minute now w.stamps log
    → Bounded stamp one 60000 w.per_minute (log ++ taken w calls)
unfolding taken take_slots remaining trim
taken-Tracks [] now w log o t = rw append-nil t.bounded
taken-Tracks ((later, n) ∷ calls) now w log o t =
    let (w', granted) = take_slots n later w in
    rw (← append_assoc log (copies granted later) (taken w' calls)) (
      taken-Tracks calls later w' (log ++ copies granted later) o.1
        (take_slots-Tracks n now later w log o.0 t))

-- From a new window, whatever takes are asked for, one or several at a time: as long as the clock
-- never goes back, no interval of 60 seconds holds more granted takes than the window's rate.
pub taken_in_minute-le :
    (per_minute : ℕ) (calls : List (ℕ × ℕ)) (from : ℕ)
    → Ordered 0 (times calls)
    → taken_in_minute from (taken (new_window per_minute) calls) ≤ per_minute
taken_in_minute-le per_minute calls from o =
    taken-Tracks calls 0 (new_window per_minute) [] o
      (record {
        splits = record { older = []; split = refl; left = tt };
        bounded = λ _. omega arith;
      })
      from
