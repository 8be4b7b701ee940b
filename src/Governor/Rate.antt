-- ===== src/Governor/Rate.antt =====
-- The rate that the governor enforces over any sequence of requests.
use mathlib.Core.List.{append-nil, append_assoc}
use binance_future_bot.Base.{
  ℕ, ◌+◌, ◌≤◌, ◌≡◌, refl, true, Option, List, [], ◌∷◌, ◌++◌, arith, leb, length, Bool-cases, inl,
  inr,
}
use binance_future_bot.Base.Window.{
  drop_while, Ordered, within, total, Bounded, Splits, Splits-later, Splits-drop, Splits-append,
  Bounded-append,
}
use binance_future_bot.Settings.{Settings}
use binance_future_bot.Governor.{
  ExecutionGovernor, Answer, allowed, deferred, new_governor, limit_of, expired, allow_entry_order,
}

abbrev pub one : ℕ → ℕ
one _ = 1

abbrev pub stamp : ℕ → ℕ
stamp t = t

-- What one answer adds to the log of allowed requests.
abbrev pub logged : Answer → ℕ → List ℕ
logged allowed now = now ∷ []
logged (deferred _) now = []

-- The times at which the requests made at `times` were allowed, in order.
unfoldable pub granted : Settings → ExecutionGovernor → List ℕ → List ℕ
granted s g [] = []
granted s g (now ∷ times) =
    let (g', answer) = allow_entry_order s now g in logged answer now ++ granted s g' times

-- The number of requests allowed in [from, from + 60 s).
abbrev pub granted_in_minute : ℕ → List ℕ → ℕ
granted_in_minute from = within stamp one from (from + 60000)

total-one : (l : List ℕ) → total stamp one l ≡ length l
total-one [] = refl
total-one (x ∷ l) = omega (arith, total-one l)

record Tracks (s : Settings) (limit now : ℕ) (g : ExecutionGovernor) (log : List ℕ) : Type 0 where
  same : limit_of s g ≡ limit
  splits : Splits stamp one 60000 now log g.stamps
  bounded : Bounded stamp one 60000 limit log

expired_left : (now x : ℕ) → expired now x ≡ true → stamp x + 60000 ≤ now
expired_left now x h = ground arith

-- One request keeps the tracking, whichever way it is answered.
allow_entry_order-Tracks :
    {s : Settings} {limit now later : ℕ} {g : ExecutionGovernor} {log : List ℕ}
    → now ≤ later
    → Tracks s limit now g log
    → Tracks s limit later
        (allow_entry_order s later g).0
        (log ++ logged (allow_entry_order s later g).1 later)
unfolding allow_entry_order limit_of
allow_entry_order-Tracks {s} {limit} {now} {later} {g} {log} le t =
    elim (Bool-cases (leb (limit_of s g) (length kept))) [
      | inl full ↦
          rw (full, append-nil) (record { same = t.same; splits = cut; bounded = t.bounded })
      | inr room ↦ rw room (record {
        same = t.same;
        splits = Splits-append stamp one (later ∷ []) cut;
        bounded =
            Bounded-append stamp one later cut t.bounded refl
              (let h = t.same in ground (arith, total-one kept));
      })
    ]
  where
    kept : List ℕ
    kept = drop_while (expired later) g.stamps

    cut : Splits stamp one 60000 later log kept
    cut =
        Splits-drop stamp one (expired later) (expired_left later)
          (Splits-later stamp one le t.splits)

granted-Tracks :
    (s : Settings) (limit now : ℕ) (g : ExecutionGovernor) (log times : List ℕ)
    → Ordered now times
    → Tracks s limit now g log
    → Bounded stamp one 60000 limit (log ++ granted s g times)
unfolding granted
granted-Tracks s limit now g log [] o t = rw append-nil t.bounded
granted-Tracks s limit now g log (later ∷ times) o t =
    let (g', answer) = allow_entry_order s later g in
    rw (← append_assoc log (logged answer later) (granted s g' times)) (
      granted-Tracks s limit later g' (log ++ logged answer later) times o.1
        (allow_entry_order-Tracks o.0 t))

-- From a new governor, whatever the requests: as long as the clock never goes back, no interval of
-- 60 seconds holds more allowed requests than the governor's limit.
pub granted_in_minute-le :
    (s : Settings) (max_per_minute : Option ℕ) (times : List ℕ) (from : ℕ)
    → Ordered 0 times
    → granted_in_minute from (granted s (new_governor max_per_minute) times)
      ≤ limit_of s (new_governor max_per_minute)
unfolding new_governor
granted_in_minute-le s max_per_minute times from o =
    granted-Tracks s _ 0 (new_governor max_per_minute) [] times o
      (record {
        same = refl;
        splits = record { older = []; split = refl; left = tt };
        bounded = λ _. omega arith;
      })
      from
