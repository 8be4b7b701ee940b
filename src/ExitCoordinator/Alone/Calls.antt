-- ===== src/ExitCoordinator/Alone/Calls.antt =====
-- exit_coordinator.py: claims and releases, one after the other.
use binance_future_bot.Base.{
  ℕ, ◌+◌, ◌<◌, ◌≤◌, ◌≡◌, true, false, Option, none, some, List, [], ◌∷◌, arith, ◌=?◌, =?_iff,
  text_eq, Bool-cases, inl, inr, All,
}
use binance_future_bot.Base.Text.{Text}
use binance_future_bot.ExitCoordinator.{
  Disk, read_claim, may_overwrite, caller, release_exit, is_blank, ended,
}
use binance_future_bot.ExitCoordinator.Alone.{run, grants, claim_exit-Implements}

pub data Call : Type 0 where
  claimed : Text → ℕ → Call
  released : Option Text → Call

-- The file after a call. All calls have the same time to live.
unfoldable pub after_call : ℕ → Call → Disk → Disk
after_call ttl (claimed owner now) d = (run 7 now (caller owner ttl, d)).1
after_call ttl (released owner) d = release_exit owner d

unfoldable pub after_calls : ℕ → List Call → Disk → Disk
unfolding after_call
after_calls ttl [] d = d
after_calls ttl (call ∷ calls) d = after_calls ttl calls (after_call ttl call d)

-- A claim before the time to live is over, or a release by another than the holder.
abbrev pub Leaves : Text → ℕ → ℕ → Call → Type 0
Leaves holder from ttl (claimed owner now) = (from ≤ now) × (now < from + ttl)
Leaves holder from ttl (released none) = true ≡ false
Leaves holder from ttl (released (some owner)) =
    (is_blank owner ≡ false) × ((holder =? owner) ≡ false)

-- The holder's claim, taken at `from` or later.
pub record Holds (holder : Text) (from : ℕ) (d : Disk) : Type 0 where
  pub timestamp : ℕ
  pub late : from ≤ timestamp
  pub reads : read_claim d ≡ some (record { owner = holder; timestamp = timestamp })

after_call-Holds :
    (ttl from : ℕ) (holder : Text) (call : Call) (d : Disk)
    → Leaves holder from ttl call
    → Holds holder from d
    → Holds holder from (after_call ttl call d)
unfolding after_call release_exit grants may_overwrite
after_call-Holds ttl from holder (claimed owner now) d early h =
    let out = claim_exit-Implements ttl now owner d in
    let file = out.file in
    elim (Bool-cases (holder =? owner)) [
      | inl same ↦
          let at : holder ≡ owner = (=?_iff holder owner).0 same in
          record {
            timestamp = now;
            late = early.0;
            reads = ground (arith, file, h.reads, same, at);
          }
      | inr other ↦ record {
        timestamp = h.timestamp;
        late = h.late;
        reads = ground (arith, file, h.reads, other, h.late, early);
      }
    ]
after_call-Holds ttl from holder (released none) d never h = absurd (cc never)
after_call-Holds ttl from holder (released (some owner)) d other h = record {
  timestamp = h.timestamp;
  late = h.late;
  reads = ground (arith, h.reads, other);
}

after_calls-Holds :
    (ttl from : ℕ) (holder : Text) (calls : List Call) (d : Disk)
    → All (Leaves holder from ttl) calls
    → Holds holder from d
    → Holds holder from (after_calls ttl calls d)
unfolding after_calls
after_calls-Holds ttl from holder [] d early h = h
after_calls-Holds ttl from holder (call ∷ calls) d early h =
    after_calls-Holds ttl from holder calls (after_call ttl call d) early.1
      (after_call-Holds ttl from holder call d early.0 h)

-- Once a holder's claim stands, taken at `from`: until its time to live is over, whatever claims
-- follow one after the other and whatever owners but the holder release, no other owner's claim is
-- granted, and the holder's own is.
pub claim_exit-exclusive :
    (ttl from now : ℕ) (holder owner : Text) (calls : List Call) (d : Disk)
    → read_claim d ≡ some (record { owner = holder; timestamp = from })
    → All (Leaves holder from ttl) calls
    → from ≤ now
    → now < from + ttl
    → (run 7 now (caller owner ttl, after_calls ttl calls d)).0.phase ≡ ended (holder =? owner)
unfolding grants may_overwrite
claim_exit-exclusive ttl from now holder owner calls d holds early late soon =
    let h =
      after_calls-Holds ttl from holder calls d early
        (record { timestamp = from; late = omega arith; reads = holds }) in
    let out = claim_exit-Implements ttl now owner (after_calls ttl calls d) in
    let found = h.reads in
    let by_rule : grants ttl now owner (read_claim (after_calls ttl calls d)) ≡ holder =? owner =
      rw found (ground (arith, h.late, late, soon)) in
    rw (← by_rule) out.answer
