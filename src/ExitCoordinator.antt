-- ===== src/ExitCoordinator.antt =====
-- exit_coordinator.py: the right to close a trade, by one claim file for each trade. The model is of
-- the file of one trade; `claim_exit` is a machine of its system calls, which processes interleave. A
-- file that is open keeps its content when its name is removed or given to another file. Times are
-- milliseconds, and the file system refuses nothing.
pub mod Alone
pub mod Together
use binance_future_bot.Base.{
  ℕ, zero, suc, ◌-◌, Bool, true, false, ◌&&◌, ◌||◌, not, Option, none, some, List, [], ◌∷◌, ltb,
  leb, if◌then◌else◌, ◌=?◌, text_eq, nat_eq,
}
use binance_future_bot.Base.Text.{Text}
use binance_future_bot.Base.Dict.{Dict, lookup, insert}

pub record Claim : Type 0 where
  pub owner : Text
  pub timestamp : ℕ

-- The file that the path names, if any, and what the files hold: `none` where `_read_claim` finds
-- no claim, as in a file that is not yet written.
pub record Disk : Type 0 where
  pub entry : Option ℕ
  pub contents : Dict ℕ (Option Claim)
  pub next : ℕ

-- `_read_claim`
unfoldable pub read_claim : Disk → Option Claim
unfolding lookup
read_claim d = elim d.entry [
  | none ↦ none
  | some file ↦ elim (lookup file d.contents) [ none ↦ none | some content ↦ content ]
]

abbrev pub is_blank : Text → Bool
is_blank [] = true
is_blank (_ ∷ _) = false

-- The test before the file is opened.
unfoldable pub refused_by : ℕ → ℕ → Text → Option Claim → Bool
refused_by ttl now owner none = false
refused_by ttl now owner (some c) =
    ltb (now - c.timestamp) ttl && not (is_blank c.owner) && not (c.owner =? owner)

-- The test after the file was found to exist.
unfoldable pub may_overwrite : ℕ → ℕ → Text → Claim → Bool
may_overwrite ttl now owner c = c.owner =? owner || leb ttl (now - c.timestamp)

-- Where a call of `claim_exit` is.
pub data Phase : Type 0 where
  starting opening reading removing truncating : Phase
  writing rewriting : ℕ → Phase
  ended : Bool → Phase

pub record Caller : Type 0 where
  pub owner : Text
  pub ttl : ℕ
  pub now : ℕ
  pub phase : Phase

abbrev pub write_file : ℕ → Option Claim → Disk → Disk
write_file file content d = record d { contents = insert file content d.contents }

-- A new, empty file under the path.
unfoldable pub create_file : Disk → Disk
unfolding insert
create_file d = record {
  entry = some d.next;
  contents = insert d.next none d.contents;
  next = suc d.next;
}

abbrev pub at_phase : Phase → Caller → Caller
at_phase phase p = record p { phase = phase }

-- The next system call, at the clock's reading, which a start keeps.
unfoldable pub advance : ℕ → Caller → Disk → Caller × Disk
unfolding read_claim refused_by may_overwrite create_file
advance clock p d =
    let mine : Claim = record { owner = p.owner; timestamp = p.now } in
    elim p.phase [
      | starting ↦ (
        record p {
          now = clock;
          phase = if refused_by p.ttl clock p.owner (read_claim d) then ended false else opening;
        },
        d,
      )
      | opening ↦ elim d.entry [
        | none ↦ (at_phase (writing d.next) p, create_file d)
        | some _ ↦ (at_phase reading p, d)
      ]
      | writing file ↦ (at_phase (ended true) p, write_file file (some mine) d)
      | reading ↦ elim (read_claim d) [
        | none ↦ (at_phase removing p, d)
        | some c ↦ (
          at_phase (if may_overwrite p.ttl p.now p.owner c then truncating else ended false) p,
          d,
        )
      ]
      | removing ↦ (at_phase starting p, record d { entry = none })
      | truncating ↦ elim d.entry [
        | none ↦ (at_phase (rewriting d.next) p, create_file d)
        | some file ↦ (at_phase (rewriting file) p, write_file file none d)
      ]
      | rewriting file ↦ (at_phase (ended true) p, write_file file (some mine) d)
      | ended answer ↦ (p, d)
    ]

abbrev pub caller : Text → ℕ → Caller
caller owner ttl = record { owner = owner; ttl = ttl; now = 0; phase = starting }

-- `release_exit`, with no owner for a release of whatever claim is there
unfoldable pub release_exit : Option Text → Disk → Disk
unfolding read_claim
release_exit owner d =
    let removed : Disk = record d { entry = none } in
    let asked : Text = elim owner [ none ↦ [] | some o ↦ o ] in
    if is_blank asked
    then removed
    else elim (read_claim d) [ none ↦ d | some c ↦ if c.owner =? asked then removed else d ]

-- `get_exit_claim_owner`, for owners without spaces around them
unfoldable pub get_exit_claim_owner : ℕ → ℕ → Disk → Option Text
unfolding read_claim
get_exit_claim_owner ttl now d = elim (read_claim d) [
  | none ↦ none
  | some c ↦
      if leb ttl (now - c.timestamp) then none else if is_blank c.owner then none else some c.owner
]

unfoldable pub exit_claim_active : ℕ → ℕ → Disk → Bool
unfolding read_claim
exit_claim_active ttl now d = elim (read_claim d) [
  | none ↦ false
  | some c ↦ ltb (now - c.timestamp) ttl
]
