-- ===== src/ExitCoordinator/Alone.antt =====
-- exit_coordinator.py: a call of `claim_exit` that no other call runs into.
pub mod Calls
use binance_future_bot.Base.{
  ℕ, zero, suc, ◌-◌, ◌+◌, ◌≡◌, refl, ap, ◌∙◌, Bool, true, false, ◌&&◌, ◌||◌, not, Option, none,
  some, List, [], ◌∷◌, arith, ltb, leb, ◌==◌, if◌then◌else◌, ◌=?◌, text_eq, nat_eq, Bool-cases,
  Option-cases, inl, inr, =?_iff, ==_iff,
}
use binance_future_bot.Base.Text.{Text}
use binance_future_bot.Base.Dict.{Dict, lookup, insert, lookup-insert}
use binance_future_bot.ExitCoordinator.{
  Claim, Disk, Caller, Phase, starting, opening, reading, removing, truncating, writing, rewriting,
  ended, read_claim, refused_by, may_overwrite, advance, create_file, caller, is_blank,
}

-- System calls at one reading of the clock.
unfoldable pub run : ℕ → ℕ → Caller × Disk → Caller × Disk
run zero now s = s
run (suc n) now (p, d) = run n now (advance now p d)

-- What a call promises: whether it is granted.
unfoldable pub grants : ℕ → ℕ → Text → Option Claim → Bool
unfolding may_overwrite
grants ttl now owner none = true
grants ttl now owner (some c) = may_overwrite ttl now owner c

-- What the file says after the call.
abbrev pub claim_after : ℕ → ℕ → Text → Option Claim → Option Claim
claim_after ttl now owner before =
    if grants ttl now owner before then some (record { owner = owner; timestamp = now }) else before

-- The call is over, with the promised answer and the promised file.
pub record Implements (ttl now : ℕ) (owner : Text) (before : Option Claim) (out : Caller × Disk)
    : Type 0 where
  pub answer : out.0.phase ≡ ended (grants ttl now owner before)
  pub file : read_claim out.1 ≡ claim_after ttl now owner before

run-ended :
    (n now : ℕ) (p : Caller) (answer : Bool) (d : Disk)
    → p.phase ≡ ended answer
    → run n now (p, d) ≡ (p, d)
unfolding run advance
run-ended zero now p answer d h = refl
run-ended (suc n) now p answer d h =
    let still : advance now p d ≡ (p, d) = rw h refl in
    ap (run n now) still ∙ run-ended n now p answer d h

Implements-of :
    {ttl now : ℕ} {owner : Text} {before : Option Claim} {s t : Caller × Disk}
    → t ≡ s
    → Implements ttl now owner before s
    → Implements ttl now owner before t
Implements-of e h = rw e h

-- A call under way.
abbrev under_way : ℕ → ℕ → Text → Phase → Caller
under_way ttl now owner phase = record { owner = owner; ttl = ttl; now = now; phase = phase }

abbrev disk_of : Option ℕ → Dict ℕ (Option Claim) → ℕ → Disk
disk_of entry contents next = record { entry = entry; contents = contents; next = next }

-- Without a file, three calls create it and fill it in.
absent-Implements :
    (n ttl now start : ℕ) (owner : Text) (contents : Dict ℕ (Option Claim)) (next : ℕ)
    → Implements ttl now owner none (
        run
          (suc (suc (suc n)))
          now
          (under_way ttl start owner starting, disk_of none contents next))
unfolding run advance read_claim refused_by grants create_file
absent-Implements n ttl now start owner contents next =
    let mine : Claim = record { owner = owner; timestamp = now } in
    let written = insert next (some mine) (insert next none contents) in
    Implements-of
      (run-ended n now (under_way ttl now owner (ended true)) true
        (disk_of (some next) written (suc next)) refl)
      (record {
        answer = refl;
        file = ground (
          arith,
          lookup-insert next next (some mine) (insert next none contents),
          ==_iff next next,
        );
      })

run-step :
    (n now : ℕ) (p p' : Caller) (d d' : Disk)
    → advance now p d ≡ (p', d')
    → run (suc n) now (p, d) ≡ run n now (p', d')
unfolding run
run-step n now p p' d d' h = ap (run n now) h

start-step :
    (ttl start now : ℕ) (owner : Text) (d : Disk)
    → refused_by ttl now owner (read_claim d) ≡ false
    → advance now (under_way ttl start owner starting) d ≡ (under_way ttl now owner opening, d)
unfolding advance
start-step ttl start now owner d h = ground (arith, h)

open-step :
    (ttl now file : ℕ) (owner : Text) (d : Disk)
    → d.entry ≡ some file
    → advance now (under_way ttl now owner opening) d ≡ (under_way ttl now owner reading, d)
unfolding advance
open-step ttl now file owner d h = ground (arith, h)

-- From the start to the second reading, when there is a file and no refusal.
to_reading :
    (n ttl start now file : ℕ) (owner : Text) (d : Disk)
    → d.entry ≡ some file
    → refused_by ttl now owner (read_claim d) ≡ false
    → run (suc (suc n)) now (under_way ttl start owner starting, d)
      ≡ run n now (under_way ttl now owner reading, d)
to_reading n ttl start now file owner d h k =
    run-step (suc n) now (under_way ttl start owner starting) (under_way ttl now owner opening) d d
      (start-step ttl start now owner d k)
    ∙ run-step n now (under_way ttl now owner opening) (under_way ttl now owner reading) d d
        (open-step ttl now file owner d h)

unreadable-Implements :
    (ttl now file : ℕ) (owner : Text) (d : Disk)
    → d.entry ≡ some file
    → read_claim d ≡ none
    → Implements ttl now owner none (run 7 now (caller owner ttl, d))
unfolding advance refused_by
unreadable-Implements ttl now file owner d h r =
    let open_again : run 5 now (under_way ttl now owner reading, d)
        ≡ run 3 now (under_way ttl now owner starting, disk_of none d.contents d.next) =
      run-step 4 now (under_way ttl now owner reading) (under_way ttl now owner removing) d d
        (ground (arith, r))
      ∙ run-step 3 now (under_way ttl now owner removing) (under_way ttl now owner starting) d
          (disk_of none d.contents d.next) refl in
    Implements-of (to_reading 5 ttl 0 now file owner d h (ground (arith, r)) ∙ open_again)
      (absent-Implements 0 ttl now now owner d.contents d.next)

refused-Implements :
    (ttl now : ℕ) (owner : Text) (c : Claim) (d : Disk)
    → read_claim d ≡ some c
    → refused_by ttl now owner (some c) ≡ true
    → Implements ttl now owner (some c) (run 7 now (caller owner ttl, d))
unfolding advance refused_by grants may_overwrite
refused-Implements ttl now owner c d r refused =
    let over = under_way ttl now owner (ended false) in
    let no : grants ttl now owner (some c) ≡ false = ground (arith, refused) in
    Implements-of
      (run-step 6 now (caller owner ttl) over d d (ground (arith, r, refused))
        ∙ run-ended 6 now over false d refl)
      (record { answer = ground (arith, no); file = ground (arith, no, r) })

held-Implements :
    (ttl now file : ℕ) (owner : Text) (c : Claim) (d : Disk)
    → d.entry ≡ some file
    → read_claim d ≡ some c
    → refused_by ttl now owner (some c) ≡ false
    → Implements ttl now owner (some c) (run 7 now (caller owner ttl, d))
unfolding advance refused_by grants may_overwrite read_claim
held-Implements ttl now file owner c d h r open_to =
    let mine : Claim = record { owner = owner; timestamp = now } in
    let reads = to_reading 5 ttl 0 now file owner d h (rw r open_to) in
    let at = under_way ttl now owner in
    let empty : Disk = disk_of d.entry (insert file none d.contents) d.next in
    let full : Disk =
      disk_of d.entry (insert file (some mine) (insert file none d.contents)) d.next in
    elim (Bool-cases (may_overwrite ttl now owner c)) [
      | inl granted ↦
          Implements-of
            (reads
              ∙ (run-step 4 now (at reading) (at truncating) d d (ground (arith, r, granted))
                  ∙ (run-step 3 now (at truncating) (at (rewriting file)) d empty
                        (ground (arith, h))
                      ∙ (run-step 2 now (at (rewriting file)) (at (ended true)) empty full refl
                          ∙ run-ended 2 now (at (ended true)) true full refl))))
            (record {
              answer = ground (arith, granted);
              file = ground (
                arith,
                granted,
                h,
                lookup-insert file file (some mine) (insert file none d.contents),
                ==_iff file file,
              );
            })
      | inr other ↦
          Implements-of
            (reads
              ∙ (run-step 4 now (at reading) (at (ended false)) d d (ground (arith, r, other))
                  ∙ run-ended 4 now (at (ended false)) false d refl))
            (record { answer = ground (arith, other); file = ground (arith, other, r) })
    ]

-- A call of `claim_exit` that no other call runs into ends within seven system calls, whatever the
-- file holds. It is granted if there is no readable claim, or one of the same owner, or one older
-- than the time to live; then the file holds the new claim, and else it reads as before.
pub claim_exit-Implements :
    (ttl now : ℕ) (owner : Text) (d : Disk)
    → Implements ttl now owner (read_claim d) (run 7 now (caller owner ttl, d))
unfolding read_claim
claim_exit-Implements ttl now owner d = elim (Option-cases d.entry) [
  | inl absent ↦
      let at : d ≡ disk_of none d.contents d.next = cc absent in
      let nothing : read_claim d ≡ none = ground (arith, absent) in
      let new = absent-Implements 4 ttl now 0 owner d.contents d.next in
      rw nothing (Implements-of (ap (λ (x : Disk). run 7 now (caller owner ttl, x)) at) new)
  | inr (file, there) ↦ elim (Option-cases (read_claim d)) [
    | inl nothing ↦ rw nothing (unreadable-Implements ttl now file owner d there nothing)
    | inr (c, found) ↦ elim (Bool-cases (refused_by ttl now owner (some c))) [
      | inl refused ↦ rw found (refused-Implements ttl now owner c d found refused)
      | inr open_to ↦ rw found (held-Implements ttl now file owner c d there found open_to)
    ]
  ]
]
