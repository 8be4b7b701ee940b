-- ===== src/ExecutionLedger/Restart.antt =====
-- core/execution_ledger.py: what a restart keeps of the orders under way.
pub mod Load
use mathlib.Core.List.{append-nil, append_assoc}
use binance_future_bot.Base.{
  ℕ, zero, suc, ◌+◌, ◌<◌, ◌≡◌, refl, ap, sym, ◌∙◌, Bool, true, false, ◌&&◌, ◌||◌, not, Option, none,
  some, List, [], ◌∷◌, ◌++◌, arith, ltb, ◌==◌, if◌then◌else◌, map, filter, mem, ◌=?◌, =?_iff,
  nat_eq, pair_eq, Bool-cases, Option-cases, inl, inr, All, Distinct, mem-append,
}
use binance_future_bot.Base.Text.{Text, upper, upper_idem}
use binance_future_bot.Base.Dict.{Dict, lookup, insert, keys, values, insert-Distinct}
use binance_future_bot.ExecutionLedger.{
  ExecutionPhase, ExecId, ExecutionRecord, ExecutionLedger, Details, next_id, unresolved, persist,
  set_phase, transition, new_record, restored, restore_seq, load_rows, empty_ledger, open_ledger,
  is_unresolved, append_bounded, signal_detected, no_details, or_else,
}

pub data Call : Type 0 where
  created : ℕ → ℕ → Text → Text → Text → ℕ → Call
  moved : ℕ → ExecId → ExecutionPhase → Details → Call

unfoldable pub after_call : (ExecId → Text) → Call → ExecutionLedger → ExecutionLedger
after_call client_id (created now day symbol action strategy score) l =
    (new_record client_id now day symbol action strategy score l).0
after_call client_id (moved now id phase d) l = transition now id phase d l

unfoldable pub after_calls : (ExecId → Text) → List Call → ExecutionLedger → ExecutionLedger
unfolding after_call
after_calls client_id [] l = l
after_calls client_id (call ∷ calls) l = after_calls client_id calls (after_call client_id call l)

-- The clock is past its origin.
abbrev pub Timed : Call → Type 0
Timed (created now day symbol action strategy score) = 0 < now
Timed (moved now id phase d) = 0 < now

-- A record as the ledger keeps it under its id.
pub record Good (id : ExecId) (r : ExecutionRecord) : Type 0 where
  pub named : r.exec_id ≡ id
  pub symbol_upper : upper r.symbol ≡ r.symbol
  pub action_upper : upper r.action ≡ r.action
  pub created_late : 0 < r.created_at
  pub updated_late : 0 < r.updated_at

pub record Sound (l : ExecutionLedger) : Type 0 where
  pub once : Distinct (keys l.records)
  pub good : All (λ x. Good x.0 x.1) l.records
  pub written : l.file ≡ unresolved l

Good-of : {j id : ExecId} {s r : ExecutionRecord} → j ≡ id → s ≡ r → Good j s → Good id r
Good-of e f g = rw (← e, ← f) g

insert-Good :
    (id : ExecId) (r : ExecutionRecord) (d : Dict ExecId ExecutionRecord)
    → Good id r
    → All (λ x. Good x.0 x.1) d
    → All (λ x. Good x.0 x.1) (insert id r d)
unfolding insert
insert-Good id r [] g h = (g, tt)
insert-Good id r ((j, s) ∷ d) g h = elim (Bool-cases (j =? id)) [
  | inl same ↦
      let at : j ≡ id = (=?_iff j id).0 same in
      let g' : Good j r = Good-of (sym at) refl g in rw same (g', h.1)
  | inr other ↦ rw other (h.0, insert-Good id r d g h.1)
]

lookup-Good :
    (id : ExecId) (r : ExecutionRecord) (d : Dict ExecId ExecutionRecord)
    → All (λ x. Good x.0 x.1) d
    → lookup id d ≡ some r
    → Good id r
unfolding lookup
lookup-Good id r [] h found = absurd (cc found)
lookup-Good id r ((j, s) ∷ d) h found = elim (Bool-cases (j =? id)) [
  | inl same ↦
      let at : j ≡ id = (=?_iff j id).0 same in
      let is : s ≡ r = ground (arith, found, same) in let g : Good j s = h.0 in Good-of at is g
  | inr other ↦ lookup-Good id r d h.1 (ground (arith, found, other))
]

set_phase-Good :
    (now : ℕ) (id : ExecId) (phase : ExecutionPhase) (d : Details) (r : ExecutionRecord)
    → 0 < now
    → Good id r
    → Good id (set_phase now phase d r)
unfolding set_phase
set_phase-Good now id phase d r late g = record {
  named = g.named;
  symbol_upper = g.symbol_upper;
  action_upper = g.action_upper;
  created_late = g.created_late;
  updated_late = late;
}

transition-Sound :
    (now : ℕ) (id : ExecId) (phase : ExecutionPhase) (d : Details) (l : ExecutionLedger)
    → 0 < now
    → Distinct (keys l.records)
    → All (λ x. Good x.0 x.1) l.records
    → Sound (transition now id phase d l)
unfolding transition persist unresolved
transition-Sound now id phase d l late once good = elim (Option-cases (lookup id l.records)) [
  | inl nothing ↦
      let is : transition now id phase d l ≡ persist l = ground (arith, nothing) in
      rw is (record { once = once; good = good; written = refl })
  | inr (r, found) ↦
      let r' = set_phase now phase d r in
      let l' : ExecutionLedger = record l { records = insert id r' l.records } in
      let is : transition now id phase d l ≡ persist l' = ground (arith, found) in
      rw is (record {
        once = insert-Distinct id r' l.records once;
        good =
            insert-Good id r' l.records
              (set_phase-Good now id phase d r late (lookup-Good id r l.records good found)) good;
        written = refl;
      })
]

after_call-Sound :
    (client_id : ExecId → Text) (call : Call) (l : ExecutionLedger)
    → Timed call
    → Sound l
    → Sound (after_call client_id call l)
unfolding after_call new_record next_id
after_call-Sound client_id (moved now id phase d) l late s =
    transition-Sound now id phase d l late s.once s.good
after_call-Sound client_id (created now day symbol action strategy score) l late s =
    let l' = (next_id day l).0 in
    let id = (next_id day l).1 in
    let r : ExecutionRecord = record {
      exec_id = id;
      symbol = upper symbol;
      action = upper action;
      strategy = strategy;
      score = score;
      phase = signal_detected;
      client_order_id = client_id id;
      binance_order_id = [];
      quantity = 0;
      entry = 0;
      sl = 0;
      tp = 0;
      atr = 0;
      error_code = 0;
      error_message = [];
      http_status = 0;
      created_at = now;
      updated_at = now;
    } in
    transition-Sound now id signal_detected no_details
      (record l' { records = insert id r l.records; order = append_bounded l.maxlen id l.order })
      late (insert-Distinct id r l.records s.once)
      (insert-Good id r l.records
        (record {
          named = refl;
          symbol_upper = upper_idem symbol;
          action_upper = upper_idem action;
          created_late = late;
          updated_late = late;
        })
        s.good)

after_calls-Sound :
    (client_id : ExecId → Text) (calls : List Call) (l : ExecutionLedger)
    → All Timed calls
    → Sound l
    → Sound (after_calls client_id calls l)
unfolding after_calls
after_calls-Sound client_id [] l late s = s
after_calls-Sound client_id (call ∷ calls) l late s =
    after_calls-Sound client_id calls (after_call client_id call l) late.1
      (after_call-Sound client_id call l late.0 s)
