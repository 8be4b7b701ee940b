-- ===== src/ExecutionLedger/Restart/Load.antt =====
-- core/execution_ledger.py: the ledger read back from its file.
use mathlib.Core.List.{append-nil, append_assoc}
use binance_future_bot.Base.{
  ℕ, ◌≡◌, refl, ap, sym, ◌∙◌, true, false, ◌||◌, List, [], ◌∷◌, ◌++◌, arith, map, filter, mem, ◌=?◌,
  =?_iff, nat_eq, pair_eq, Bool-cases, inl, inr, All, Distinct,
}
use binance_future_bot.Base.Text.{Text}
use binance_future_bot.Base.Dict.{Dict, insert, keys, values}
use binance_future_bot.ExecutionLedger.{
  ExecId, ExecutionRecord, ExecutionLedger, next_id, unresolved, restored, restore_seq, load_rows,
  empty_ledger, open_ledger, is_unresolved, append_bounded,
}
use binance_future_bot.ExecutionLedger.Restart.{
  Call, Timed, Good, Sound, after_calls, after_calls-Sound,
}

-- The record without what a restart loses.
abbrev pub without_error : ExecutionRecord → ExecutionRecord
without_error r = record r { error_code = 0; error_message = []; http_status = 0 }

restored-Good :
    (now : ℕ) (id : ExecId) (r : ExecutionRecord) → Good id r → restored now r ≡ without_error r
unfolding restored
restored-Good now id r g =
    ground (arith, g.symbol_upper, g.action_upper, g.created_late, g.updated_late)

abbrev ids : List ExecutionRecord → List ExecId
ids [] = []
ids (r ∷ rs) = r.exec_id ∷ ids rs

insert-new :
    (k : ExecId) (v : ExecutionRecord) (d : Dict ExecId ExecutionRecord)
    → mem k (keys d) ≡ false
    → insert k v d ≡ d ++ (k, v) ∷ []
unfolding insert
insert-new k v [] h = refl
insert-new k v ((j, w) ∷ d) h = ground (arith, insert-new k v d, =?_iff j k, =?_iff k j)

entries : ℕ → List ExecutionRecord → Dict ExecId ExecutionRecord
entries now [] = []
entries now (r ∷ rs) = (r.exec_id, restored now r) ∷ entries now rs

keys-append_one :
    (j k : ExecId) (v : ExecutionRecord) (d : Dict ExecId ExecutionRecord)
    → mem j (keys (d ++ (k, v) ∷ [])) ≡ (mem j (keys d) || k =? j)
keys-append_one j k v [] = ground arith
keys-append_one j k v ((i, w) ∷ d) = ground (arith, keys-append_one j k v d)

restore_seq-records :
    (today : ℕ) (id : ExecId) (l : ExecutionLedger) → (restore_seq today id l).records ≡ l.records
unfolding restore_seq
restore_seq-records today id l = ground arith

still_fresh :
    (k : ExecId) (v : ExecutionRecord) (d : Dict ExecId ExecutionRecord)
    (rows : List ExecutionRecord)
    → mem k (ids rows) ≡ false
    → All (λ r. mem r.exec_id (keys d) ≡ false) rows
    → All (λ r. mem r.exec_id (keys (d ++ (k, v) ∷ [])) ≡ false) rows
still_fresh k v d [] new fresh = tt
still_fresh k v d (r ∷ rows) new fresh = (
  ground (
    arith,
    keys-append_one r.exec_id k v d,
    fresh.0,
    new,
    =?_iff k r.exec_id,
    =?_iff r.exec_id k,
  ),
  still_fresh k v d rows (ground (arith, new)) fresh.1,
)

load_rows-records :
    (now today : ℕ) (rows : List ExecutionRecord) (l : ExecutionLedger)
    → Distinct (ids rows)
    → All (λ r. mem r.exec_id (keys l.records) ≡ false) rows
    → (load_rows now today rows l).records ≡ l.records ++ entries now rows
unfolding load_rows entries
load_rows-records now today [] l once fresh = sym (append-nil l.records)
load_rows-records now today (row ∷ rows) l once fresh =
    let k = row.exec_id in
    let v = restored now row in
    let added : ExecutionLedger = record l {
      records = insert k v l.records;
      order = append_bounded l.maxlen k l.order;
    } in
    let l' = restore_seq today k added in
    let grown : l'.records ≡ l.records ++ (k, v) ∷ [] =
      restore_seq-records today k added ∙ insert-new k v l.records fresh.0 in
    let fresh' : All (λ r. mem r.exec_id (keys l'.records) ≡ false) rows =
      rw grown (still_fresh k v l.records rows once.0 fresh.1) in
    let rest = load_rows-records now today rows l' once.1 fresh' in
    rest
    ∙ (ap (λ (d : Dict ExecId ExecutionRecord). d ++ entries now rows) grown
        ∙ append_assoc l.records ((k, v) ∷ []) (entries now rows))

-- The rows of a file: the unresolved records.
rows_of : Dict ExecId ExecutionRecord → List ExecutionRecord
rows_of d = filter (λ r. is_unresolved r.phase) (values d)

mem-ids :
    (k : ExecId) (d : Dict ExecId ExecutionRecord)
    → All (λ x. Good x.0 x.1) d
    → mem k (keys d) ≡ false
    → mem k (ids (rows_of d)) ≡ false
unfolding rows_of
mem-ids k [] g h = refl
mem-ids k ((j, r) ∷ d) g h =
    let good : Good j r = g.0 in
    let named : r.exec_id ≡ j = good.named in ground (arith, mem-ids k d g.1, h, named)

rows_of-Distinct :
    (d : Dict ExecId ExecutionRecord)
    → All (λ x. Good x.0 x.1) d
    → Distinct (keys d)
    → Distinct (ids (rows_of d))
unfolding rows_of
rows_of-Distinct [] g h = tt
rows_of-Distinct ((j, r) ∷ d) g h =
    let good : Good j r = g.0 in
    let rest = rows_of-Distinct d g.1 h.1 in
    let new = mem-ids j d g.1 h.0 in
    elim (Bool-cases (is_unresolved r.phase)) [
      | inl kept ↦ rw kept (rw good.named (new, rest))
      | inr left ↦ rw left rest
    ]

reloaded :
    (now : ℕ) (d : Dict ExecId ExecutionRecord)
    → All (λ x. Good x.0 x.1) d
    → rows_of (entries now (rows_of d)) ≡ map without_error (rows_of d)
unfolding rows_of entries
reloaded now [] g = refl
reloaded now ((j, r) ∷ d) g =
    let good : Good j r = g.0 in
    let rest = reloaded now d g.1 in
    elim (Bool-cases (is_unresolved r.phase)) [
      | inl kept ↦
          let is = restored-Good now j r good in
          rw kept (rw (is, kept) (ap (λ (t : List ExecutionRecord). without_error r ∷ t) rest))
      | inr left ↦ rw left rest
    ]

new-Sound : (maxlen : ℕ) → Sound (empty_ledger maxlen [])
unfolding unresolved
new-Sound maxlen = record { once = tt; good = tt; written = refl }

no_keys :
    (rows : List ExecutionRecord)
    → All (λ r. mem r.exec_id (keys {K = ExecId} {V = ExecutionRecord} []) ≡ false) rows
no_keys [] = tt
no_keys (r ∷ rows) = (refl, no_keys rows)

-- From a ledger with no file on, after any new records and transitions at times past the clock's
-- origin: a restart finds exactly the orders that were unresolved, in their order and with all
-- their fields, but without the error code, the error message and the HTTP status.
pub restart-unresolved :
    (client_id : ExecId → Text) (maxlen now today : ℕ) (calls : List Call)
    → All Timed calls
    → unresolved
        (open_ledger now today maxlen (after_calls client_id calls (empty_ledger maxlen [])).file)
      ≡ map without_error (unresolved (after_calls client_id calls (empty_ledger maxlen [])))
unfolding unresolved open_ledger rows_of
restart-unresolved client_id maxlen now today calls late =
    let l = after_calls client_id calls (empty_ledger maxlen []) in
    let s = after_calls-Sound client_id calls (empty_ledger maxlen []) late (new-Sound maxlen) in
    let rows = rows_of l.records in
    let all_fresh = no_keys rows in
    let loaded =
      load_rows-records now today rows (empty_ledger maxlen l.file)
        (rows_of-Distinct l.records s.good s.once) all_fresh in
    ap
      (λ (file : List ExecutionRecord).
        rows_of (load_rows now today file (empty_ledger maxlen l.file)).records)
      s.written
    ∙ (ap rows_of loaded ∙ reloaded now l.records s.good)

-- When no order is unresolved, a restart on the same day gives out the first id of the day again,
-- which an earlier record of that day has.
pub restart-repeats :
    (client_id : ExecId → Text) (maxlen now today : ℕ) (calls : List Call)
    → All Timed calls
    → unresolved (after_calls client_id calls (empty_ledger maxlen [])) ≡ []
    → mem (today, 1) (keys (after_calls client_id calls (empty_ledger maxlen [])).records) ≡ true
    → mem
        (next_id today (
          open_ledger now today maxlen
            (after_calls client_id calls (empty_ledger maxlen [])).file)).1
        (keys (after_calls client_id calls (empty_ledger maxlen [])).records)
      ≡ true
unfolding next_id open_ledger load_rows
restart-repeats client_id maxlen now today calls late none_open given =
    let l = after_calls client_id calls (empty_ledger maxlen []) in
    let s = after_calls-Sound client_id calls (empty_ledger maxlen []) late (new-Sound maxlen) in
    let no_rows : l.file ≡ [] = s.written ∙ none_open in
    let first : (next_id today (open_ledger now today maxlen l.file)).1 ≡ (today, 1) =
      rw no_rows (ground arith) in
    rw first given
