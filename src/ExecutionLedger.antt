-- ===== src/ExecutionLedger.antt =====
-- core/execution_ledger.py: the records of orders under way, and the file that keeps the unresolved
-- ones over a restart. An id is kept as the day and the number that its text spells; the client's
-- order id is made from it by an argument. Amounts and times are whole numbers of a small unit, and
-- the file holds what the ledger wrote.
pub mod Restart
pub mod Queries
use binance_future_bot.Base.{
  ℕ, suc, ◌+◌, ◌-◌, ◌*◌, Bool, true, false, ◌&&◌, ◌||◌, not, Option, none, some, List, [], ◌∷◌,
  ◌++◌, ltb, leb, ◌==◌, max, if◌then◌else◌, ◌=?◌, length, filter, take, drop, map, mem, text_eq,
  nat_eq, pair_eq,
}
use binance_future_bot.Base.Text.{Text, upper}
use binance_future_bot.Base.Dict.{Dict, lookup, insert, keys, values}

pub data ExecutionPhase : Type 0 where
  signal_detected trade_approved execution_queued order_submitting binance_ack : ExecutionPhase
  order_id_received order_accepted order_accepted_not_filled order_status_uncertain : ExecutionPhase
  order_filled partially_filled position_confirmed order_rejected : ExecutionPhase
  order_submission_failed rate_limited ws_disconnected resync_required canceled : ExecutionPhase

-- `_OPENED_PHASES`
abbrev pub is_opened : ExecutionPhase → Bool
is_opened order_filled = true
is_opened partially_filled = true
is_opened position_confirmed = true
is_opened _ = false

-- `_UNRESOLVED`
abbrev pub is_unresolved : ExecutionPhase → Bool
is_unresolved order_submitting = true
is_unresolved binance_ack = true
is_unresolved order_id_received = true
is_unresolved order_accepted = true
is_unresolved order_accepted_not_filled = true
is_unresolved order_status_uncertain = true
is_unresolved _ = false

-- `EXEC-{day}-{seq:05d}`
abbrev pub ExecId : Type 0
ExecId = ℕ × ℕ

pub record ExecutionRecord : Type 0 where
  pub exec_id : ExecId
  pub symbol : Text
  pub action : Text
  pub strategy : Text
  pub score : ℕ
  pub phase : ExecutionPhase
  pub client_order_id : Text
  pub binance_order_id : Text
  pub quantity : ℕ
  pub entry : ℕ
  pub sl : ℕ
  pub tp : ℕ
  pub atr : ℕ
  pub error_code : ℕ
  pub error_message : Text
  pub http_status : ℕ
  pub created_at : ℕ
  pub updated_at : ℕ

pub record ExecutionLedger : Type 0 where
  pub seq : ℕ
  pub day : ℕ
  pub records : Dict ExecId ExecutionRecord
  pub order : List ExecId
  pub maxlen : ℕ
  pub file : List ExecutionRecord

-- `self._next_id()`, with the day of the clock
unfoldable pub next_id : ℕ → ExecutionLedger → ExecutionLedger × ExecId
next_id day l =
    let seq = if day == l.day then suc l.seq else 1 in
    (record l { seq = seq; day = day }, (day, seq))

unfoldable pub unresolved : ExecutionLedger → List ExecutionRecord
unresolved l = filter (λ r. is_unresolved r.phase) (values l.records)

-- `_persist_unlocked`
unfoldable pub persist : ExecutionLedger → ExecutionLedger
unfolding unresolved
persist l = record l { file = unresolved l }

-- `deque.append`
abbrev pub append_bounded : ℕ → ExecId → List ExecId → List ExecId
append_bounded cap k ids = drop (length ids + 1 - cap) (ids ++ k ∷ [])

-- What a transition may set besides the phase: 0 and the empty text set nothing.
pub record Details : Type 0 where
  pub error_code : ℕ
  pub error_message : Text
  pub http_status : ℕ
  pub binance_order_id : Text
  pub quantity : ℕ
  pub entry : ℕ

abbrev pub or_else : ℕ → ℕ → ℕ
or_else new old = if new == 0 then old else new

abbrev pub text_or_else : Text → Text → Text
text_or_else [] old = old
text_or_else (c ∷ new) old = c ∷ new

unfoldable pub set_phase : ℕ → ExecutionPhase → Details → ExecutionRecord → ExecutionRecord
set_phase now phase d r = record r {
  phase = phase;
  updated_at = now;
  error_code = or_else d.error_code r.error_code;
  error_message = text_or_else (take 240 d.error_message) r.error_message;
  http_status = or_else d.http_status r.http_status;
  binance_order_id = text_or_else d.binance_order_id r.binance_order_id;
  quantity = or_else d.quantity r.quantity;
  entry = or_else d.entry r.entry;
}

-- The record is the one that the ledger holds under the id.
unfoldable pub transition :
    ℕ → ExecId → ExecutionPhase → Details → ExecutionLedger → ExecutionLedger
unfolding set_phase persist
transition now id phase d l = elim (lookup id l.records) [
  | none ↦ persist l
  | some r ↦ persist (record l { records = insert id (set_phase now phase d r) l.records })
]

abbrev pub no_details : Details
no_details = record {
  error_code = 0;
  error_message = [];
  http_status = 0;
  binance_order_id = [];
  quantity = 0;
  entry = 0;
}

unfoldable pub new_record :
    (ExecId → Text) → ℕ → ℕ → Text → Text → Text → ℕ → ExecutionLedger → ExecutionLedger × ExecId
unfolding next_id transition
new_record client_id now day symbol action strategy score l =
    let (l', id) = next_id day l in
    let r : ExecutionRecord = record {
      exec_id = id;
      symbol = upper symbol;
      action = upper action;
      strategy = strategy;
      score = score;
      phase = signal_detected;
      client_order_id = client_id id;
      binance_order_id = [];
      quantity = 0;
      entry = 0;
      sl = 0;
      tp = 0;
      atr = 0;
      error_code = 0;
      error_message = [];
      http_status = 0;
      created_at = now;
      updated_at = now;
    } in
    let added : ExecutionLedger = record l' {
      records = insert id r l.records;
      order = append_bounded l.maxlen id l.order;
    } in
    (transition now id signal_detected no_details added, id)

-- `_load_persisted` leaves out the error of a record, and a time of 0 becomes now.
unfoldable pub restored : ℕ → ExecutionRecord → ExecutionRecord
restored now r = record r {
  symbol = upper r.symbol;
  action = upper r.action;
  error_code = 0;
  error_message = [];
  http_status = 0;
  created_at = or_else r.created_at now;
  updated_at = or_else r.updated_at now;
}

-- `_restore_seq_from_id`
unfoldable pub restore_seq : ℕ → ExecId → ExecutionLedger → ExecutionLedger
restore_seq today (day, seq) l =
    if day == today && ltb l.seq seq then record l { seq = seq; day = day } else l

unfoldable pub load_rows : ℕ → ℕ → List ExecutionRecord → ExecutionLedger → ExecutionLedger
unfolding restored restore_seq
load_rows now today [] l = l
load_rows now today (row ∷ rows) l = load_rows now today rows (
    restore_seq today row.exec_id (record l {
      records = insert row.exec_id (restored now row) l.records;
      order = append_bounded l.maxlen row.exec_id l.order;
    }))

abbrev pub empty_ledger : ℕ → List ExecutionRecord → ExecutionLedger
empty_ledger maxlen file = record {
  seq = 0;
  day = 0;
  records = [];
  order = [];
  maxlen = maxlen;
  file = file;
}

-- `__init__`, on the file that is there.
unfoldable pub open_ledger : ℕ → ℕ → ℕ → List ExecutionRecord → ExecutionLedger
unfolding load_rows
open_ledger now today maxlen file = load_rows now today file (empty_ledger maxlen file)
