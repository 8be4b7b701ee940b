-- ===== src/CloseNotice.antt =====
-- core/close_notification_guard.py: one close alert for each trade, by claim files. The directory is
-- a dict from file names to contents; ids are ASCII, without spaces around them. Whether the file
-- system refuses to open a file, and what the clock reads, are arguments.
pub mod Once
use binance_future_bot.Base.{
  ℕ, ◌-◌, Bool, true, false, ◌&&◌, ◌||◌, Option, none, some, List, [], ◌∷◌, map, ltb, leb, ◌==◌,
  if◌then◌else◌, mem, text_eq,
}
use binance_future_bot.Base.Text.{Text}
use binance_future_bot.Base.Dict.{Dict, lookup, insert}

-- What `json.load` and `float` make of a claim file.
pub data ClaimFile : Type 0 where
  claimed_at : ℕ → ClaimFile
  unreadable : ClaimFile

abbrev pub within_range : ℕ → ℕ → ℕ → Bool
within_range low high c = leb low c && leb c high

-- `c.isalnum() or c in "-_"`
abbrev pub is_safe : ℕ → Bool
is_safe c =
    within_range b'a' b'z' c
    || within_range b'A' b'Z' c
    || within_range b'0' b'9' c
    || c == b'-'
    || c == b'_'

unfoldable pub claim_path : Text → Text
claim_path trade_id = map (λ c. if is_safe c then c else b'_') trade_id

-- The first part: does the file that is there refuse the claim?
unfoldable pub refused_by : ℕ → ℕ → Option ClaimFile → Bool
refused_by ttl now none = false
refused_by ttl now (some (claimed_at ts)) = ltb (now - ts) ttl
refused_by ttl now (some unreadable) = false

-- The second part, `os.open` with `O_CREAT | O_EXCL`, which is atomic. An error other than that the
-- file exists, `open_fails`, tells the handler to send.
unfoldable pub create_claim : Bool → ℕ → Text → Dict Text ClaimFile → Dict Text ClaimFile × Bool
create_claim open_fails now path dir = if open_fails then (dir, true) else elim (lookup path dir) [
  | some _ ↦ (dir, false)
  | none ↦ (insert path (claimed_at now) dir, true)
]

unfoldable pub try_claim_close_notification :
    Bool → ℕ → ℕ → Text → Dict Text ClaimFile → Dict Text ClaimFile × Bool
unfolding claim_path refused_by create_claim
try_claim_close_notification open_fails ttl now [] dir = (dir, true)
try_claim_close_notification open_fails ttl now (c ∷ id) dir =
    let path = claim_path (c ∷ id) in
    if refused_by ttl now (lookup path dir)
    then (dir, false)
    else create_claim open_fails now path dir
