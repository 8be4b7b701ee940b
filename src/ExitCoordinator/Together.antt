-- ===== src/ExitCoordinator/Together.antt =====
-- exit_coordinator.py: two calls of `claim_exit` whose system calls interleave.
use binance_future_bot.Base.{ℕ, ◌≡◌, refl, true, none, some, List, [], ◌∷◌, nat_eq, text_eq}
use binance_future_bot.Base.Text.{Text}
use binance_future_bot.Base.Dict.{lookup, insert}
use binance_future_bot.ExitCoordinator.{
  Disk, Caller, ended, read_claim, refused_by, advance, create_file, caller,
}

-- Two calls and the disk.
pub record Pair : Type 0 where
  pub first : Caller
  pub second : Caller
  pub disk : Disk

pub data Turn : Type 0 where
  of_first of_second : Turn

-- One system call of the one whose turn it is.
unfoldable pub step : ℕ → Turn → Pair → Pair
step clock of_first s =
    let (p, d) = advance clock s.first s.disk in record s { first = p; disk = d }
step clock of_second s =
    let (p, d) = advance clock s.second s.disk in record s { second = p; disk = d }

unfoldable pub interleave : ℕ → List Turn → Pair → Pair
unfolding step
interleave clock [] s = s
interleave clock (turn ∷ turns) s = interleave clock turns (step clock turn s)

-- The first call has created the file and not yet written to it when the second reads it.
abbrev pub between : List Turn
between =
    of_first ∷ of_first ∷ of_second ∷ of_second ∷ of_second ∷ of_second ∷ of_first ∷ of_second
    ∷ of_second ∷ of_second ∷ []

abbrev pub no_file : Disk
no_file = record { entry = none; contents = []; next = 0 }

-- Whoever the owners are, and whatever the time to live: there is an order of the system calls of
-- two claims, made when there is no file, in which both are granted, and the file names the second.
pub both_granted :
    (ttl clock : ℕ) (a b : Text)
    → let s =
        interleave clock between
          (record { first = caller a ttl; second = caller b ttl; disk = no_file }) in
      (s.first.phase ≡ ended true)
      × (s.second.phase ≡ ended true)
      × (read_claim s.disk ≡ some (record { owner = b; timestamp = clock }))
unfolding interleave step advance read_claim refused_by create_file lookup insert
both_granted ttl clock a b = (refl, refl, refl)
