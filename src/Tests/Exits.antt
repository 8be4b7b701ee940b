-- ===== src/Tests/Exits.antt =====
-- The exit claims at concrete files.
use binance_future_bot.Base.{◌≡◌, refl, true, some, List, [], ◌∷◌, arith, ◌=?◌, text_eq, nat_eq}
use binance_future_bot.Base.Text.{Text, codes}
use binance_future_bot.Base.Dict.{lookup}
use binance_future_bot.ExitCoordinator.{Disk, read_claim, caller, ended}
use binance_future_bot.ExitCoordinator.Alone.{run, Implements, claim_exit-Implements}
use binance_future_bot.ExitCoordinator.Alone.Calls.{
  Call, claimed, released, after_calls, claim_exit-exclusive,
}
use binance_future_bot.ExitCoordinator.Together.{interleave, between, no_file, both_granted}

abbrev main_py : Text
main_py = codes "main"

abbrev watchdog : Text
watchdog = codes "watchdog"

-- A claim of the main process at 1000.
abbrev held : Disk
held = record {
  entry = some 0;
  contents = (0, some (record { owner = main_py; timestamp = 1000 })) ∷ [];
  next = 1;
}

claim_exit-Implements_example :
    Implements 120000 500000 watchdog
      (read_claim held)
      (run 7 500000 (caller watchdog 120000, held))
claim_exit-Implements_example = claim_exit-Implements 120000 500000 watchdog held

abbrev calls : List Call
calls = claimed watchdog 2000 ∷ released (some watchdog) ∷ claimed main_py 3000 ∷ []

claim_exit-exclusive_example :
    (run 7 50000 (caller watchdog 120000, after_calls 120000 calls held)).0.phase
    ≡ ended (main_py =? watchdog)
unfolding read_claim lookup
claim_exit-exclusive_example =
    claim_exit-exclusive 120000 1000 50000 main_py watchdog calls held refl
      ((omega arith, omega arith), ((refl, refl), ((omega arith, omega arith), tt))) (omega arith)
      (omega arith)

both_granted_example :
    let s =
      interleave 1000 between (record {
        first = caller main_py 120000;
        second = caller watchdog 120000;
        disk = no_file;
      }) in
    (s.first.phase ≡ ended true)
    × (s.second.phase ≡ ended true)
    × (read_claim s.disk ≡ some (record { owner = watchdog; timestamp = 1000 }))
both_granted_example = both_granted 120000 1000 main_py watchdog
