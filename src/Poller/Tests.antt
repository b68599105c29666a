-- ===== src/Poller/Tests.antt =====
-- Concrete runs of the polling (backend/src/services/WithdrawalProcessor.ts).
use starknet.Common.{◌≡◌, refl, true}
use starknet.Poller.{Poller, run}
use starknet.Poller.Chains.{chains, restart, run-restart}

abbrev waiting : Poller
waiting = record { is_running = true; starting = 0; timers = 1; processing = 0 }

run-restart_example : (chains (run restart waiting) ≡ 2) × ((run restart waiting).is_running ≡ true)
run-restart_example = run-restart waiting refl refl
