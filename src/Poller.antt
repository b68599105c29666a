-- ===== src/Poller.antt =====
-- The polling of backend/src/services/WithdrawalProcessor.ts: start, stop and poll, with what is under way
-- between them. What a poll does to the table is modelled in Payout.
pub mod Chains
mod Tests
use starknet.Common.{ℕ, zero, suc, ◌+◌, Bool, true, false, List, [], ◌∷◌, if◌then◌else◌}

-- The flag, the calls of `start` that await their first processing, the timers set, and the processings
-- that a timer has begun.
pub record Poller : Type 0 where
  pub is_running : Bool
  pub starting : ℕ
  pub timers : ℕ
  pub processing : ℕ

abbrev pub stopped : Poller
stopped = record { is_running = false; starting = 0; timers = 0; processing = 0 }

-- `poll`: a timer is set while the processor runs.
abbrev pub poll : Poller → Poller
poll p = if p.is_running then record p { timers = p.timers + 1 } else p

-- `start` up to its first `await`
abbrev pub start : Poller → Poller
start p = if p.is_running then p else record p { is_running = true; starting = p.starting + 1 }

abbrev pub stop : Poller → Poller
stop p = record p { is_running = false }

-- The first processing of `start` ends.
abbrev pub start_ends : ℕ → Poller → Poller
start_ends zero p = p
start_ends (suc n) p = poll (record p { starting = n })

-- A timer fires.
abbrev pub fire : ℕ → Poller → Poller
fire zero p = p
fire (suc n) p = record p { timers = n; processing = p.processing + 1 }

-- The processing that a timer has begun ends.
abbrev pub processing_ends : ℕ → Poller → Poller
processing_ends zero p = p
processing_ends (suc n) p = poll (record p { processing = n })

pub data Event : Type 0 where
  started : Event
  start_ended : Event
  was_stopped : Event
  fired : Event
  processed : Event

unfoldable pub step : Event → Poller → Poller
step started p = start p
step start_ended p = start_ends p.starting p
step was_stopped p = stop p
step fired p = fire p.timers p
step processed p = processing_ends p.processing p

unfoldable pub run : List Event → Poller → Poller
unfolding step
run [] p = p
run (e ∷ es) p = run es (step e p)
