-- ===== src/Poller/Chains.antt =====
-- How many chains of polls are alive at once (backend/src/services/WithdrawalProcessor.ts).
use starknet.Common.{
  ℕ, zero, suc, ◌+◌, ◌≤◌, ◌≡◌, refl, Bool, true, false, List, [], ◌∷◌, if◌then◌else◌, arith, any,
}
use starknet.Poller.{
  Poller, stopped, start, start_ends, fire, processing_ends, Event, started, start_ended,
  was_stopped, fired, processed, step, run,
}

-- Each is awaiting its first processing, its timer, or the processing that its timer began.
abbrev pub chains : Poller → ℕ
chains p = p.starting + p.timers + p.processing

abbrev pub is_stop : Event → Bool
is_stop was_stopped = true
is_stop started = false
is_stop start_ended = false
is_stop fired = false
is_stop processed = false

abbrev pub one_if : Bool → ℕ
one_if b = if b then 1 else 0

-- As many chains as the flag says.
abbrev Steady : Poller → Type 0
Steady p = chains p ≡ one_if p.is_running

start-Steady : (p : Poller) → Steady p → Steady (start p)
start-Steady p h = ground arith

start_ends-Steady : (m : ℕ) (p : Poller) → p.starting ≡ m → Steady p → Steady (start_ends m p)
start_ends-Steady zero p e h = h
start_ends-Steady (suc n) p e h = ground arith

fire-Steady : (m : ℕ) (p : Poller) → p.timers ≡ m → Steady p → Steady (fire m p)
fire-Steady zero p e h = h
fire-Steady (suc n) p e h = ground arith

processing_ends-Steady :
    (m : ℕ) (p : Poller) → p.processing ≡ m → Steady p → Steady (processing_ends m p)
processing_ends-Steady zero p e h = h
processing_ends-Steady (suc n) p e h = ground arith

step-Steady : (e : Event) (p : Poller) → is_stop e ≡ false → Steady p → Steady (step e p)
unfolding step
step-Steady started p n h = start-Steady p h
step-Steady start_ended p n h = start_ends-Steady p.starting p refl h
step-Steady was_stopped p n h = cc
step-Steady fired p n h = fire-Steady p.timers p refl h
step-Steady processed p n h = processing_ends-Steady p.processing p refl h

run-Steady : (es : List Event) (p : Poller) → any is_stop es ≡ false → Steady p → Steady (run es p)
unfolding run
run-Steady [] p n h = h
run-Steady (e ∷ es) p n h =
    run-Steady es (step e p) (ground arith) (step-Steady e p (ground arith) h)

-- As long as the processor is not stopped, it polls in one chain at most, however often it is started.
pub run-chains : (es : List Event) → any is_stop es ≡ false → chains (run es stopped) ≤ 1
run-chains es n = let h : Steady (run es stopped) = run-Steady es stopped n refl in ground arith

-- The processor is stopped and started again, with no other event in between.
abbrev pub restart : List Event
restart = was_stopped ∷ started ∷ start_ended ∷ []

-- A running processor whose start is over, that is stopped and started again with no other event in
-- between, polls in one chain more than before.
pub run-restart :
    (p : Poller)
    → p.is_running ≡ true
    → p.starting ≡ 0
    → (chains (run restart p) ≡ suc (chains p)) × ((run restart p).is_running ≡ true)
unfolding run step
run-restart p r s = ground arith
