-- ===== src/Circuit.antt =====
-- backend/src/services/StarknetService.ts: the circuit breaker around every RPC call (withResilience)
-- and the polling of a transaction's receipt (waitForTransaction). Times are in milliseconds; what
-- an RPC call ends with is an argument.
pub mod Trip
pub mod Open
pub mod Wait
mod Tests
use starknet.Common.{
  ℕ, zero, suc, ◌+◌, Bool, true, false, not, ◌&&◌, ◌||◌, Option, none, some, List, [], ◌∷◌,
  JsString, codes, includes, to_lower_case, ltb, leb, if◌then◌else◌,
}

pub data CircuitStatus : Type 0 where
  closed opened half_open : CircuitStatus

pub record Circuit : Type 0 where
  pub status : CircuitStatus
  pub failures : ℕ
  pub next_attempt_at : ℕ

abbrev pub threshold : ℕ
threshold = 5

abbrev pub reset_timeout : ℕ
reset_timeout = 60000

abbrev pub initial : Circuit
initial = record { status = closed; failures = 0; next_attempt_at = 0 }

unfoldable pub is_network_error : JsString → Bool
is_network_error message =
    includes message (codes "fetch failed")
    || includes message (codes "timed out")
    || includes message (codes "ECONNREFUSED")
    || includes message (codes "ENOTFOUND")
    || includes message (codes "EAI_AGAIN")
    || includes message (codes "network")
    || includes (to_lower_case message) (codes "502")
    || includes (to_lower_case message) (codes "503")
    || includes (to_lower_case message) (codes "504")

unfoldable pub is_application_error : JsString → Bool
is_application_error message =
    includes message (codes "insufficient")
    || includes message (codes "Invalid transaction")
    || includes message (codes "Validation failed")
    || includes message (codes "Block header not relayed yet")

-- `Date.now()` at the start of a call; `none` where the circuit refuses it.
unfoldable pub enter : ℕ → Circuit → Option Circuit
enter now c = elim c.status [
  | opened ↦ if leb c.next_attempt_at now then some (record c { status = half_open }) else none
  | half_open ↦ some c
  | closed ↦ some c
]

-- The call was answered.
abbrev pub succeed : Circuit → Circuit
succeed c = record c { status = closed; failures = 0 }

-- `consecutiveFailures++`, and the test against the threshold.
abbrev pub count_failure : ℕ → Circuit → Circuit
count_failure now c =
    if leb threshold (c.failures + 1)
    then record {
      status = opened;
      failures = c.failures + 1;
      next_attempt_at = now + reset_timeout;
    }
    else record c { failures = c.failures + 1 }

-- The call ended with an error of this message.
unfoldable pub fail : JsString → ℕ → Circuit → Circuit
unfolding is_network_error is_application_error
fail message now c =
    if is_network_error message && not (is_application_error message)
    then count_failure now c
    else if is_application_error message
    then c
    else count_failure now c

-- What an RPC call ends with: an answer, or an error message (a time-out among them).
pub data Outcome {ℓ} (A : Type ℓ) : Type ℓ where
  answered : A → Outcome A
  failed : JsString → Outcome A

-- What the caller sees.
pub data Result {ℓ} (A : Type ℓ) : Type ℓ where
  returned : A → Result A
  threw : JsString → Result A
  circuit_open : Result A

abbrev pub settle {ℓ} : {A : Type ℓ} → ℕ → Circuit → Outcome A → Circuit × Result A
settle now c (answered a) = (succeed c, returned a)
settle now c (failed message) = (fail message now c, threw message)

-- `withResilience`: the call starts at `now` and ends at `later`, with nothing in between.
unfoldable pub with_resilience {ℓ} : {A : Type ℓ} → ℕ → ℕ → Outcome A → Circuit → Circuit × Result A
unfolding enter fail
with_resilience now later outcome c = elim (enter now c) [
  | none ↦ (c, circuit_open)
  | some c' ↦ settle later c' outcome
]

-- Calls overlap: the start and the end of a call are separate events.
pub data Event : Type 0 where
  started : ℕ → Event
  succeeded : Event
  failed_with : JsString → ℕ → Event

abbrev pub or_same : Circuit → Option Circuit → Circuit
or_same c none = c
or_same c (some c') = c'

unfoldable pub step : Event → Circuit → Circuit
unfolding enter fail
step (started now) c = or_same c (enter now c)
step succeeded c = succeed c
step (failed_with message now) c = fail message now c

unfoldable pub run : List Event → Circuit → Circuit
unfolding step
run [] c = c
run (e ∷ es) c = run es (step e c)

-- What one poll of `waitForTransaction` finds.
pub data Poll : Type 0 where
  receipt_succeeded : ℕ → Poll
  receipt_reverted : Poll
  receipt_other : Poll
  poll_error : JsString → Poll

pub data Waited : Type 0 where
  confirmed : ℕ → Waited
  reverted : Waited
  poll_failed : JsString → Waited
  not_confirmed : ℕ → Waited

-- `waitForTransaction`, by the number of attempts left; `attempt` numbers the polls.
unfoldable pub wait_for_transaction : (ℕ → Poll) → ℕ → ℕ → Waited
wait_for_transaction poll attempt zero = not_confirmed attempt
wait_for_transaction poll attempt (suc n) =
    let rest = wait_for_transaction poll (attempt + 1) n in
    elim (poll attempt) [
      | receipt_succeeded block ↦ confirmed block
      | receipt_reverted ↦ reverted
      | receipt_other ↦ rest
      | poll_error message ↦
          if includes message (codes "timeout") then poll_failed message else rest
    ]
