-- ===== src/Circuit/Trip.antt =====
-- When the circuit is tripped: its state against its count of failures, in every run.
use starknet.Common.{
  ℕ, suc, ◌+◌, ◌≤◌, ◌<◌, ◌≡◌, refl, ap, ◌∙◌, Bool, true, false, not, List, [], ◌∷◌, JsString, leb,
  if◌then◌else◌, Bool-cases, inl, inr, arith, count_if, any,
}
use starknet.Circuit.{
  CircuitStatus, closed, opened, half_open, Circuit, threshold, is_application_error, enter,
  succeed, count_failure, fail, Event, started, succeeded, failed_with, step, run, or_same,
}

-- Below the threshold exactly while the circuit is closed.
abbrev pub Consistent : Circuit → Type 0
Consistent c = elim c.status [
  | closed ↦ c.failures < threshold
  | opened ↦ threshold ≤ c.failures
  | half_open ↦ threshold ≤ c.failures
]

abbrev circuit : CircuitStatus → ℕ → ℕ → Circuit
circuit s n t = record { status = s; failures = n; next_attempt_at = t }

count_failure-Consistent :
    (now : ℕ) (s : CircuitStatus) (n t : ℕ)
    → Consistent (circuit s n t)
    → Consistent (count_failure now (circuit s n t))
count_failure-Consistent now closed n t h = ground arith
count_failure-Consistent now opened n t h = ground arith
count_failure-Consistent now half_open n t h = ground arith

pub fail_cases :
    (message : JsString) (now : ℕ) (c : Circuit)
    → fail message now c ≡ (if is_application_error message then c else count_failure now c)
unfolding fail
fail_cases message now c = ground arith

enter-Consistent :
    (now : ℕ) (s : CircuitStatus) (n t : ℕ)
    → Consistent (circuit s n t)
    → Consistent (or_same (circuit s n t) (enter now (circuit s n t)))
unfolding enter
enter-Consistent now closed n t h = h
enter-Consistent now half_open n t h = h
enter-Consistent now opened n t h = elim (Bool-cases (leb t now)) [
  | inl e ↦ rw e h
  | inr e ↦ rw e h
]

fail-Consistent :
    (message : JsString) (now : ℕ) (c : Circuit) → Consistent c → Consistent (fail message now c)
fail-Consistent message now c h = elim (Bool-cases (is_application_error message)) [
  | inl e ↦ rw (fail_cases message now c, e, if◌then◌else◌) h
  | inr e ↦
      rw (fail_cases message now c, e, if◌then◌else◌)
        (count_failure-Consistent now c.status c.failures c.next_attempt_at h)
]

step-Consistent : (e : Event) (c : Circuit) → Consistent c → Consistent (step e c)
unfolding step
step-Consistent (started now) c h = enter-Consistent now c.status c.failures c.next_attempt_at h
step-Consistent succeeded c h = omega arith
step-Consistent (failed_with message now) c h = fail-Consistent message now c h

run-Consistent : (es : List Event) (c : Circuit) → Consistent c → Consistent (run es c)
unfolding run
run-Consistent [] c h = h
run-Consistent (e ∷ es) c h = run-Consistent es (step e c) (step-Consistent e c h)

abbrev pub is_success : Event → Bool
is_success succeeded = true
is_success (started now) = false
is_success (failed_with message now) = false

-- A failure that the circuit counts: any but an application error.
abbrev pub is_counted : Event → Bool
is_counted succeeded = false
is_counted (started now) = false
is_counted (failed_with message now) = not (is_application_error message)

abbrev pub is_closed : Circuit → Bool
is_closed c = elim c.status [ closed ↦ true | opened ↦ false | half_open ↦ false ]

fail-failures :
    (message : JsString) (now : ℕ) (c : Circuit)
    → (fail message now c).failures
      ≡ (if not (is_application_error message) then suc c.failures else c.failures)
fail-failures message now c = rw (fail_cases message now c) (ground arith)

enter-failures :
    (now : ℕ) (s : CircuitStatus) (n t : ℕ)
    → (or_same (circuit s n t) (enter now (circuit s n t))).failures ≡ n
unfolding enter
enter-failures now closed n t = refl
enter-failures now half_open n t = refl
enter-failures now opened n t = ground arith

run-failures :
    (es : List Event) (c : Circuit)
    → any is_success es ≡ false
    → (run es c).failures ≡ count_if is_counted es + c.failures
unfolding run step
run-failures [] c h = omega arith
run-failures (started now ∷ es) c h =
    run-failures es (or_same c (enter now c)) h
    ∙ ap (λ n. count_if is_counted es + n)
        (enter-failures now c.status c.failures c.next_attempt_at)
run-failures (succeeded ∷ es) c h = cc
run-failures (failed_with message now ∷ es) c h =
    let f = fail-failures message now c in
    run-failures es (fail message now c) h ∙ (rw f (ground arith))

closed_iff :
    (s : CircuitStatus) (n t : ℕ)
    → Consistent (circuit s n t)
    → is_closed (circuit s n t) ≡ not (leb threshold n)
closed_iff closed n t h = ground arith
closed_iff half_open n t h = ground arith
closed_iff opened n t h = ground arith

-- In a run of calls that get no answer, starting right after an answer, the circuit is closed
-- exactly as long as fewer than five failures other than application errors have come in, errors of an
-- unknown kind among them, and it counts just these.
pub run-closed :
    (es : List Event) (c : Circuit)
    → any is_success es ≡ false
    → (is_closed (run es (succeed c)) ≡ not (leb 5 (count_if is_counted es)))
      × ((run es (succeed c)).failures ≡ count_if is_counted es)
run-closed es c h =
    let last = run es (succeed c) in
    let n : last.failures ≡ count_if is_counted es =
      run-failures es (succeed c) h ∙ (omega arith) in
    let start : Consistent (succeed c) = omega arith in
    let e =
      closed_iff last.status last.failures last.next_attempt_at
        (run-Consistent es (succeed c) start) in
    (e ∙ ap (λ m. not (leb 5 m)) n, n)
