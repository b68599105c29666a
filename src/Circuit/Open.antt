-- ===== src/Circuit/Open.antt =====
-- What an open circuit does: how long it refuses calls, and how a trial call ends.
use starknet.Common.{
  ℕ, ◌+◌, ◌≤◌, ◌<◌, ◌≡◌, refl, ap, ◌∙◌, true, none, some, List, [], ◌∷◌, JsString, leb,
  if◌then◌else◌, Bool-cases, inl, inr, arith, All,
}
use starknet.Circuit.{
  settle, answered, failed, closed, opened, half_open, Circuit, threshold, reset_timeout,
  is_application_error, enter, count_failure, fail, Event, started, succeeded, failed_with, step,
  run, or_same, with_resilience, circuit_open, Outcome,
}
use starknet.Circuit.Trip.{fail_cases}

-- Open until `deadline` at least, with the failures that opened it.
abbrev pub OpenUntil : ℕ → Circuit → Type 0
OpenUntil deadline c =
    (c.status ≡ opened) × (threshold ≤ c.failures) × (deadline ≤ c.next_attempt_at)

-- An event before the deadline that is not an answer; a failure is no earlier than the trip.
abbrev pub Unanswered : ℕ → Event → Type 0
Unanswered deadline (started now) = now < deadline
Unanswered deadline succeeded = ⊥
Unanswered deadline (failed_with message now) = deadline ≤ now + reset_timeout

enter-OpenUntil :
    (deadline now : ℕ) (c : Circuit) → OpenUntil deadline c → now < deadline → enter now c ≡ none
unfolding enter
enter-OpenUntil deadline now c (o, f, d) h = rw o (ground arith)

count_failure-OpenUntil :
    (deadline now : ℕ) (c : Circuit)
    → threshold ≤ c.failures
    → deadline ≤ now + reset_timeout
    → OpenUntil deadline (count_failure now c)
count_failure-OpenUntil deadline now c f h =
    let e : leb threshold (c.failures + 1) ≡ true = ground arith in rw e (refl, omega arith, h)

fail-OpenUntil :
    (deadline : ℕ) (message : JsString) (now : ℕ) (c : Circuit)
    → OpenUntil deadline c
    → deadline ≤ now + reset_timeout
    → OpenUntil deadline (fail message now c)
fail-OpenUntil deadline message now c (o, f, d) h =
    elim (Bool-cases (is_application_error message)) [
      | inl e ↦ rw (fail_cases message now c, e, if◌then◌else◌) (o, f, d)
      | inr e ↦
          rw (fail_cases message now c, e, if◌then◌else◌)
            (count_failure-OpenUntil deadline now c f h)
    ]

run-OpenUntil :
    (deadline : ℕ) (es : List Event) (c : Circuit)
    → All (Unanswered deadline) es
    → OpenUntil deadline c
    → OpenUntil deadline (run es c)
unfolding run step
run-OpenUntil deadline [] c h o = o
run-OpenUntil deadline (started now ∷ es) c h o =
    run-OpenUntil deadline es (or_same c (enter now c)) h.1
      (rw (enter-OpenUntil deadline now c o h.0) o)
run-OpenUntil deadline (succeeded ∷ es) c h o = absurd h.0
run-OpenUntil deadline (failed_with message now ∷ es) c h o =
    run-OpenUntil deadline es (fail message now c) h.1 (fail-OpenUntil deadline message now c o h.0)

module _ {ℓ} {A : Type ℓ} (now later : ℕ) (outcome : Outcome A) where
  with_resilience-none :
      (c : Circuit) → enter now c ≡ none → with_resilience now later outcome c ≡ (c, circuit_open)
  unfolding with_resilience
  with_resilience-none c e = rw (e, with_resilience) refl

  with_resilience-some :
      (c c' : Circuit)
      → enter now c ≡ some c'
      → with_resilience now later outcome c ≡ settle later c' outcome
  unfolding with_resilience
  with_resilience-some c c' e = rw (e, with_resilience) refl

enter_due :
    (now : ℕ) (c : Circuit)
    → c.status ≡ opened
    → c.next_attempt_at ≤ now
    → enter now c ≡ some (record c { status = half_open })
unfolding enter
enter_due now c o h = ground arith

-- While no call is answered, an open circuit refuses every call that starts before the time set when
-- it was tripped, whatever failures of earlier calls still come in, and refusing changes nothing.
pub with_resilience_refused {ℓ} :
    {A : Type ℓ} (c : Circuit) (es : List Event) (now later : ℕ) (outcome : Outcome A)
    → c.status ≡ opened
    → threshold ≤ c.failures
    → All (Unanswered c.next_attempt_at) es
    → now < c.next_attempt_at
    → with_resilience now later outcome (run es c) ≡ (run es c, circuit_open)
with_resilience_refused c es now later outcome o f h n =
    with_resilience-none now later outcome (run es c) (
      enter-OpenUntil c.next_attempt_at now (run es c)
        (run-OpenUntil c.next_attempt_at es c h (o, f, omega arith)) n)

-- The state after a trial call that starts when the time is up.
abbrev pub after_trial {ℓ} : {A : Type ℓ} → ℕ → Circuit → Outcome A → Circuit
after_trial later c (answered a) = record c { status = closed; failures = 0 }
after_trial later c (failed message) =
    if is_application_error message then record c { status = half_open } else record {
      status = opened;
      failures = c.failures + 1;
      next_attempt_at = later + reset_timeout;
    }

settle_trial {ℓ} :
    {A : Type ℓ} (c : Circuit) (later : ℕ) (outcome : Outcome A)
    → threshold ≤ c.failures
    → (settle later (record c { status = half_open }) outcome).0 ≡ after_trial later c outcome
settle_trial c later (answered a) f = refl
settle_trial c later (failed message) f =
    let t : leb threshold (c.failures + 1) ≡ true = ground arith in
    fail_cases message later (record c { status = half_open }) ∙ (rw t refl)

-- Once the time is up, one call is let through: an answer closes the circuit and clears the count, an
-- application error leaves it half open, and any other error opens it again for a minute.
pub with_resilience_trial {ℓ} :
    {A : Type ℓ} (c : Circuit) (now later : ℕ) (outcome : Outcome A)
    → c.status ≡ opened
    → threshold ≤ c.failures
    → c.next_attempt_at ≤ now
    → (with_resilience now later outcome c).0 ≡ after_trial later c outcome
with_resilience_trial c now later outcome o f h =
    ap (λ r. r.0)
      (with_resilience-some now later outcome c (record c { status = half_open })
        (enter_due now c o h))
    ∙ settle_trial c later outcome f
