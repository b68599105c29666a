-- ===== src/Relay/Header.antt =====
-- The retries of relayHeader (backend/src/services/BitcoinHeaderRelayService.ts).
use starknet.Common.{
  ℕ, zero, suc, ◌+◌, ◌<◌, ◌≡◌, sym, subst, ap, ◌∙◌, Bool, true, false, Option, none, some, JsString,
  arith,
}
use starknet.Relay.{Execution, transaction_hash, execution_error, is_permanent, relay_header}

-- A result that ends the loop at once
abbrev pub ends : Execution → Bool
ends (transaction_hash hash) = true
ends (execution_error message) = is_permanent message

header_end :
    (n : ℕ) (execute : ℕ → Execution) (attempt : ℕ) (last : Option JsString)
    → ends (execute attempt) ≡ true
    → (relay_header (suc n) execute attempt last).0 ≡ execute attempt
unfolding relay_header
header_end n execute attempt last e = ground arith

abbrev error_of : Execution → Option JsString
error_of (transaction_hash hash) = none
error_of (execution_error message) = some message

header_next :
    (n : ℕ) (execute : ℕ → Execution) (attempt : ℕ) (last : Option JsString)
    → ends (execute attempt) ≡ false
    → (relay_header (suc n) execute attempt last).0
      ≡ (relay_header n execute (attempt + 1) (error_of (execute attempt))).0
unfolding relay_header
header_next n execute attempt last e = ground arith

header_from :
    (execute : ℕ → Execution) (k n attempt : ℕ) (last : Option JsString)
    → ((j : ℕ) → j < k → ends (execute (attempt + j)) ≡ false)
    → k < n
    → ends (execute (attempt + k)) ≡ true
    → (relay_header n execute attempt last).0 ≡ execute (attempt + k)
header_from execute k zero attempt last before h e = absurd (omega arith)
header_from execute zero (suc n) attempt last before h e =
    let q : attempt + 0 ≡ attempt = omega arith in
    header_end n execute attempt last (subst (λ a. ends (execute a) ≡ true) q e)
    ∙ ap execute (sym q)
header_from execute (suc k) (suc n) attempt last before h e =
    let q : attempt + suc k ≡ attempt + 1 + k = omega arith in
    let start : ends (execute attempt) ≡ false =
      subst (λ a. ends (execute a) ≡ false) (omega arith) (before 0 (omega arith)) in
    header_next n execute attempt last start
    ∙ header_from execute k n (attempt + 1) (error_of (execute attempt))
        (λ j l. subst (λ a. ends (execute a) ≡ false) (omega arith) (before (suc j) (omega arith)))
        (omega arith) (subst (λ a. ends (execute a) ≡ true) q e)
    ∙ ap execute (sym q)

-- Sending a header ends with the first attempt that succeeds or fails for lack of funds, if there is one
-- among the attempts allowed: its hash or its error is the result, and no later attempt counts.
pub relay_header_first :
    (execute : ℕ → Execution) (k retries : ℕ)
    → ((j : ℕ) → j < k → ends (execute j) ≡ false)
    → k < retries
    → ends (execute k) ≡ true
    → (relay_header retries execute 0 none).0 ≡ execute k
relay_header_first execute k retries before h e =
    let q : 0 + k ≡ k = omega arith in
    header_from execute k retries 0 none
      (λ j l. subst (λ a. ends (execute a) ≡ false) (omega arith) (before j l)) h
      (subst (λ a. ends (execute a) ≡ true) (sym q) e)
    ∙ ap execute q
