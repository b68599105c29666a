-- ===== src/Circuit/Wait.antt =====
-- Polling for a receipt: the first poll that decides is the result.
use starknet.Common.{
  ℕ, zero, suc, ◌+◌, ◌<◌, ◌≡◌, subst, ◌∙◌, Option, none, some, codes, includes, if◌then◌else◌,
  arith,
}
use starknet.Circuit.{
  Poll, receipt_succeeded, receipt_reverted, receipt_other, poll_error, Waited, confirmed, reverted,
  poll_failed, wait_for_transaction,
}

-- The result that a poll gives at once; `none` where polling goes on.
abbrev pub decided : Poll → Option Waited
decided (receipt_succeeded block) = some (confirmed block)
decided receipt_reverted = some reverted
decided receipt_other = none
decided (poll_error message) =
    if includes message (codes "timeout") then some (poll_failed message) else none

wait_next :
    (poll : ℕ → Poll) (attempt n : ℕ)
    → decided (poll attempt) ≡ none
    → wait_for_transaction poll attempt (suc n) ≡ wait_for_transaction poll (attempt + 1) n
unfolding wait_for_transaction
wait_next poll attempt n e = ground arith

wait_now :
    (poll : ℕ → Poll) (attempt n : ℕ) (w : Waited)
    → decided (poll attempt) ≡ some w
    → wait_for_transaction poll attempt (suc n) ≡ w
unfolding wait_for_transaction
wait_now poll attempt n w e = ground arith

wait_first_from :
    (poll : ℕ → Poll) (w : Waited) (k n attempt : ℕ)
    → ((j : ℕ) → j < k → decided (poll (attempt + j)) ≡ none)
    → k < n
    → decided (poll (attempt + k)) ≡ some w
    → wait_for_transaction poll attempt n ≡ w
wait_first_from poll w k zero attempt before h e = absurd (omega arith)
wait_first_from poll w zero (suc n) attempt before h e =
    wait_now poll attempt n w (subst (λ a. decided (poll a) ≡ some w) (omega arith) e)
wait_first_from poll w (suc k) (suc n) attempt before h e =
    let start : decided (poll attempt) ≡ none =
      subst (λ a. decided (poll a) ≡ none) (omega arith) (before 0 (omega arith)) in
    wait_next poll attempt n start
    ∙ wait_first_from poll w k n (attempt + 1)
        (λ j l. subst (λ a. decided (poll a) ≡ none) (omega arith) (before (suc j) (omega arith)))
        (omega arith) (subst (λ a. decided (poll a) ≡ some w) (omega arith) e)

-- Polling returns what the first deciding poll gives, if that comes within the attempts.
pub wait_for_transaction_first :
    (poll : ℕ → Poll) (w : Waited) (k max_attempts : ℕ)
    → ((j : ℕ) → j < k → decided (poll (1 + j)) ≡ none)
    → k < max_attempts
    → decided (poll (1 + k)) ≡ some w
    → wait_for_transaction poll 1 max_attempts ≡ w
wait_for_transaction_first poll w k max_attempts before h e =
    wait_first_from poll w k max_attempts 1 before h e
