-- ===== src/Htlc/Tests.antt =====
-- Concrete contracts (backend/src/services/HTLCService.ts), with the preimage itself for its hash.
use starknet.Common.{
  ◌≡◌, ◌≤◌, ◌↔◌, refl, some, List, [], ◌∷◌, JsString, codes, ◌===◌, to_lower_case, starts_with,
}
use starknet.Htlc.{Htlc, new_htlc, claim, refund, get_by_id, success}
use starknet.Htlc.Once.{Operation, claims, refunds, payouts, payouts_once}
use starknet.Htlc.Rules.{Claimable, claim-Claimable}

abbrev identity : JsString → JsString
identity s = s

abbrev contract : Htlc
contract = new_htlc (codes "h") (codes "0x12") (codes "s") (codes "r") (codes "5") 100 1

abbrev rows : List Htlc
rows = contract ∷ []

claim-Claimable_example :
    ((claim identity (codes "h") (codes "0x12") rows).1 ≡ success)
    ↔ ((h : Htlc) × (get_by_id (codes "h") rows ≡ some h) × Claimable identity (codes "0x12") h)
claim-Claimable_example = claim-Claimable identity (codes "h") (codes "0x12") rows

abbrev operations : List Operation
operations =
    claims (codes "h") (codes "0x13")
    ∷ claims (codes "h") (codes "0x12")
    ∷ refunds (codes "h") (codes "s") 200
    ∷ []

payouts_once_example : payouts identity (codes "h") operations rows ≤ 1
payouts_once_example = payouts_once identity (codes "h") operations rows

-- One of the three succeeds.
one_payout : payouts identity (codes "h") operations rows ≡ 1
unfolding claim refund get_by_id ◌===◌ starts_with to_lower_case
one_payout = refl
