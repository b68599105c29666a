-- ===== src/Htlc/Rules.antt =====
-- When a claim and a refund succeed, and what they then do.
use mathlib.Core.Option
use starknet.Common.{
  ℕ, ◌≤◌, ◌≡◌, ◌↔◌, refl, sym, subst, ap, ◌∙◌, true, none, some, List, JsString, to_lower_case,
  ===_iff, if◌then◌else◌, arith, Option-cases, inl, inr,
}
use starknet.Htlc.{
  HtlcStatus, pending, claimed, refunded, Htlc, Answer, success, not_found, get_by_id,
  update_status, is_preimage, check_claim, check_refund, is_success, settle, claim, refund,
}

pub settle_missing :
    (check : Htlc → Answer) (status : HtlcStatus) (id : JsString) (rows : List Htlc)
    → get_by_id id rows ≡ none
    → settle check status id rows ≡ (rows, not_found)
settle_missing check status id rows e = rw (e, settle) refl

pub settle_found :
    (check : Htlc → Answer) (status : HtlcStatus) (id : JsString) (rows : List Htlc) (h : Htlc)
    → get_by_id id rows ≡ some h
    → settle check status id rows
      ≡ (if is_success (check h) then update_status status id rows else rows, check h)
settle_found check status id rows h e = rw (e, settle) refl

pub check_claim_iff :
    (poseidon : JsString → JsString) (preimage : JsString) (h : Htlc)
    → (check_claim poseidon preimage h ≡ success) ↔ (
        (h.status ≡ pending)
        × (is_preimage preimage ≡ true)
        × (to_lower_case (poseidon preimage) ≡ to_lower_case h.hashlock))
unfolding check_claim
check_claim_iff poseidon preimage h =
    ground (arith, ===_iff (to_lower_case (poseidon preimage)) (to_lower_case h.hashlock))

pub check_refund_iff :
    (sender : JsString) (now : ℕ) (h : Htlc)
    → (check_refund sender now h ≡ success) ↔ (
        (h.status ≡ pending) × (to_lower_case h.sender ≡ to_lower_case sender) × (h.timelock ≤ now))
unfolding check_refund
check_refund_iff sender now h =
    ground (arith, ===_iff (to_lower_case h.sender) (to_lower_case sender))

-- What a settling operation answers, from the check of the row that it finds.
settle-success :
    (check : Htlc → Answer) (status : HtlcStatus) (Allowed : Htlc → Type 0)
    (iff : (h : Htlc) → (check h ≡ success) ↔ Allowed h) (id : JsString) (rows : List Htlc)
    → ((settle check status id rows).1 ≡ success)
      ↔ ((h : Htlc) × (get_by_id id rows ≡ some h) × Allowed h)
settle-success check status Allowed iff id rows = elim (Option-cases (get_by_id id rows)) [
  | inl e ↦
      let m = ap (λ r. r.1) (settle_missing check status id rows e) in
      (λ q. cc, λ w. let f = w.1 in cc)
  | inr (h, e) ↦
      let m = ap (λ r. r.1) (settle_found check status id rows h e) in
      (
        λ q. (h, e, (iff h).0 (sym m ∙ q)),
        λ w. m ∙ (iff h).1 (subst Allowed (Option.some-injective w.0 h (sym w.1 ∙ e)) w.2),
      )
]

abbrev pub Claimable : (JsString → JsString) → JsString → Htlc → Type 0
Claimable poseidon preimage h =
    (h.status ≡ pending)
    × (is_preimage preimage ≡ true)
    × (to_lower_case (poseidon preimage) ≡ to_lower_case h.hashlock)

-- A claim succeeds exactly if the contract is there and pending, and the preimage is well-formed and
-- has the contract's hash, letter case aside.
pub claim-Claimable :
    (poseidon : JsString → JsString) (id preimage : JsString) (rows : List Htlc)
    → ((claim poseidon id preimage rows).1 ≡ success)
      ↔ ((h : Htlc) × (get_by_id id rows ≡ some h) × Claimable poseidon preimage h)
unfolding claim
claim-Claimable poseidon id preimage rows =
    settle-success (check_claim poseidon preimage) claimed (Claimable poseidon preimage)
      (check_claim_iff poseidon preimage) id rows

abbrev pub Refundable : JsString → ℕ → Htlc → Type 0
Refundable sender now h =
    (h.status ≡ pending) × (to_lower_case h.sender ≡ to_lower_case sender) × (h.timelock ≤ now)

-- A refund succeeds exactly if the contract is there and pending, the caller is its sender, letter
-- case aside, and its time has come.
pub refund-Refundable :
    (id sender : JsString) (now : ℕ) (rows : List Htlc)
    → ((refund id sender now rows).1 ≡ success)
      ↔ ((h : Htlc) × (get_by_id id rows ≡ some h) × Refundable sender now h)
unfolding refund
refund-Refundable id sender now rows =
    settle-success (check_refund sender now) refunded (Refundable sender now)
      (check_refund_iff sender now) id rows
