-- ===== src/Htlc/Once.antt =====
-- Over any sequence of operations a contract pays out at most once.
use starknet.Common.{
  ℕ, ◌+◌, ◌≤◌, ◌≡◌, refl, sym, subst, ap, ◌∙◌, Bool, true, false, ◌&&◌, Option, none, some, List,
  [], ◌∷◌, ◌++◌, JsString, ◌===◌, ===_iff, ===_refl, if◌then◌else◌, arith, Bool-cases, Option-cases,
  inl, inr,
}
use starknet.Htlc.{
  new_htlc, HtlcStatus, pending, claimed, refunded, Htlc, Answer, success, get_by_id, create,
  check_claim, check_refund, is_success, settle, claim, refund,
}
use starknet.Htlc.Rows.{get_by_id-append, get_by_id-update_self, get_by_id-update_other}
use starknet.Htlc.Rules.{settle_missing, settle_found, check_claim_iff, check_refund_iff}

pub data Operation : Type 0 where
  creates : JsString → JsString → JsString → JsString → JsString → ℕ → ℕ → Operation
  claims : JsString → JsString → Operation
  refunds : JsString → JsString → ℕ → Operation

-- An operation that settles the contract `id` if it succeeds
abbrev pub settles : JsString → Operation → Bool
settles id (creates k preimage sender receiver amount timelock now) = false
settles id (claims k preimage) = id === k
settles id (refunds k sender now) = id === k

module _ (poseidon : JsString → JsString) where
  abbrev pub perform : Operation → List Htlc → List Htlc × Answer
  perform (creates id preimage sender receiver amount timelock now) rows =
      create poseidon id preimage sender receiver amount timelock now rows
  perform (claims id preimage) rows = claim poseidon id preimage rows
  perform (refunds id sender now) rows = refund id sender now rows

  -- How often the operations pay out the contract `id`.
  abbrev pub payouts : JsString → List Operation → List Htlc → ℕ
  payouts id [] rows = 0
  payouts id (o ∷ os) rows =
      let r = perform o rows in
      (if settles id o && is_success r.1 then 1 else 0) + payouts id os r.0

-- What may still be paid out: nothing once the contract is settled.
abbrev left_to_pay : Option Htlc → ℕ
left_to_pay none = 1
left_to_pay (some h) = elim h.status [ pending ↦ 1 | claimed ↦ 0 | refunded ↦ 0 ]

left_to_pay-le : (r : Option Htlc) → left_to_pay r ≤ 1
left_to_pay-le none = omega arith
left_to_pay-le (some h) = ground arith

pending-left_to_pay : (h : Htlc) → h.status ≡ pending → left_to_pay (some h) ≡ 1
pending-left_to_pay h p = rw p refl

append-le :
    (id : JsString) (rows more : List Htlc)
    → left_to_pay (get_by_id id (rows ++ more)) ≤ left_to_pay (get_by_id id rows)
append-le id rows more = elim (Option-cases (get_by_id id rows)) [
  | inl f ↦ rw f (left_to_pay-le (get_by_id id (rows ++ more)))
  | inr (g, f) ↦ rw (f, get_by_id-append id rows more g f) (omega arith)
]

module _ (check : Htlc → Answer) (status : HtlcStatus)
    (only : (h : Htlc) → check h ≡ success → h.status ≡ pending)
    (settled : (h : Htlc) → left_to_pay (some (record h { status = status })) ≡ 0) where
  abbrev pays : JsString → JsString → List Htlc → ℕ
  pays id k rows = if id === k && is_success (settle check status k rows).1 then 1 else 0

  abbrev left_after : JsString → JsString → List Htlc → ℕ
  left_after id k rows = left_to_pay (get_by_id id (settle check status k rows).0)

  pays_refused :
      (id k : JsString) (rows : List Htlc)
      → (settle check status k rows).0 ≡ rows
      → is_success (settle check status k rows).1 ≡ false
      → pays id k rows + left_after id k rows ≤ left_to_pay (get_by_id id rows)
  pays_refused id k rows e f = rw (e, f) (ground arith)

  pays_self :
      (k : JsString) (rows : List Htlc) (h : Htlc)
      → get_by_id k rows ≡ some h
      → is_success (check h) ≡ true
      → pays k k rows + left_after k k rows ≤ left_to_pay (get_by_id k rows)
  pays_self k rows h e f =
      let p : h.status ≡ pending = only h (ground arith) in
      let q = settled h in
      rw
        (
          settle_found check status k rows h e,
          f,
          ===_refl k,
          get_by_id-update_self k status rows h e,
          e,
        )
        (rw (q, pending-left_to_pay h p) (omega arith))

  pays_other :
      (id k : JsString) (rows : List Htlc) (h : Htlc)
      → get_by_id k rows ≡ some h
      → is_success (check h) ≡ true
      → (id === k) ≡ false
      → pays id k rows + left_after id k rows ≤ left_to_pay (get_by_id id rows)
  pays_other id k rows h e f ne =
      rw (settle_found check status k rows h e, f, ne, get_by_id-update_other id k status rows ne)
        (ground arith)

  settle-pays :
      (id k : JsString) (rows : List Htlc)
      → pays id k rows + left_after id k rows ≤ left_to_pay (get_by_id id rows)
  settle-pays id k rows = elim (Option-cases (get_by_id k rows)) [
    | inl e ↦
        let m = settle_missing check status k rows e in
        pays_refused id k rows (ap (λ r. r.0) m) (ap (λ r. is_success r.1) m)
    | inr (h, e) ↦ elim (Bool-cases (is_success (check h))) [
      | inr f ↦
          let m = settle_found check status k rows h e in
          pays_refused id k rows (ap (λ r. r.0) m ∙ (rw f refl)) (ap (λ r. is_success r.1) m ∙ f)
      | inl f ↦ elim (Bool-cases (id === k)) [
        | inr ne ↦ pays_other id k rows h e f ne
        | inl eq ↦
            subst (λ j. pays j k rows + left_after j k rows ≤ left_to_pay (get_by_id j rows))
              (sym ((===_iff id k).0 eq)) (pays_self k rows h e f)
      ]
    ]
  ]

module _ (poseidon : JsString → JsString) where
  claim-pays :
      (id k preimage : JsString) (rows : List Htlc)
      → (if id === k && is_success (claim poseidon k preimage rows).1 then 1 else 0)
          + left_to_pay (get_by_id id (claim poseidon k preimage rows).0)
        ≤ left_to_pay (get_by_id id rows)
  unfolding claim
  claim-pays id k preimage rows =
      settle-pays (check_claim poseidon preimage) claimed
        (λ h e. ((check_claim_iff poseidon preimage h).0 e).0) (λ h. refl) id k rows

  refund-pays :
      (id k sender : JsString) (now : ℕ) (rows : List Htlc)
      → (if id === k && is_success (refund k sender now rows).1 then 1 else 0)
          + left_to_pay (get_by_id id (refund k sender now rows).0)
        ≤ left_to_pay (get_by_id id rows)
  unfolding refund
  refund-pays id k sender now rows =
      settle-pays (check_refund sender now) refunded
        (λ h e. ((check_refund_iff sender now h).0 e).0) (λ h. refl) id k rows

  create-pays :
      (id k preimage sender receiver amount : JsString) (timelock now : ℕ) (rows : List Htlc)
      → left_to_pay
          (get_by_id id (create poseidon k preimage sender receiver amount timelock now rows).0)
        ≤ left_to_pay (get_by_id id rows)
  unfolding create
  create-pays id k preimage sender receiver amount timelock now rows =
      elim (Option-cases (get_by_id k rows)) [
        | inr (h, e) ↦ rw (e) (omega arith)
        | inl e ↦ rw e (
            append-le id rows
              (new_htlc k (poseidon preimage) sender receiver amount timelock now ∷ []))
      ]

  perform-pays :
      (id : JsString) (o : Operation) (rows : List Htlc)
      → (if settles id o && is_success (perform poseidon o rows).1 then 1 else 0)
          + left_to_pay (get_by_id id (perform poseidon o rows).0)
        ≤ left_to_pay (get_by_id id rows)
  perform-pays id (creates k preimage sender receiver amount timelock now) rows =
      let c = create-pays id k preimage sender receiver amount timelock now rows in omega arith
  perform-pays id (claims k preimage) rows = claim-pays id k preimage rows
  perform-pays id (refunds k sender now) rows = refund-pays id k sender now rows

  payouts-left :
      (id : JsString) (os : List Operation) (rows : List Htlc)
      → payouts poseidon id os rows ≤ left_to_pay (get_by_id id rows)
  payouts-left id [] rows = omega arith
  payouts-left id (o ∷ os) rows =
      let p = perform-pays id o rows in
      let r = payouts-left id os (perform poseidon o rows).0 in omega arith

  -- Whatever creations, claims and refunds are tried, in whatever order, by whomever and whenever, at
  -- most one claim or refund of a contract succeeds.
  pub payouts_once :
      (id : JsString) (os : List Operation) (rows : List Htlc) → payouts poseidon id os rows ≤ 1
  payouts_once id os rows =
      let p = payouts-left id os rows in let q = left_to_pay-le (get_by_id id rows) in omega arith
