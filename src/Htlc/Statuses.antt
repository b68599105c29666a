-- ===== src/Htlc/Statuses.antt =====
-- The HTTP status of each answer (backend/src/routes/htlc.ts): the substrings that the routes look for tell
-- the errors of backend/src/services/HTLCService.ts apart.
use starknet.Htlc.{
  Htlc, Answer, success, not_found, already_claimed, already_refunded, format_mismatch,
  hashlock_mismatch, not_sender, timelock_not_expired, duplicate_id, get_by_id, claim, refund,
  check_claim, check_refund,
}
use starknet.Htlc.Route.{
  message_of, claim_status, refund_status, answer_of, claim_route, refund_route, http_status,
}
use starknet.Common.{
  digits, decimal, any, ℕ, zero, suc, ◌/◌, ◌%◌, ◌+◌, ◌≡◌, refl, ap, Bool, true, false, List, [],
  ◌∷◌, ◌++◌, JsString, codes, includes, starts_with, truthy, ltb, ◌==◌, All, All-append, arith, inl,
  inr, Option-cases, Bool-cases,
}

-- A text without the first character of another one does not include it.
includes_absent :
    (h : ℕ) (p s : JsString) → All (λ c. (c == h) ≡ false) s → includes s (h ∷ p) ≡ false
unfolding includes starts_with
includes_absent h p [] k = refl
includes_absent h p (c ∷ s) k = ground (arith, k.0, includes_absent h p s k.1)

digits-All : (f n : ℕ) → All (λ c. (c == b'R') ≡ false) (digits f n)
digits-All zero n = tt
digits-All (suc f) n = elim (Bool-cases (ltb n 10)) [
  | inl e ↦ rw e (ground arith, tt)
  | inr e ↦ rw e (
      All-append (λ c. (c == b'R') ≡ false) (digits f (n / 10)) ((48 + n % 10) ∷ [])
        (digits-All f (n / 10)) (ground arith, tt))
]

any-All : (p : ℕ → Bool) (s : JsString) → any p s ≡ false → All (λ c. p c ≡ false) s
any-All p [] h = tt
any-All p (c ∷ s) h = (ground (arith, h), any-All p s (ground (arith, h)))

timelock_absent : (n : ℕ) → All (λ c. (c == b'R') ≡ false) (message_of (timelock_not_expired n))
timelock_absent n =
    All-append (λ c. (c == b'R') ≡ false) (codes "Timelock not expired — ")
      (decimal n ++ codes "s remaining")
      (any-All (λ c. c == b'R') (codes "Timelock not expired — ") refl)
      (All-append (λ c. (c == b'R') ≡ false) (decimal n) (codes "s remaining")
        (digits-All (n + 1) n) (any-All (λ c. c == b'R') (codes "s remaining") refl))

timelock_status : (n : ℕ) → refund_status (message_of (timelock_not_expired n)) ≡ 403
unfolding refund_status includes starts_with
timelock_status n =
    let none_there : includes (message_of (timelock_not_expired n)) (codes "Resource is locked")
        ≡ false =
      includes_absent b'R' (codes "esource is locked") (message_of (timelock_not_expired n))
        (timelock_absent n) in
    rw (none_there, refund_status) refl

-- What the operations answer.
abbrev may_claim : Answer → Bool
may_claim not_sender = false
may_claim (timelock_not_expired n) = false
may_claim duplicate_id = false
may_claim _ = true

abbrev may_refund : Answer → Bool
may_refund format_mismatch = false
may_refund hashlock_mismatch = false
may_refund duplicate_id = false
may_refund _ = true

check_claim-may :
    (poseidon : JsString → JsString) (preimage : JsString) (h : Htlc)
    → may_claim (check_claim poseidon preimage h) ≡ true
unfolding check_claim
check_claim-may poseidon preimage h = ground arith

check_refund-may :
    (sender : JsString) (now : ℕ) (h : Htlc) → may_refund (check_refund sender now h) ≡ true
unfolding check_refund
check_refund-may sender now h = ground arith

claim_answer :
    (x : Answer) (rows : List Htlc)
    → may_claim x ≡ true
    → answer_of claim_status (rows, x) ≡ (http_status x, rows)
unfolding claim_status includes starts_with
claim_answer success rows h = refl
claim_answer not_found rows h = refl
claim_answer already_claimed rows h = refl
claim_answer already_refunded rows h = refl
claim_answer format_mismatch rows h = refl
claim_answer hashlock_mismatch rows h = refl
claim_answer not_sender rows h = cc
claim_answer (timelock_not_expired n) rows h = cc
claim_answer duplicate_id rows h = cc

refund_answer :
    (x : Answer) (rows : List Htlc)
    → may_refund x ≡ true
    → answer_of refund_status (rows, x) ≡ (http_status x, rows)
unfolding refund_status includes starts_with
refund_answer success rows h = refl
refund_answer not_found rows h = refl
refund_answer already_claimed rows h = refl
refund_answer already_refunded rows h = refl
refund_answer format_mismatch rows h = cc
refund_answer hashlock_mismatch rows h = cc
refund_answer not_sender rows h = refl
refund_answer (timelock_not_expired n) rows h = ap (λ k. (k, rows)) (timelock_status n)
refund_answer duplicate_id rows h = cc

claim-may :
    (poseidon : JsString → JsString) (id preimage : JsString) (rows : List Htlc)
    → may_claim (claim poseidon id preimage rows).1 ≡ true
unfolding claim
claim-may poseidon id preimage rows = elim (Option-cases (get_by_id id rows)) [
  | inl e ↦ ground arith
  | inr (h, e) ↦ ground (arith, check_claim-may poseidon preimage h)
]

refund-may :
    (id sender : JsString) (now : ℕ) (rows : List Htlc)
    → may_refund (refund id sender now rows).1 ≡ true
unfolding refund
refund-may id sender now rows = elim (Option-cases (get_by_id id rows)) [
  | inl e ↦ ground arith
  | inr (h, e) ↦ ground (arith, check_refund-may sender now h)
]

-- Where no lock is held and no text is empty, POST /claim answers with the status that belongs to the answer of
-- claim, and leaves the table as claim does.
pub claim_route-http_status :
    (poseidon : JsString → JsString) (id preimage : JsString) (rows : List Htlc)
    → truthy id ≡ true
    → truthy preimage ≡ true
    → let done = claim poseidon id preimage rows in
      claim_route poseidon false id preimage rows ≡ (http_status done.1, done.0)
unfolding claim_route
claim_route-http_status poseidon id preimage rows h k =
    let done = claim poseidon id preimage rows in
    rw (h, k, claim_route) (claim_answer done.1 done.0 (claim-may poseidon id preimage rows))

-- Where no lock is held and no text is empty, POST /refund answers with the status that belongs to the answer of
-- refund, and leaves the table as refund does.
pub refund_route-http_status :
    (id sender : JsString) (now : ℕ) (rows : List Htlc)
    → truthy id ≡ true
    → truthy sender ≡ true
    → let done = refund id sender now rows in
      refund_route false id sender now rows ≡ (http_status done.1, done.0)
unfolding refund_route
refund_route-http_status id sender now rows h k =
    let done = refund id sender now rows in
    rw (h, k, refund_route) (refund_answer done.1 done.0 (refund-may id sender now rows))
