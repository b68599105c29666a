-- ===== src/Vault/Counted.antt =====
-- What the audits count (backend/src/routes/audit.ts).
use starknet.Receipt.{ReceiptResult}
use starknet.Vault.{Vaults, TransactionRow}
use starknet.Vault.Audit.{
  fake, not_found, unknown, real, start_report, Audit, AuditAnswer, answered, call_failed, Counts,
  audit_verify, verify_hash, verify_hashes, start_audit, deposit_hashes, is_simulated, audited,
  status_of, count_status, Report, Finding, report_rows, find_transaction, add_finding,
  verify_all_transactions,
}
use starknet.Common.{
  leb, sort_by, length-sort_by, ℕ, ◌+◌, ◌≤◌, ◌≡◌, refl, ◌∙◌, List, [], ◌∷◌, JsString, length,
  length-append, arith, Bool-cases, inl, inr,
}

-- All that an audit has counted.
abbrev pub counted : Counts → ℕ
counted c = c.verified + c.pending_count + c.failed + c.simulated

count_status-counted : (s : JsString) (c : Counts) → counted (count_status s c) ≡ counted c + 1
count_status-counted s c = ground arith

audited-counted :
    (h : JsString) (x : AuditAnswer) (a : Audit)
    → counted (audited h x a).counts ≡ counted a.counts + 1
audited-counted h (answered f) a = count_status-counted (status_of f) a.counts
audited-counted h call_failed a = omega arith

verify_hash-counted :
    (provider : JsString → AuditAnswer) (h : JsString) (a : Audit)
    → counted (verify_hash provider h a).counts ≡ counted a.counts + 1
unfolding verify_hash
verify_hash-counted provider h a = ground (arith, audited-counted h (provider h) a)

verify_hashes-counted :
    (provider : JsString → AuditAnswer) (hs : List JsString) (a : Audit)
    → counted (verify_hashes provider hs a).counts ≡ counted a.counts + length hs
unfolding verify_hashes
verify_hashes-counted provider [] a = omega arith
verify_hashes-counted provider (h ∷ hs) a = omega (
  arith,
  verify_hash-counted provider h a,
  verify_hashes-counted provider hs (verify_hash provider h a),
)

verify_hash-results :
    (provider : JsString → AuditAnswer) (h : JsString) (a : Audit)
    → length (verify_hash provider h a).results ≡ length a.results + 1
unfolding verify_hash
verify_hash-results provider h a = elim (Bool-cases (is_simulated h)) [
  | inl q ↦ rw (q, verify_hash) (length-append a.results _)
  | inr q ↦ rw (q, verify_hash) (go (provider h))
]
  where
    go : (x : AuditAnswer) → length (audited h x a).results ≡ length a.results + 1
    go (answered f) = length-append a.results _
    go call_failed = length-append a.results _

verify_hashes-results :
    (provider : JsString → AuditAnswer) (hs : List JsString) (a : Audit)
    → length (verify_hashes provider hs a).results ≡ length a.results + length hs
unfolding verify_hashes
verify_hashes-results provider [] a = omega arith
verify_hashes-results provider (h ∷ hs) a = omega (
  arith,
  verify_hash-results provider h a,
  verify_hashes-results provider hs (verify_hash provider h a),
)

-- An audit counts each hash of a deposit once, as verified, pending, failed or simulated, and lists it once.
pub audit_verify-counted :
    (provider : JsString → AuditAnswer) (t : Vaults)
    → let a = audit_verify provider t in
      (counted a.counts ≡ length (deposit_hashes t))
      × (length a.results ≡ length (deposit_hashes t))
unfolding audit_verify
audit_verify-counted provider t = (
  omega (arith, verify_hashes-counted provider (deposit_hashes t) (start_audit t)),
  omega (arith, verify_hashes-results provider (deposit_hashes t) (start_audit t)),
)

-- The findings of a report
abbrev pub told : Report → ℕ
told r = r.real_on_chain + r.not_found_on_chain + r.fake_format_detected

told-add_finding :
    (t : TransactionRow) (f : Finding) (r : Report)
    → told r ≤ length r.findings
    → let r' = add_finding t f r in
      (told r' ≤ length r'.findings)
      × (length r'.findings ≡ length r.findings + 1)
      × (r'.total ≡ r.total)
told-add_finding t fake r h = (
  omega (arith, h, length-append r.findings ((t.tx_hash, fake) ∷ [])),
  length-append r.findings _,
  refl,
)
told-add_finding t not_found r h = (
  omega (arith, h, length-append r.findings ((t.tx_hash, not_found) ∷ [])),
  length-append r.findings _,
  refl,
)
told-add_finding t unknown r h = (
  omega (arith, h, length-append r.findings ((t.tx_hash, unknown) ∷ [])),
  length-append r.findings _,
  refl,
)
told-add_finding t (real block) r h = (
  omega (arith, h, length-append r.findings ((t.tx_hash, real block) ∷ [])),
  length-append r.findings _,
  refl,
)

report_rows-told :
    (provider : JsString → ReceiptResult) (ts : List TransactionRow) (r : Report)
    → told r ≤ length r.findings
    → let r' = report_rows provider ts r in
      (told r' ≤ length r'.findings)
      × (length r'.findings ≡ length r.findings + length ts)
      × (r'.total ≡ r.total)
unfolding report_rows
report_rows-told provider [] r h = (h, omega arith, refl)
report_rows-told provider (t ∷ ts) r h =
    let a = told-add_finding t (find_transaction provider t) r h in
    let b = report_rows-told provider ts (add_finding t (find_transaction provider t) r) a.0 in
    (b.0, omega (arith, a.1, b.1), b.2 ∙ a.2)

-- The report on all transactions lists each of them once, and counts at most one finding for each.
pub verify_all_transactions-told :
    (provider : JsString → ReceiptResult) (ts : List TransactionRow)
    → let r = verify_all_transactions provider ts in
      (length r.findings ≡ length ts) × (r.total ≡ length ts) × (told r ≤ length ts)
unfolding verify_all_transactions
verify_all_transactions-told provider ts =
    let sorted = sort_by (λ a b. leb b.timestamp a.timestamp) ts in
    let b = report_rows-told provider sorted (start_report ts) (omega arith) in
    let l = length-sort_by (λ (a : TransactionRow) b. leb b.timestamp a.timestamp) ts in
    (omega (arith, b.1, l), b.2, omega (arith, b.0, b.1, l))
