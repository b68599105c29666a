-- ===== src/Vault/Audit.antt =====
-- backend/src/routes/audit.ts: the list of deposits, the check of the stored hashes against the chain that
-- writes back to the table, and the one that only counts.
use starknet.Receipt.{ReceiptResult, received, invalid_format, transaction_not_found, other_error}
use starknet.Validators.{matches_hex}
use starknet.Vault.{VaultStatus, pending, active, is_vault_status, Vault, Vaults, TransactionRow}
use starknet.Common.{
  length, ℕ, suc, Bool, false, not, ◌||◌, Option, none, some, List, [], ◌∷◌, ◌++◌, JsString, codes,
  ◌===◌, starts_with, truthy, leb, take, filter, is_some, if◌then◌else◌, update_where, sort_by,
}

-- The hashes of the deposits. The table `htlcs` has no column `claim_tx_hash`: that query throws, and its
-- `catch` leaves the list of contracts empty.
unfoldable pub deposit_hashes : Vaults → List JsString
deposit_hashes [] = []
deposit_hashes (v ∷ t) =
    let rest = deposit_hashes t in elim v.deposit_tx_hash [ none ↦ rest | some h ↦ h ∷ rest ]

abbrev pub is_simulated : JsString → Bool
is_simulated h = starts_with h (codes "SIMULATED")

abbrev pub voyager_url : JsString → Option JsString
voyager_url h =
    if is_simulated h then none else some (codes "https://sepolia.voyager.online/tx/" ++ h)

pub record AuditEvent : Type 0 where
  pub id : JsString
  pub tx_hash : JsString
  pub succeeded : Bool
  pub timestamp : ℕ
  pub url : Option JsString

abbrev pub event_of : Vault → JsString → AuditEvent
event_of v h = record {
  id = v.id;
  tx_hash = h;
  succeeded = not (is_vault_status v.status pending);
  timestamp = v.created_at;
  url = voyager_url h;
}

abbrev pub events_of : Vaults → List AuditEvent
events_of [] = []
events_of (v ∷ t) =
    let rest = events_of t in elim v.deposit_tx_hash [ none ↦ rest | some h ↦ event_of v h ∷ rest ]

-- GET /api/audit, less the amount
unfoldable pub list_events : Vaults → List AuditEvent
list_events t = events_of (
    take 50
      (sort_by (λ a b. leb b.created_at a.created_at) (filter (λ v. is_some v.deposit_tx_hash) t)))

-- What the provider answers for a hash.
pub record Finality : Type 0 where
  pub execution_status : Option JsString
  pub finality_status : Option JsString

pub data AuditAnswer : Type 0 where
  answered : Finality → AuditAnswer
  call_failed : AuditAnswer

-- `a || b`
abbrev pub or_else : Option JsString → JsString → JsString
or_else none d = d
or_else (some s) d = if truthy s then s else d

abbrev pub status_of : Finality → JsString
status_of f = or_else f.execution_status (or_else f.finality_status (codes "PENDING"))

pub record Counts : Type 0 where
  pub verified : ℕ
  pub pending_count : ℕ
  pub failed : ℕ
  pub simulated : ℕ

pub record AuditResult : Type 0 where
  pub tx_hash : JsString
  pub status : JsString
  pub url : Option JsString

pub record Audit : Type 0 where
  pub vaults : Vaults
  pub counts : Counts
  pub results : List AuditResult

abbrev pub is_success : JsString → Bool
is_success s = s === codes "ACCEPTED_ON_L2" || s === codes "SUCCEEDED"

abbrev pub is_failure : JsString → Bool
is_failure s = s === codes "REJECTED" || s === codes "REVERTED"

abbrev pub count_status : JsString → Counts → Counts
count_status s c =
    if is_success s
    then record c { verified = suc c.verified }
    else if is_failure s
    then record c { failed = suc c.failed }
    else record c { pending_count = suc c.pending_count }

abbrev pub db_status : JsString → VaultStatus
db_status s = if is_success s then active else pending

-- `deposit_tx_hash = ?`
abbrev pub is_deposit_of : JsString → Option JsString → Bool
is_deposit_of h none = false
is_deposit_of h (some g) = g === h

abbrev pub has_deposit : JsString → Vault → Bool
has_deposit h v = is_deposit_of h v.deposit_tx_hash

-- `UPDATE vaults SET status = ? WHERE deposit_tx_hash = ?`
abbrev pub set_vault_status : JsString → VaultStatus → Vaults → Vaults
set_vault_status h s t = update_where (has_deposit h) (λ v. record v { status = s }) t

abbrev pub result_row : JsString → JsString → AuditResult
result_row h s = record { tx_hash = h; status = s; url = voyager_url h }

-- A round for a hash that is looked up.
abbrev pub audited : JsString → AuditAnswer → Audit → Audit
audited h (answered f) a = record a {
  vaults = set_vault_status h (db_status (status_of f)) a.vaults;
  counts = count_status (status_of f) a.counts;
  results = a.results ++ result_row h (status_of f) ∷ [];
}
audited h call_failed a = record a {
  counts = record a.counts { pending_count = suc a.counts.pending_count };
  results = a.results ++ result_row h (codes "PENDING") ∷ [];
}

-- One round of the loop.
unfoldable pub verify_hash : (JsString → AuditAnswer) → JsString → Audit → Audit
verify_hash provider h a =
    if is_simulated h
    then record a {
      counts = record a.counts { simulated = suc a.counts.simulated };
      results = a.results ++ result_row h (codes "SIMULATED") ∷ [];
    }
    else audited h (provider h) a

unfoldable pub verify_hashes : (JsString → AuditAnswer) → List JsString → Audit → Audit
unfolding verify_hash
verify_hashes provider [] a = a
verify_hashes provider (h ∷ hs) a = verify_hashes provider hs (verify_hash provider h a)

abbrev pub start_audit : Vaults → Audit
start_audit t = record {
  vaults = t;
  counts = record { verified = 0; pending_count = 0; failed = 0; simulated = 0 };
  results = [];
}

-- POST /api/audit/verify
unfoldable pub audit_verify : (JsString → AuditAnswer) → Vaults → Audit
unfolding verify_hashes deposit_hashes
audit_verify provider t = verify_hashes provider (deposit_hashes t) (start_audit t)

-- What GET /api/audit/verify-all-transactions says of one hash.
pub data Finding : Type 0 where
  fake not_found unknown : Finding
  real : ℕ → Finding

unfoldable pub find_transaction : (JsString → ReceiptResult) → TransactionRow → Finding
unfolding matches_hex
find_transaction provider r =
    if not (matches_hex 63 64 r.tx_hash) then fake else elim (provider r.tx_hash) [
      | received c ↦ real c.block_number
      | transaction_not_found ↦ not_found
      | invalid_format ↦ unknown
      | other_error m ↦ unknown
    ]

pub record Report : Type 0 where
  pub total : ℕ
  pub real_on_chain : ℕ
  pub not_found_on_chain : ℕ
  pub fake_format_detected : ℕ
  pub findings : List (JsString × Finding)

abbrev pub count_finding : Finding → Report → Report
count_finding fake r = record r { fake_format_detected = suc r.fake_format_detected }
count_finding not_found r = record r { not_found_on_chain = suc r.not_found_on_chain }
count_finding unknown r = r
count_finding (real block) r = record r { real_on_chain = suc r.real_on_chain }

abbrev pub add_finding : TransactionRow → Finding → Report → Report
add_finding t f r = record (count_finding f r) { findings = r.findings ++ (t.tx_hash, f) ∷ [] }

unfoldable pub report_rows : (JsString → ReceiptResult) → List TransactionRow → Report → Report
unfolding find_transaction
report_rows provider [] r = r
report_rows provider (t ∷ ts) r =
    report_rows provider ts (add_finding t (find_transaction provider t) r)

abbrev pub start_report : List TransactionRow → Report
start_report ts = record {
  total = length ts;
  real_on_chain = 0;
  not_found_on_chain = 0;
  fake_format_detected = 0;
  findings = [];
}

-- GET /api/audit/verify-all-transactions
unfoldable pub verify_all_transactions : (JsString → ReceiptResult) → List TransactionRow → Report
unfolding report_rows
verify_all_transactions provider ts =
    report_rows provider (sort_by (λ a b. leb b.timestamp a.timestamp) ts) (start_report ts)
