-- ===== src/Vault/Allows.antt =====
-- The handlers other than that of POST /withdraw take steps of the ledger (backend/src/routes/vault.ts,
-- audit.ts).
use starknet.Vault.{
  pending, is_vault_status, DbError, Vault, Store, update_vault, insert_vault, insert_commitment,
  insert_transaction, DbError, DbResult, stored, failed, get_vault,
}
use starknet.Vault.Deposit.{
  open_vault, Crypto, Confirmation, prepare_deposit, confirm_deposit, insert_both, prepared_vault,
  activate, store_deposit, verify_deposit, conclude_deposit,
}
use starknet.Vault.Audit.{
  audited, Audit, AuditAnswer, verify_hash, verify_hashes, is_simulated, answered, call_failed,
  status_of, db_status, has_deposit,
}
use starknet.Circuit.{Waited, confirmed, reverted, poll_failed, not_confirmed}
use starknet.Receipt.{
  ReceiptResult, received, invalid_format, transaction_not_found, other_error, DepositResult,
  unverified, verified, mismatch, verify_deposit_event,
}
use starknet.Vault.Deposit.{after_wait}
use starknet.Vault.{pending}
use starknet.Vault.Rows.{is_spent, KeepsBurn, is_spent-update_where, is_spent-append}
use starknet.Vault.Steps.{Keeps}
use starknet.Common.{
  ◌⊎◌, ℕ, ◌≡◌, refl, true, Option, none, some, List, [], ◌∷◌, ◌++◌, JsString, ◌===◌, if◌then◌else◌,
  arith, Bool-cases, Option-cases, inl, inr,
}
use starknet.Vault.Ledger.{Ledger, LedgerStep, idle}

-- The ledger that a store stands for.
abbrev pub ledger_of : Store → Ledger
ledger_of s = record { spent = λ n. is_spent n s.vaults; burned = s.burns }

abbrev StaysSpent : Store → Store → Type 0
StaysSpent s s' = (n : JsString) → is_spent n s.vaults ≡ true → is_spent n s'.vaults ≡ true

-- The ledger allows the change of the store.
abbrev pub Allows : Store → Store → Type 0
Allows s s' = LedgerStep (ledger_of s) (ledger_of s')

pub idle_lem : (s : Store) → Allows s s
idle_lem s = idle refl (λ n p. p)

pub Keeps-Allows : (s s' : Store) → Keeps s s' → Allows s s'
Keeps-Allows s s' k = idle k.1 (λ n p. rw k.0 p)

pub DbResult-cases :
    {A : Type 0} (r : DbResult A) → ((a : A) × (r ≡ stored a)) ⊎ ((x : DbError) × (r ≡ failed x))
DbResult-cases (stored a) = inl (a, refl)
DbResult-cases (failed x) = inr (x, refl)

insert_both-spent :
    (v : Vault) (s s' : Store)
    → insert_both v s ≡ stored s'
    → (s'.burns ≡ s.burns) × StaysSpent s s'
unfolding insert_both insert_vault insert_commitment
insert_both-spent v s s' e =
    let a : s'.vaults ≡ s.vaults ++ v ∷ [] = ground arith in
    let b : s'.burns ≡ s.burns = ground arith in
    (b, λ n p. rw a (is_spent-append n s.vaults (v ∷ []) p))

open_vault-Allows :
    (c : Crypto) (nullifier : JsString) (v : Vault) (s : Store)
    → Allows s (open_vault c nullifier v s).1
unfolding open_vault
open_vault-Allows c nullifier v s = elim (DbResult-cases (insert_both v s)) [
  | inr (x, q) ↦ rw (q, open_vault) (idle_lem s)
  | inl (s', q) ↦ let k = insert_both-spent v s s' q in rw (q, open_vault) (idle k.0 k.1)
]

pub prepares-Allows :
    (c : Crypto) (owner : JsString) (amount : Option ℕ) (days : ℕ) (balance : Option ℕ) (now : ℕ)
    (s : Store)
    → Allows s (prepare_deposit c owner amount days balance now s).1
unfolding prepare_deposit
prepares-Allows c owner none days balance now s = ground (arith, idle_lem s)
prepares-Allows c owner (some sats) days none now s = ground (arith, idle_lem s)
prepares-Allows c owner (some sats) days (some available) now s = ground (
  arith,
  idle_lem s,
  open_vault-Allows c (c.generate_nullifier (c.generate_commitment sats c.randomness) c.randomness)
      (prepared_vault c owner sats days now) s,
)

activate-KeepsBurn : (hash : JsString) → KeepsBurn (activate hash)
activate-KeepsBurn hash = record { keep_nullifier = λ v. refl; keep_burned = λ v h. h }

store_deposit-spent :
    (e : Confirmation) (v : Vault) (hash : JsString) (block : ℕ) (s s' : Store)
    → store_deposit e v hash block s ≡ stored s'
    → (s'.burns ≡ s.burns) × StaysSpent s s'
unfolding store_deposit insert_transaction
store_deposit-spent e v hash block s s' q =
    let a : s'.vaults ≡ update_vault v.id (activate hash) s.vaults = ground arith in
    let b : s'.burns ≡ s.burns = ground arith in
    (
      b,
      λ n p. rw a (
          is_spent-update_where n (λ u. u.id === v.id) (activate hash) s.vaults
            (activate-KeepsBurn hash) p),
    )

conclude_deposit-Allows :
    (e : Confirmation) (v : Vault) (hash : JsString) (r : DepositResult) (s : Store)
    → Allows s (conclude_deposit e v hash r s).1
conclude_deposit-Allows e v hash (unverified block) s = idle_lem s
conclude_deposit-Allows e v hash (mismatch c) s = idle_lem s
conclude_deposit-Allows e v hash (verified block time c) s =
    elim (DbResult-cases (store_deposit e v hash block s)) [
      | inr (x, q) ↦ rw (q, conclude_deposit) (idle_lem s)
      | inl (s', q) ↦
          let k = store_deposit-spent e v hash block s s' q in
          rw (q, conclude_deposit) (idle k.0 k.1)
    ]

verify_deposit-Allows :
    (e : Confirmation) (v : Vault) (hash : JsString) (r : ReceiptResult) (s : Store)
    → Allows s (verify_deposit e v hash r s).1
verify_deposit-Allows e v hash (received r) s =
    conclude_deposit-Allows e v hash (verify_deposit_event e.contract v.commitment e.block_time r) s
verify_deposit-Allows e v hash invalid_format s = idle_lem s
verify_deposit-Allows e v hash transaction_not_found s = idle_lem s
verify_deposit-Allows e v hash (other_error m) s = idle_lem s

waited-Allows :
    (e : Confirmation) (v : Vault) (hash : JsString) (w : Waited) (s : Store)
    → Allows s (after_wait e v hash w s).1
waited-Allows e v hash (confirmed block) s = verify_deposit-Allows e v hash e.receipt s
waited-Allows e v hash reverted s = idle_lem s
waited-Allows e v hash (poll_failed m) s = idle_lem s
waited-Allows e v hash (not_confirmed k) s = idle_lem s

pub confirms-Allows :
    (e : Confirmation) (id hash : JsString) (s : Store) → Allows s (confirm_deposit e id hash s).1
unfolding confirm_deposit
confirms-Allows e id hash s = elim (Option-cases (get_vault id s.vaults)) [
  | inl f ↦ rw (f, confirm_deposit) (idle_lem s)
  | inr (v, f) ↦ elim (Bool-cases (is_vault_status v.status pending)) [
    | inl p ↦ rw (f, confirm_deposit, p, if◌then◌else◌) (waited-Allows e v hash e.waited s)
    | inr p ↦ rw (f, confirm_deposit, p, if◌then◌else◌) (idle_lem s)
  ]
]

-- An audit changes the status of vaults only.
verify_hash-spent :
    (provider : JsString → AuditAnswer) (n h : JsString) (a : Audit)
    → is_spent n a.vaults ≡ true
    → is_spent n (verify_hash provider h a).vaults ≡ true
unfolding verify_hash
verify_hash-spent provider n h a p = elim (Bool-cases (is_simulated h)) [
  | inl q ↦ rw (q, verify_hash) p
  | inr q ↦ rw (q, verify_hash) (go (provider h))
]
  where
    go : (x : AuditAnswer) → is_spent n (audited h x a).vaults ≡ true
    go (answered f) =
        is_spent-update_where n (has_deposit h) (λ v. record v { status = db_status (status_of f) })
          a.vaults (record { keep_nullifier = λ v. refl; keep_burned = λ v b. b }) p
    go call_failed = p

pub verify_hashes-spent :
    (provider : JsString → AuditAnswer) (n : JsString) (hs : List JsString) (a : Audit)
    → is_spent n a.vaults ≡ true
    → is_spent n (verify_hashes provider hs a).vaults ≡ true
unfolding verify_hashes
verify_hashes-spent provider n [] a p = p
verify_hashes-spent provider n (h ∷ hs) a p =
    verify_hashes-spent provider n hs (verify_hash provider h a)
      (verify_hash-spent provider n h a p)
