-- ===== src/Vault.antt =====
-- The tables vaults, commitments and transactions of backend/src/db/schema.ts, with their constraints,
-- as the handlers of backend/src/routes/vault.ts and audit.ts use them.
pub mod Deposit
pub mod Burn
pub mod Withdraw
pub mod Rows
pub mod Steps
pub mod Ledger
pub mod Allows
pub mod Once
pub mod Payments
pub mod First
pub mod Deposited
pub mod Audited
pub mod Counted
pub mod Confirmed
pub mod Executed
pub mod Funded
pub mod Refusals
pub mod Abandoned
pub mod Overlap
pub mod Audit
pub mod Bridge
pub mod Listing
pub mod Direct
pub mod Execute
pub mod Transactions
pub mod Cursor
pub mod Pages
mod Samples
mod Tests
mod DepositTests
mod PageTests
use starknet.Payout.{World}
use starknet.Common.{
  ℕ, ◌+◌, Bool, true, false, not, ◌&&◌, ◌||◌, Option, none, some, List, [], ◌∷◌, ◌++◌, JsString,
  codes, ◌===◌, ◌==◌, starts_with, length, leb, any, find?, is_some, if◌then◌else◌, update_where,
}

pub data VaultStatus : Type 0 where
  pending active withdrawn : VaultStatus

abbrev pub is_vault_status : VaultStatus → VaultStatus → Bool
is_vault_status pending pending = true
is_vault_status active active = true
is_vault_status withdrawn withdrawn = true
is_vault_status _ _ = false

-- One row of the table `vaults`
pub record Vault : Type 0 where
  pub id : JsString
  pub owner_address : JsString
  pub commitment : JsString
  pub encrypted_amount : JsString
  pub salt : JsString
  pub randomness_hint : JsString
  pub lock_duration_days : ℕ
  pub created_at : ℕ
  pub unlock_at : ℕ
  pub status : VaultStatus
  pub deposit_tx_hash : Option JsString
  pub withdraw_tx_hash : Option JsString
  pub bitcoin_txid : Option JsString
  pub nullifier_hash : Option JsString
  pub bitcoin_withdrawal_address : Option JsString
  pub deposit_sender_address : Option JsString

abbrev pub Vaults : Type 0
Vaults = List Vault

-- One row of the table `commitments`
pub record CommitmentRow : Type 0 where
  pub commitment : JsString
  pub vault_id : JsString
  pub block_number : Option ℕ

pub data Kind : Type 0 where
  deposit withdraw : Kind

-- One row of the table `transactions`
pub record TransactionRow : Type 0 where
  pub id : JsString
  pub vault_id : JsString
  pub tx_hash : JsString
  pub kind : Kind
  pub amount_encrypted : JsString
  pub block_number : Option ℕ
  pub timestamp : ℕ

-- One row of the table `nullifiers`
pub record NullifierRow : Type 0 where
  pub nullifier_hash : JsString
  pub vault_id : JsString
  pub used_at : ℕ
  pub withdraw_tx_hash : JsString

-- The four tables, the table of authorizations with the Bitcoin payments, and the withdrawals sent to
-- the contract on Starknet, as nullifier and amount, the latest first.
pub record Store : Type 0 where
  pub vaults : Vaults
  pub commitments : List CommitmentRow
  pub transactions : List TransactionRow
  pub nullifiers : List NullifierRow
  pub world : World
  pub burns : List (JsString × ℕ)

-- Why the database refuses a row.
pub data DbError : Type 0 where
  unique_constraint check_constraint fake_tx_hash foreign_key : DbError

pub data DbResult (A : Type 0) : Type 0 where
  stored : A → DbResult A
  failed : DbError → DbResult A

-- `LIKE '0x%'`, which is blind to letter case.
abbrev pub like_0x : JsString → Bool
like_0x s = starts_with s (codes "0x") || starts_with s (codes "0X")

-- The CHECK of a column that holds the hash of a transaction.
abbrev pub is_hash : JsString → Bool
is_hash s = like_0x s && leb 34 (length s)

abbrev pub null_or_hash : Option JsString → Bool
null_or_hash none = true
null_or_hash (some s) = is_hash s

-- `nullifier_hash = ?`: the null of the column equals nothing.
unfoldable pub has_nullifier : JsString → Vault → Bool
has_nullifier n v = elim v.nullifier_hash [ none ↦ false | some m ↦ m === n ]

-- `SELECT … FROM vaults WHERE id = ?`
unfoldable pub get_vault : JsString → Vaults → Option Vault
get_vault id t = find? (λ v. v.id === id) t

-- `SELECT … FROM vaults WHERE nullifier_hash = ?`
unfoldable pub get_vault_by_nullifier : JsString → Vaults → Option Vault
unfolding has_nullifier
get_vault_by_nullifier n t = find? (has_nullifier n) t

-- Two rows that share a key: the identifier, the commitment or the nullifier.
abbrev pub same_key : Vault → Vault → Bool
same_key a b =
    a.id === b.id
    || a.commitment === b.commitment
    || elim b.nullifier_hash [ none ↦ false | some n ↦ has_nullifier n a ]

-- The CHECK constraints of the table that a row can break.
abbrev pub is_lawful : Vault → Bool
is_lawful v =
    (v.lock_duration_days == 30 || v.lock_duration_days == 90 || v.lock_duration_days == 365)
    && null_or_hash v.deposit_tx_hash
    && null_or_hash v.withdraw_tx_hash

unfoldable pub insert_vault : Vault → Vaults → DbResult Vaults
insert_vault v t =
    if not (is_lawful v)
    then failed check_constraint
    else if any (λ b. same_key b v) t
    then failed unique_constraint
    else stored (t ++ v ∷ [])

-- The trigger `enforce_real_tx_hash` runs first; the identifiers of the rows are fresh.
unfoldable pub insert_transaction :
    Vaults → TransactionRow → List TransactionRow → DbResult (List TransactionRow)
insert_transaction vaults r t =
    if not (is_hash r.tx_hash)
    then failed fake_tx_hash
    else if any (λ b. b.id === r.id || b.tx_hash === r.tx_hash) t
    then failed unique_constraint
    else if not (any (λ v. v.id === r.vault_id) vaults)
    then failed foreign_key
    else stored (t ++ r ∷ [])

unfoldable pub insert_commitment :
    Vaults → CommitmentRow → List CommitmentRow → DbResult (List CommitmentRow)
insert_commitment vaults r t =
    if any (λ b. b.commitment === r.commitment) t
    then failed unique_constraint
    else if not (any (λ v. v.id === r.vault_id) vaults)
    then failed foreign_key
    else stored (t ++ r ∷ [])

-- `UPDATE vaults SET … WHERE id = ?`
abbrev pub update_vault : JsString → (Vault → Vault) → Vaults → Vaults
update_vault id f t = update_where (λ v. v.id === id) f t
