-- ===== src/Vault/Execute.antt =====
-- backend/src/routes/withdraw.ts behind its middleware: the withdrawal that the user has made, the check of a
-- nullifier and of a vault; and getAnonymitySetSize of
-- backend/src/services/WithdrawalAuthorizationService.ts.
use starknet.Circuit.{Waited, confirmed, reverted, poll_failed, not_confirmed}
use starknet.Receipt.{
  ReceiptResult, received, invalid_format, transaction_not_found, other_error,
  verify_withdrawal_event,
}
use starknet.Vault.{
  VaultStatus, active, withdrawn, is_vault_status, Vault, Vaults, Store, NullifierRow,
  TransactionRow, withdraw, DbResult, stored, failed, unique_constraint, check_constraint,
  foreign_key, null_or_hash, has_nullifier, get_vault, insert_transaction, update_vault,
}
use starknet.Common.{
  ℕ, ◌-◌, Bool, true, false, not, ◌&&◌, Option, none, some, List, [], ◌∷◌, ◌++◌, JsString, ◌===◌,
  ◌==◌, truthy, find?, any, count_if, if◌then◌else◌,
}

-- What `jwt.verify` makes of the token.
pub record Payload : Type 0 where
  pub vault_id : JsString
  pub nullifier_hash : JsString
  pub owner_address : JsString

pub data Token : Type 0 where
  signed : Payload → Token
  expired_token invalid_token : Token

-- The address of the contract, how the polling of the transaction ends, what `getTransactionReceipt` gives
-- afterwards, a fresh identifier, the clock.
pub record Execution : Type 0 where
  pub contract : JsString
  pub waited : Waited
  pub receipt : ReceiptResult
  pub transaction_id : JsString
  pub now : ℕ

-- Statuses 401 (`expired`, `invalid`), 400 (`other_vault`, `not_active`, `nullifier_missing`, `tx_reverted`),
-- 404 (`vault_missing`, `tx_not_found`), 500 (`failure`) and 200
pub data ExecuteResponse : Type 0 where
  expired invalid other_vault nullifier_missing tx_reverted vault_missing tx_not_found failure :
      ExecuteResponse
  not_active : VaultStatus → ExecuteResponse
  executed : ℕ → JsString → JsString → ExecuteResponse

-- The primary key of the table, and the reference to `vaults`.
unfoldable pub insert_nullifier :
    Vaults → NullifierRow → List NullifierRow → DbResult (List NullifierRow)
insert_nullifier vaults r t =
    if any (λ b. b.nullifier_hash === r.nullifier_hash) t
    then failed unique_constraint
    else if not (any (λ v. v.id === r.vault_id) vaults)
    then failed foreign_key
    else stored (t ++ r ∷ [])

abbrev pub set_withdrawn : JsString → JsString → Vault → Vault
set_withdrawn hash nullifier v = record v {
  status = withdrawn;
  withdraw_tx_hash = some hash;
  nullifier_hash = some nullifier;
}

-- The second statement, under the constraints of its columns.
unfoldable pub update_withdrawn : JsString → JsString → JsString → Vaults → DbResult Vaults
update_withdrawn id hash nullifier t =
    if not (null_or_hash (some hash))
    then failed check_constraint
    else if any (λ v. not (v.id === id) && has_nullifier nullifier v) t
    then failed unique_constraint
    else stored (update_vault id (set_withdrawn hash nullifier) t)

abbrev pub nullifier_row : Execution → JsString → JsString → JsString → NullifierRow
nullifier_row e id hash nullifier = record {
  nullifier_hash = nullifier;
  vault_id = id;
  used_at = e.now;
  withdraw_tx_hash = hash;
}

abbrev pub withdraw_row : Execution → Vault → JsString → ℕ → TransactionRow
withdraw_row e v hash block = record {
  id = e.transaction_id;
  vault_id = v.id;
  tx_hash = hash;
  kind = withdraw;
  amount_encrypted = v.encrypted_amount;
  block_number = some block;
  timestamp = e.now;
}

-- The three statements of the `db.transaction`: all of them, or none.
unfoldable pub store_withdrawal :
    Execution → Vault → JsString → JsString → ℕ → Store → DbResult Store
unfolding insert_nullifier update_withdrawn insert_transaction
store_withdrawal e v hash nullifier block s =
    elim (insert_nullifier s.vaults (nullifier_row e v.id hash nullifier) s.nullifiers) [
      | failed x ↦ failed x
      | stored ns ↦ elim (update_withdrawn v.id hash nullifier s.vaults) [
        | failed x ↦ failed x
        | stored vs ↦ elim (insert_transaction vs (withdraw_row e v hash block) s.transactions) [
          | failed x ↦ failed x
          | stored ts ↦ stored (record s { nullifiers = ns; vaults = vs; transactions = ts })
        ]
      ]
    ]

-- Once the receipt is there.
abbrev pub conclude_withdrawal :
    Execution → Vault → JsString → Payload → ℕ → Bool → Store → ExecuteResponse × Store
conclude_withdrawal e v hash p block false s = (nullifier_missing, s)
conclude_withdrawal e v hash p block true s =
    elim (store_withdrawal e v hash p.nullifier_hash block s) [
      | failed x ↦ (failure, s)
      | stored s' ↦ (executed block p.nullifier_hash p.owner_address, s')
    ]

-- `verifyWithdrawalEvent` with the errors of `getTransactionReceipt`; the block is that of the receipt that
-- the polling has returned.
abbrev pub verify_withdrawal :
    Execution → Vault → JsString → Payload → ℕ → ReceiptResult → Store → ExecuteResponse × Store
verify_withdrawal e v hash p block (received r) s =
    conclude_withdrawal e v hash p block (verify_withdrawal_event e.contract p.nullifier_hash r) s
verify_withdrawal e v hash p block invalid_format s = (failure, s)
verify_withdrawal e v hash p block transaction_not_found s = (tx_not_found, s)
verify_withdrawal e v hash p block (other_error m) s = (failure, s)

abbrev pub after_wait :
    Execution → Vault → JsString → Payload → Waited → Store → ExecuteResponse × Store
after_wait e v hash p (confirmed block) s = verify_withdrawal e v hash p block e.receipt s
after_wait e v hash p reverted s = (tx_reverted, s)
after_wait e v hash p (poll_failed m) s = (failure, s)
after_wait e v hash p (not_confirmed n) s = (failure, s)

-- The handler on a token that is signed.
abbrev pub execute_signed :
    Execution → JsString → JsString → Payload → Store → ExecuteResponse × Store
execute_signed e id hash p s =
    if not (p.vault_id === id) then (other_vault, s) else elim (get_vault id s.vaults) [
      | none ↦ (vault_missing, s)
      | some v ↦
          if not (is_vault_status v.status active)
          then (not_active v.status, s)
          else after_wait e v hash p e.waited s
    ]

-- POST /api/withdraw/execute
unfoldable pub execute : Execution → JsString → JsString → Token → Store → ExecuteResponse × Store
unfolding store_withdrawal
execute e id hash (signed p) s = execute_signed e id hash p s
execute e id hash expired_token s = (expired, s)
execute e id hash invalid_token s = (invalid, s)

-- Where a nullifier is known to be used.
pub data Source : Type 0 where
  nowhere db both : Source

-- GET /api/withdraw/check-nullifier: the row, and where it is known. The chain is asked for the commitment of
-- the vault of the row only.
unfoldable pub check_nullifier : (JsString → Bool) → JsString → Store → Option NullifierRow × Source
check_nullifier on_chain n s = elim (find? (λ r. r.nullifier_hash === n) s.nullifiers) [
  | none ↦ (none, nowhere)
  | some r ↦ elim (get_vault r.vault_id s.vaults) [
    | none ↦ (some r, db)
    | some v ↦ (some r, if on_chain v.commitment then both else db)
  ]
]

pub record Eligibility : Type 0 where
  pub is_unlocked : Bool
  pub unlock_at : ℕ
  pub seconds_remaining : ℕ
  pub nullifier_used : Bool
  pub on_chain_commitment_active : Bool
  pub status : VaultStatus

abbrev pub is_used : Option JsString → List NullifierRow → Bool
is_used none t = false
is_used (some n) t = if truthy n then any (λ r. r.nullifier_hash === n) t else false

-- GET /api/withdraw/eligibility; `Math.max(0, …)` is the subtraction on ℕ.
unfoldable pub eligibility : (JsString → Bool) → JsString → ℕ → Store → Option Eligibility
eligibility on_chain id now s = elim (get_vault id s.vaults) [
  | none ↦ none
  | some v ↦ some (record {
    is_unlocked = (v.unlock_at - now) == 0;
    unlock_at = v.unlock_at;
    seconds_remaining = v.unlock_at - now;
    nullifier_used = is_used v.nullifier_hash s.nullifiers;
    on_chain_commitment_active = on_chain v.commitment;
    status = v.status;
  })
]

-- A vault whose nullifier is not in the table of nullifiers.
abbrev pub is_unspent : List NullifierRow → Vault → Bool
is_unspent t v =
    is_vault_status v.status active
    && elim v.nullifier_hash [ none ↦ true | some n ↦ not (any (λ r. r.nullifier_hash === n) t) ]

-- `getAnonymitySetSize`
unfoldable pub get_anonymity_set_size : Store → ℕ
get_anonymity_set_size s = count_if (is_unspent s.nullifiers) s.vaults
