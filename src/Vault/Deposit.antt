-- ===== src/Vault/Deposit.antt =====
-- POST /prepare-deposit and /confirm-deposit of backend/src/routes/vault.ts, behind their middleware, with
-- backend/src/config/apy.ts. The hashes and the encryption of CryptoService are arguments.
use starknet.Circuit.{Waited, confirmed, reverted, poll_failed, not_confirmed}
use starknet.Receipt.{
  ReceiptResult, received, invalid_format, transaction_not_found, other_error, DepositResult,
  unverified, verified, mismatch, verify_deposit_event,
}
use starknet.Validators.{is_valid_address}
use starknet.Vault.{
  check_constraint, VaultStatus, pending, active, is_vault_status, Vault, Store, CommitmentRow,
  TransactionRow, deposit, DbResult, stored, failed, null_or_hash, get_vault, insert_vault,
  insert_commitment, insert_transaction, update_vault,
}
use starknet.Common.{
  List, ℕ, ◌+◌, ◌*◌, Bool, not, ◌||◌, Option, none, some, JsString, ◌===◌, ◌==◌, ltb, if◌then◌else◌,
  update_where,
}

-- What `generateSalt`, `generateRandomness` and `uuidv4` make for one request, the two hashes, and the
-- encryption, with the nonces of the request.
pub record Crypto : Type 0 where
  pub vault_id : JsString
  pub salt : JsString
  pub randomness : JsString
  pub generate_commitment : ℕ → JsString → JsString
  pub generate_nullifier : JsString → JsString → JsString
  pub encrypt_amount : ℕ → JsString → JsString
  pub encrypt_randomness : JsString → JsString → JsString

unfoldable pub is_valid_lock_duration : ℕ → Bool
is_valid_lock_duration days = days == 30 || days == 90 || days == 365

-- The rate of each duration, in percent.
abbrev pub get_apy : ℕ → ℕ
get_apy days = if days == 30 then 6 else if days == 90 then 12 else 18

pub data DepositRefusal : Type 0 where
  invalid_owner invalid_duration invalid_amount not_positive insufficient_balance : DepositRefusal

pub record Prepared : Type 0 where
  pub vault_id : JsString
  pub commitment : JsString
  pub nullifier_hash : JsString
  pub encrypted_randomness : JsString
  pub unlock_at : ℕ
  pub apy : ℕ

-- Statuses 400, 500 and 201
pub data PrepareResponse : Type 0 where
  refused : DepositRefusal → PrepareResponse
  server_error : PrepareResponse
  prepared : Prepared → PrepareResponse

-- The row that is inserted.
abbrev pub prepared_vault : Crypto → JsString → ℕ → ℕ → ℕ → Vault
prepared_vault c owner amount days now =
    let commitment = c.generate_commitment amount c.randomness in
    record {
      id = c.vault_id;
      owner_address = owner;
      commitment = commitment;
      encrypted_amount = c.encrypt_amount amount c.salt;
      salt = c.salt;
      randomness_hint = c.encrypt_randomness c.randomness c.salt;
      lock_duration_days = days;
      created_at = now;
      unlock_at = now + days * 86400;
      status = pending;
      deposit_tx_hash = none;
      withdraw_tx_hash = none;
      bitcoin_txid = none;
      nullifier_hash = some (c.generate_nullifier commitment c.randomness);
      bitcoin_withdrawal_address = none;
      deposit_sender_address = none;
    }

abbrev pub commitment_row : Vault → CommitmentRow
commitment_row v = record { commitment = v.commitment; vault_id = v.id; block_number = none }

-- `db.transaction`: both rows, or neither.
unfoldable pub insert_both : Vault → Store → DbResult Store
unfolding insert_vault insert_commitment
insert_both v s = elim (insert_vault v s.vaults) [
  | failed x ↦ failed x
  | stored t ↦ elim (insert_commitment t (commitment_row v) s.commitments) [
    | failed x ↦ failed x
    | stored u ↦ stored (record s { vaults = t; commitments = u })
  ]
]

abbrev pub answer_prepared : Crypto → Vault → JsString → PrepareResponse
answer_prepared c v nullifier = prepared (record {
  vault_id = v.id;
  commitment = v.commitment;
  nullifier_hash = nullifier;
  encrypted_randomness = v.randomness_hint;
  unlock_at = v.unlock_at;
  apy = get_apy v.lock_duration_days;
})

-- The end of the handler, on the row to be inserted.
unfoldable pub open_vault : Crypto → JsString → Vault → Store → PrepareResponse × Store
unfolding insert_both
open_vault c nullifier v s = elim (insert_both v s) [
  | failed x ↦ (server_error, s)
  | stored s' ↦ (answer_prepared c v nullifier, s')
]

abbrev pub open_with : Crypto → JsString → ℕ → ℕ → ℕ → Store → PrepareResponse × Store
open_with c owner sats days now s =
    open_vault c (c.generate_nullifier (c.generate_commitment sats c.randomness) c.randomness)
      (prepared_vault c owner sats days now) s

-- `amount` is what `BigInt(amountSats)` gives, if it does not throw; a negative number, which is refused
-- like 0, stands as 0. `balance` is what the token contract answers, if anything.
unfoldable pub prepare_deposit :
    Crypto → JsString → Option ℕ → ℕ → Option ℕ → ℕ → Store → PrepareResponse × Store
unfolding is_valid_lock_duration open_vault
prepare_deposit c owner amount days balance now s =
    if not (is_valid_address owner)
    then (refused invalid_owner, s)
    else if not (is_valid_lock_duration days)
    then (refused invalid_duration, s)
    else elim amount [
      | none ↦ (refused invalid_amount, s)
      | some sats ↦ if sats == 0 then (refused not_positive, s) else elim balance [
        | none ↦ (server_error, s)
        | some available ↦
            if ltb available sats
            then (refused insufficient_balance, s)
            else open_with c owner sats days now s
      ]
    ]

-- What happens around a confirmation: the address of the contract, how the polling of the transaction
-- ends, what `getTransactionReceipt` gives afterwards, the time of its block, a fresh identifier, the
-- clock.
pub record Confirmation : Type 0 where
  pub contract : JsString
  pub waited : Waited
  pub receipt : ReceiptResult
  pub block_time : Option ℕ
  pub transaction_id : JsString
  pub now : ℕ

-- Statuses 404, 400, 500 and 200; `not_pending`, `event_missing`, `tx_reverted` and `other_commitment` are
-- 400, `vault_missing` and `tx_not_found` are 404.
pub data ConfirmResponse : Type 0 where
  vault_missing tx_not_found event_missing tx_reverted other_commitment failure : ConfirmResponse
  not_pending : VaultStatus → ConfirmResponse
  confirmed_at : ℕ → ℕ → ConfirmResponse

abbrev pub activate : JsString → Vault → Vault
activate hash v = record v { status = active; deposit_tx_hash = some hash }

abbrev pub deposit_row : Confirmation → Vault → JsString → ℕ → TransactionRow
deposit_row e v hash block = record {
  id = e.transaction_id;
  vault_id = v.id;
  tx_hash = hash;
  kind = deposit;
  amount_encrypted = v.encrypted_amount;
  block_number = some block;
  timestamp = e.now;
}

-- `UPDATE commitments SET block_number = ? WHERE vault_id = ?`
abbrev pub set_block : JsString → ℕ → List CommitmentRow → List CommitmentRow
set_block id block t =
    update_where (λ r. r.vault_id === id) (λ r. record r { block_number = some block }) t

-- The three statements of the `db.transaction`.
unfoldable pub store_deposit : Confirmation → Vault → JsString → ℕ → Store → DbResult Store
unfolding insert_transaction
store_deposit e v hash block s =
    if not (null_or_hash (some hash))
    then failed check_constraint
    else elim (insert_transaction (update_vault v.id (activate hash) s.vaults)
        (deposit_row e v hash block) s.transactions) [
          | failed x ↦ failed x
          | stored t ↦ stored (record s {
            vaults = update_vault v.id (activate hash) s.vaults;
            commitments = set_block v.id block s.commitments;
            transactions = t;
          })
        ]

-- What the handler does with the result of `verifyDepositEvent`.
abbrev pub conclude_deposit :
    Confirmation → Vault → JsString → DepositResult → Store → ConfirmResponse × Store
conclude_deposit e v hash (unverified block) s = (event_missing, s)
conclude_deposit e v hash (mismatch c) s = (other_commitment, s)
conclude_deposit e v hash (verified block time c) s = elim (store_deposit e v hash block s) [
  | failed x ↦ (failure, s)
  | stored s' ↦ (confirmed_at block time, s')
]

-- `verifyDepositEvent` with the errors of `getTransactionReceipt`.
abbrev pub verify_deposit :
    Confirmation → Vault → JsString → ReceiptResult → Store → ConfirmResponse × Store
verify_deposit e v hash (received r) s =
    conclude_deposit e v hash (verify_deposit_event e.contract v.commitment e.block_time r) s
verify_deposit e v hash invalid_format s = (failure, s)
verify_deposit e v hash transaction_not_found s = (tx_not_found, s)
verify_deposit e v hash (other_error m) s = (failure, s)

-- What follows the polling of the transaction.
abbrev pub after_wait : Confirmation → Vault → JsString → Waited → Store → ConfirmResponse × Store
after_wait e v hash (confirmed block) s = verify_deposit e v hash e.receipt s
after_wait e v hash reverted s = (tx_reverted, s)
after_wait e v hash (poll_failed m) s = (failure, s)
after_wait e v hash (not_confirmed n) s = (failure, s)

unfoldable pub confirm_deposit :
    Confirmation → JsString → JsString → Store → ConfirmResponse × Store
unfolding store_deposit
confirm_deposit e id hash s = elim (get_vault id s.vaults) [
  | none ↦ (vault_missing, s)
  | some v ↦
      if not (is_vault_status v.status pending)
      then (not_pending v.status, s)
      else after_wait e v hash e.waited s
]
