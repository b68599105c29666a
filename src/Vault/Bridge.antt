-- ===== src/Vault/Bridge.antt =====
-- POST /spv-deposit of backend/src/routes/bridge.ts, on a request that its schema accepts. The insertion with
-- ON CONFLICT is the database's: an argument.
use starknet.Circuit.{Waited, confirmed, reverted, poll_failed, not_confirmed}
use starknet.Payout.{Broadcast, accepted, lost, rejected}
use starknet.Vault.{active, Vault, Vaults, Store, DbResult, stored, failed}
use starknet.Vault.Deposit.{Crypto}
use starknet.Vault.Direct.{DirectAnswers}
use starknet.Common.{
  ℕ, zero, suc, ◌+◌, ◌*◌, Bool, true, false, Option, none, some, JsString, codes, includes, truthy,
  get_or_else, if◌then◌else◌,
}

pub record SpvRequest : Type 0 where
  pub commitment : JsString
  pub block_height : ℕ
  pub bitcoin_txid : Option JsString
  pub vault_id : Option JsString
  pub nullifier_hash : Option JsString
  pub amount : Option ℕ
  pub deposit_sender_address : Option JsString

-- Statuses 503, 402, 500 and 200
pub data SpvResponse : Type 0 where
  header_not_relayed insufficient_gas spv_deposit_failed : SpvResponse
  submitted : JsString → SpvResponse

-- The loop that waits for the header, by the number of attempts left; `is_stored` is what the contract says at
-- each attempt.
unfoldable pub wait_for_header : (ℕ → Bool) → ℕ → ℕ → Bool
wait_for_header is_stored attempt zero = false
wait_for_header is_stored attempt (suc n) =
    let rest = wait_for_header is_stored (attempt + 1) n in if is_stored attempt then true else rest

-- 120 seconds, checked every 5
abbrev pub max_attempts : ℕ
max_attempts = 24

abbrev pub spv_vault : Crypto → DirectAnswers → SpvRequest → JsString → JsString → JsString → Vault
spv_vault c e r id nullifier hash = record {
  id = id;
  owner_address = e.account_address;
  commitment = r.commitment;
  encrypted_amount = c.encrypt_amount (get_or_else r.amount 0) c.salt;
  salt = c.salt;
  randomness_hint = c.randomness;
  lock_duration_days = 30;
  created_at = e.now;
  unlock_at = e.now + 86400 * 30;
  status = active;
  deposit_tx_hash = some hash;
  withdraw_tx_hash = none;
  bitcoin_txid = r.bitcoin_txid;
  nullifier_hash = some nullifier;
  bitcoin_withdrawal_address = none;
  deposit_sender_address = r.deposit_sender_address;
}

-- What the database refuses is only logged.
abbrev pub upsert_vault : (Vault → Vaults → DbResult Vaults) → Vault → Store → Store
upsert_vault upsert v s = elim (upsert v s.vaults) [
  | stored t ↦ record s { vaults = t }
  | failed x ↦ s
]

-- `vault_id && nullifier_hash`
abbrev pub store_spv :
    (Vault → Vaults → DbResult Vaults)
    → Crypto
    → DirectAnswers
    → SpvRequest
    → JsString
    → Store
    → Store
store_spv upsert c e r hash s = elim r.vault_id [
  | none ↦ s
  | some id ↦ elim r.nullifier_hash [
    | none ↦ s
    | some n ↦
        if truthy id
        then if truthy n then upsert_vault upsert (spv_vault c e r id n hash) s else s
        else s
  ]
]

abbrev pub error_response : JsString → SpvResponse
error_response m =
    if includes m (codes "Block header not relayed")
    then header_not_relayed
    else if includes m (codes "INSUFFICIENT SEPOLIA ETH")
    then insufficient_gas
    else spv_deposit_failed

abbrev pub after_spv_wait :
    (Vault → Vaults → DbResult Vaults)
    → Crypto
    → DirectAnswers
    → SpvRequest
    → JsString
    → Waited
    → Store
    → SpvResponse × Store
after_spv_wait upsert c e r hash (confirmed block) s =
    (submitted hash, store_spv upsert c e r hash s)
after_spv_wait upsert c e r hash reverted s = (spv_deposit_failed, s)
after_spv_wait upsert c e r hash (poll_failed m) s = (error_response m, s)
after_spv_wait upsert c e r hash (not_confirmed n) s = (spv_deposit_failed, s)

abbrev pub after_spv_deposit :
    (Vault → Vaults → DbResult Vaults)
    → Crypto
    → DirectAnswers
    → SpvRequest
    → Broadcast
    → Store
    → SpvResponse × Store
after_spv_deposit upsert c e r (accepted hash) s = after_spv_wait upsert c e r hash e.waited s
after_spv_deposit upsert c e r (lost m) s = (error_response m, s)
after_spv_deposit upsert c e r (rejected m) s = (error_response m, s)

-- POST /api/bridge/spv-deposit
unfoldable pub spv_deposit :
    (Vault → Vaults → DbResult Vaults)
    → (ℕ → Bool)
    → Crypto
    → DirectAnswers
    → SpvRequest
    → Store
    → SpvResponse × Store
unfolding wait_for_header
spv_deposit upsert is_stored c e r s =
    if wait_for_header is_stored 0 max_attempts
    then after_spv_deposit upsert c e r e.network s
    else (header_not_relayed, s)
