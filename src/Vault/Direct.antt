-- ===== src/Vault/Direct.antt =====
-- The deposits that the server makes itself: POST /deposit of backend/src/routes/commitment.ts and POST
-- /spv-deposit of backend/src/routes/bridge.ts, on requests that their schemas accept, with
-- backend/src/utils/privacyConstants.ts. An amount is a whole number of wei, where the source multiplies
-- a double by 1e18.
use starknet.Circuit.{Waited, confirmed, reverted, poll_failed, not_confirmed}
use starknet.Payout.{Broadcast, accepted, lost, rejected}
use starknet.Vault.{
  active, Vault, Vaults, Store, TransactionRow, deposit, DbResult, stored, failed, fake_tx_hash,
  foreign_key, unique_constraint, check_constraint, null_or_hash, has_nullifier, insert_vault,
  insert_transaction, update_vault,
}
use starknet.Vault.Deposit.{Crypto}
use starknet.Common.{
  ℕ, ◌+◌, ◌-◌, ◌^◌, Bool, false, not, ◌&&◌, ◌||◌, Option, none, some, List, [], ◌∷◌, JsString,
  codes, ◌===◌, starts_with, includes, truthy, ltb, any, is_some, if◌then◌else◌,
}

-- The denominations of ALLOWED_DENOMINATIONS_BTC.
abbrev pub allowed_denominations : List ℕ
allowed_denominations = 10 ^ 14 ∷ 10 ^ 15 ∷ 10 ^ 16 ∷ 10 ^ 17 ∷ []

-- `Math.abs(d - amount) < 1e-12`
unfoldable pub is_allowed_denomination : ℕ → Bool
is_allowed_denomination amount =
    any (λ d. ltb ((d - amount) + (amount - d)) (10 ^ 6)) allowed_denominations

pub record DepositRequest : Type 0 where
  pub vault_id : JsString
  pub commitment : JsString
  pub amount : ℕ
  pub owner_address : Option JsString
  pub bitcoin_txid : Option JsString
  pub secret : Option JsString
  pub salt : Option JsString
  pub randomness_hint : Option JsString

-- The account of the server, how the deposit on Starknet ends, how the polling of its transaction ends, and
-- the clock in milliseconds.
pub record DirectAnswers : Type 0 where
  pub account_address : JsString
  pub network : Broadcast
  pub waited : Waited
  pub now : ℕ

-- Statuses 400 (`invalid_denomination`, `simulated_rejected`), 502, 402, 500, 503 and 200
pub data DirectResponse : Type 0 where
  invalid_denomination simulated_rejected tx_hash_missing insufficient_gas deposit_failed
        header_not_relayed :
      DirectResponse
  submitted : JsString → DirectResponse

-- `value || fallback`
abbrev pub or_fallback : Option JsString → JsString → JsString
or_fallback none d = d
or_fallback (some s) d = if truthy s then s else d

abbrev pub status_of_error : JsString → DirectResponse
status_of_error m =
    if includes m (codes "INSUFFICIENT SEPOLIA ETH") then insufficient_gas else deposit_failed

abbrev pub nullifier_of : Crypto → DepositRequest → Option JsString
nullifier_of c r = elim r.secret [
  | none ↦ none
  | some s ↦ if truthy s then some (c.generate_nullifier r.commitment s) else none
]

abbrev pub direct_vault : Crypto → DirectAnswers → DepositRequest → JsString → Vault
direct_vault c e r hash =
    let salt = or_fallback r.salt c.salt in
    record {
      id = r.vault_id;
      owner_address = or_fallback r.owner_address e.account_address;
      commitment = r.commitment;
      encrypted_amount = c.encrypt_amount r.amount salt;
      salt = salt;
      randomness_hint = or_fallback r.randomness_hint c.randomness;
      lock_duration_days = 30;
      created_at = e.now;
      unlock_at = e.now + 86400;
      status = active;
      deposit_tx_hash = some hash;
      withdraw_tx_hash = none;
      bitcoin_txid = r.bitcoin_txid;
      nullifier_hash = nullifier_of c r;
      bitcoin_withdrawal_address = none;
      deposit_sender_address = none;
    }

abbrev pub direct_row : Vault → JsString → TransactionRow
direct_row v hash = record {
  id = v.id;
  vault_id = v.id;
  tx_hash = hash;
  kind = deposit;
  amount_encrypted = v.encrypted_amount;
  block_number = none;
  timestamp = v.created_at;
}

-- The first `db.transaction`
unfoldable pub insert_direct : Vault → JsString → Store → DbResult Store
unfolding insert_vault insert_transaction
insert_direct v hash s = elim (insert_vault v s.vaults) [
  | failed x ↦ failed x
  | stored vs ↦ elim (insert_transaction vs (direct_row v hash) s.transactions) [
    | failed x ↦ failed x
    | stored ts ↦ stored (record s { vaults = vs; transactions = ts })
  ]
]

-- `COALESCE(nullifier_hash, ?)`
abbrev pub coalesce : Option JsString → Option JsString → Option JsString
coalesce none n = n
coalesce (some m) n = some m

-- The columns that the row of the same identifier gets.
abbrev pub redeposit : Vault → Vault → Vault
redeposit v u = record u {
  status = active;
  deposit_tx_hash = v.deposit_tx_hash;
  bitcoin_txid = v.bitcoin_txid;
  nullifier_hash = coalesce u.nullifier_hash v.nullifier_hash;
}

abbrev pub takes_nullifier : Vault → Vault → Bool
takes_nullifier v u = elim v.nullifier_hash [
  | none ↦ false
  | some n ↦ not (u.id === v.id) && has_nullifier n u
]

abbrev pub lacks_nullifier : Vault → Vault → Bool
lacks_nullifier v u = u.id === v.id && not (is_some u.nullifier_hash)

-- `UPDATE vaults SET … WHERE id = ?`: the nullifier may be that of another row.
unfoldable pub update_direct : Vault → Vaults → DbResult Vaults
update_direct v t =
    if any (λ u. u.id === v.id) t && not (null_or_hash v.deposit_tx_hash)
    then failed check_constraint
    else if any (lacks_nullifier v) t && any (takes_nullifier v) t
    then failed unique_constraint
    else stored (update_vault v.id (redeposit v) t)

-- The row of the transaction, which the second `db.transaction` may do without.
abbrev pub add_direct_row : Vault → JsString → Store → Store
add_direct_row v hash s = elim (insert_transaction s.vaults (direct_row v hash) s.transactions) [
  | stored t ↦ record s { transactions = t }
  | failed x ↦ s
]

unfoldable pub conflict_direct : Vault → JsString → Store → DirectResponse × Store
unfolding update_direct insert_transaction
conflict_direct v hash s = elim (update_direct v s.vaults) [
  | failed x ↦ (deposit_failed, s)
  | stored t ↦ (submitted hash, add_direct_row v hash (record s { vaults = t }))
]

-- Step 4: the row is inserted, or, on a key that is taken, updated.
unfoldable pub store_direct : Vault → JsString → Store → DirectResponse × Store
unfolding insert_direct conflict_direct
store_direct v hash s = elim (insert_direct v hash s) [
  | stored s' ↦ (submitted hash, s')
  | failed unique_constraint ↦ conflict_direct v hash s
  | failed check_constraint ↦ (deposit_failed, s)
  | failed fake_tx_hash ↦ (deposit_failed, s)
  | failed foreign_key ↦ (deposit_failed, s)
]

-- Step 3 and what follows
abbrev pub after_confirmation : Vault → JsString → Waited → Store → DirectResponse × Store
after_confirmation v hash (confirmed block) s = store_direct v hash s
after_confirmation v hash reverted s = (deposit_failed, s)
after_confirmation v hash (poll_failed m) s = (status_of_error m, s)
after_confirmation v hash (not_confirmed n) s = (deposit_failed, s)

-- Step 2 and what follows
abbrev pub after_deposit :
    Crypto → DirectAnswers → DepositRequest → Broadcast → Store → DirectResponse × Store
after_deposit c e r (accepted hash) s =
    if not (truthy hash) || starts_with hash (codes "SIMULATED")
    then (tx_hash_missing, s)
    else after_confirmation (direct_vault c e r hash) hash e.waited s
after_deposit c e r (lost m) s = (status_of_error m, s)
after_deposit c e r (rejected m) s = (status_of_error m, s)

-- POST /api/commitment/deposit
unfoldable pub direct_deposit :
    Crypto → DirectAnswers → DepositRequest → Store → DirectResponse × Store
unfolding is_allowed_denomination store_direct
direct_deposit c e r s =
    if not (is_allowed_denomination r.amount)
    then (invalid_denomination, s)
    else if starts_with r.commitment (codes "SIMULATED")
    then (simulated_rejected, s)
    else after_deposit c e r e.network s
