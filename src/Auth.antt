-- ===== src/Auth.antt =====
-- backend/src/services/WithdrawalAuthorizationService.ts over the table withdrawal_authorizations
-- of backend/src/db/schema.ts: the records that allow a Bitcoin payout, and their states.
pub mod Table
pub mod Queries
pub mod Creation
mod Tests
use starknet.Common.{
  ℕ, ◌+◌, ◌-◌, ◌*◌, ◌<◌, Bool, true, false, not, ◌&&◌, ◌||◌, Option, none, some, List, [], ◌∷◌,
  ◌++◌, map, JsString, codes, ◌===◌, starts_with, truthy, length, ltb, leb, if◌then◌else◌, find?,
  any, is_some,
}

pub data Status : Type 0 where
  pending processing completed failed : Status

-- One row of the table, the interface `WithdrawalAuthorization`.
pub record WithdrawalAuthorization : Type 0 where
  pub id : JsString
  pub vault_id : JsString
  pub nullifier_hash : JsString
  pub starknet_tx_hash : JsString
  pub bitcoin_address : JsString
  pub amount_sats : ℕ
  pub status : Status
  pub created_at : ℕ
  pub confirmed_at : Option ℕ
  pub bitcoin_txid : Option JsString
  pub error_message : Option JsString

-- The table in order of insertion.
abbrev pub Auths : Type 0
Auths = List WithdrawalAuthorization

-- What the service throws.
pub data AuthError : Type 0 where
  invalid_bitcoin_address invalid_starknet_hash already_exists txid_required constraint : AuthError

-- What `verifyAuthorization` reports.
pub data Refusal : Type 0 where
  not_authorized already_used : Refusal
  failed_previously : Option JsString → Refusal

pub data Result (A : Type 0) : Type 0 where
  ok : A → Result A
  err : AuthError → Result A

pub data Verdict : Type 0 where
  valid : WithdrawalAuthorization → Verdict
  refused : Refusal → Verdict

abbrev pub is_status : Status → Status → Bool
is_status pending pending = true
is_status processing processing = true
is_status completed completed = true
is_status failed failed = true
is_status _ _ = false

-- `SELECT * FROM withdrawal_authorizations WHERE id = ?`
unfoldable pub get_authorization_by_id : JsString → Auths → Option WithdrawalAuthorization
get_authorization_by_id id t = find? (λ a. a.id === id) t

unfoldable pub get_authorization_by_nullifier : JsString → Auths → Option WithdrawalAuthorization
get_authorization_by_nullifier n t = find? (λ a. a.nullifier_hash === n) t

unfoldable pub get_authorization_by_starknet_tx : JsString → Auths → Option WithdrawalAuthorization
get_authorization_by_starknet_tx h t = find? (λ a. a.starknet_tx_hash === h) t

-- The columns that `updateStatus` writes, as its list `updates`.
abbrev pub write_status :
    Status
    → Option JsString
    → Option JsString
    → ℕ
    → WithdrawalAuthorization
    → WithdrawalAuthorization
write_status s txid message now a = record a {
  status = s;
  confirmed_at = if is_status s completed then some now else a.confirmed_at;
  bitcoin_txid = if is_status s completed then txid else a.bitcoin_txid;
  error_message = elim message [
    | none ↦ a.error_message
    | some m ↦ if truthy m then some m else a.error_message
  ];
}

-- `UPDATE withdrawal_authorizations SET … WHERE id = ?`
abbrev pub update_where_id :
    JsString → (WithdrawalAuthorization → WithdrawalAuthorization) → Auths → Auths
update_where_id id f [] = []
update_where_id id f (a ∷ t) = (if a.id === id then f a else a) ∷ update_where_id id f t

-- `!bitcoinTxid`: missing or empty
abbrev pub missing : Option JsString → Bool
missing none = true
missing (some s) = not (truthy s)

unfoldable pub update_status :
    JsString → Status → Option JsString → Option JsString → ℕ → Auths → Result Auths
update_status id s txid message now t =
    if is_status s completed && missing txid
    then err txid_required
    else ok (update_where_id id (write_status s txid message now) t)

unfoldable pub verify_authorization : JsString → Auths → Verdict
verify_authorization n t = elim (find? (λ a. a.nullifier_hash === n) t) [
  | none ↦ refused not_authorized
  | some a ↦ elim a.status [
    | pending ↦ valid a
    | processing ↦ valid a
    | completed ↦ refused already_used
    | failed ↦ refused (failed_previously a.error_message)
  ]
]

-- What a caller of `createAuthorization` hands over, with the ids of the table `vaults`, the fresh
-- identifier of `uuidv4` and the clock in seconds.
pub record Params : Type 0 where
  pub vault_id : JsString
  pub nullifier_hash : JsString
  pub starknet_tx_hash : JsString
  pub bitcoin_address : JsString
  pub amount_sats : ℕ

abbrev pub new_row : JsString → ℕ → Params → WithdrawalAuthorization
new_row id now p = record {
  id = id;
  vault_id = p.vault_id;
  nullifier_hash = p.nullifier_hash;
  starknet_tx_hash = p.starknet_tx_hash;
  bitcoin_address = p.bitcoin_address;
  amount_sats = p.amount_sats;
  status = pending;
  created_at = now;
  confirmed_at = none;
  bitcoin_txid = none;
  error_message = none;
}

abbrev pub clashes : Params → WithdrawalAuthorization → Bool
clashes p a = a.nullifier_hash === p.nullifier_hash || a.starknet_tx_hash === p.starknet_tx_hash

-- The constraints that the insertion can still break once the guards have passed: the primary key
-- and the reference to `vaults`. The others of the table repeat the guards.
unfoldable pub insert_row : List JsString → WithdrawalAuthorization → Auths → Result Auths
insert_row vaults a t =
    if any (λ b. b.id === a.id) t || not (any (λ v. v === a.vault_id) vaults)
    then err constraint
    else ok (t ++ a ∷ [])

-- `createAuthorization`, less the two warnings about anonymity, which only write to the log. The row
-- that it reads back is the one inserted.
unfoldable pub create_authorization : List JsString → JsString → ℕ → Params → Auths → Result Auths
unfolding insert_row starts_with
create_authorization vaults id now p t =
    if not (starts_with p.bitcoin_address (codes "tb1"))
    then err invalid_bitcoin_address
    else if not (starts_with p.starknet_tx_hash (codes "0x")) || ltb (length p.starknet_tx_hash) 34
    then err invalid_starknet_hash
    else if is_some (find? (clashes p) t)
    then err already_exists
    else insert_row vaults (new_row id now p) t
