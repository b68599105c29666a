-- ===== src/Vault/Burn.antt =====
-- POST /withdraw of backend/src/routes/vault.ts up to the burn on Starknet: the request, its checks and the
-- answers. Encryption, the key and what the two networks answer are arguments.
use starknet.Validators.{is_valid_address}
use starknet.Auth.{AuthError}
use starknet.Payout.{Broadcast, accepted, lost, rejected, Options}
use starknet.Vault.{
  VaultStatus, active, withdrawn, is_vault_status, Vault, Store, get_vault, get_vault_by_nullifier,
}
use starknet.Common.{
  ℕ, Bool, false, not, ◌&&◌, ◌||◌, Option, none, some, ◌∷◌, JsString, codes, ◌===◌, starts_with,
  truthy, is_some, if◌then◌else◌,
}

-- What a handler knows of the server: SENDER_ADDRESS, the mode of payment and `decryptAmount`, which
-- throws on what it cannot decrypt.
pub record Server : Type 0 where
  pub sender_address : Option JsString
  pub options : Options
  pub decrypt_amount : JsString → JsString → Option ℕ

-- A request that has passed `validateBody`. The secret is used for the local proof only.
pub record Request : Type 0 where
  pub nullifier_hash : JsString
  pub bitcoin_address : JsString

-- What happens around one request: whether the local proof is generated, how the withdrawal on Starknet
-- and the payment on Bitcoin end, whether the latter ends within 20 seconds, the identifiers that
-- `uuidv4` makes, and the clock in seconds.
pub record Surroundings : Type 0 where
  pub proof_generated : Bool
  pub burn : Broadcast
  pub network : Broadcast
  pub in_time : Bool
  pub authorization_id : JsString
  pub transaction_id : JsString
  pub now : ℕ

-- What is answered with status 400.
pub data BadRequest : Type 0 where
  not_a_signet_address own_address already_withdrawn invalid_owner : BadRequest
  cannot_withdraw : VaultStatus → BadRequest

pub record Success : Type 0 where
  pub tx_hash : Option JsString
  pub local_proof_generated : Bool
  pub bitcoin_txid : Option JsString
  pub bitcoin_send_error : Option AuthError
  pub is_retry : Bool

-- Statuses 400, 404, 500 and 200
pub data Response : Type 0 where
  bad_request : BadRequest → Response
  vault_not_found : Response
  server_error : Response
  success : Success → Response

-- `withdraw_tx_hash !== null`: the withdrawal on Starknet is done.
abbrev pub is_burned : Vault → Bool
is_burned v = is_some v.withdraw_tx_hash

-- How the first part of the handler, up to its first `await`, ends.
pub data Check : Type 0 where
  refuse : Response → Check
  proceed : Vault → Check

abbrev pub is_own_address : Server → JsString → Bool
is_own_address server address = elim server.sender_address [
  | none ↦ false
  | some own ↦ address === own
]

unfoldable pub check_vault : Vault → Check
check_vault v =
    if is_vault_status v.status withdrawn
    then refuse (bad_request already_withdrawn)
    else if not (is_vault_status v.status active) && not (is_burned v)
    then refuse (bad_request (cannot_withdraw v.status))
    else proceed v

unfoldable pub check_request : Server → Request → Store → Check
unfolding check_vault
check_request server r s =
    if not (starts_with r.bitcoin_address (codes "tb1"))
    then refuse (bad_request not_a_signet_address)
    else if is_own_address server r.bitcoin_address
    then refuse (bad_request own_address)
    else elim (get_vault_by_nullifier r.nullifier_hash s.vaults) [
      | none ↦ refuse vault_not_found
      | some v ↦ check_vault v
    ]

-- `!owner || owner === '0x0' || !isValidAddress(owner)`
abbrev pub is_invalid_owner : JsString → Bool
is_invalid_owner o = not (truthy o) || o === codes "0x0" || not (is_valid_address o)

-- `StarknetService.withdraw`: a transaction that the network takes is a burn, also if its answer is
-- lost, which throws like a refusal.
abbrev pub record_burn : JsString → ℕ → Store → Store
record_burn n amount s = record s { burns = (n, amount) ∷ s.burns }

-- Steps 3 and 4: the hash of the withdrawal, or the response that ends the handler.
pub data Burned : Type 0 where
  ended : Response → Burned
  burned : JsString → Burned

abbrev pub send_burn : JsString → ℕ → Broadcast → Store → Burned × Store
send_burn n amount (accepted hash) s = (burned hash, record_burn n amount s)
send_burn n amount (lost m) s = (ended server_error, record_burn n amount s)
send_burn n amount (rejected m) s = (ended server_error, s)

unfoldable pub burn_vault : Server → Request → Surroundings → JsString → Store → Burned × Store
burn_vault server r e id s = elim (get_vault id s.vaults) [
  | none ↦ (ended server_error, s)
  | some v ↦ elim (server.decrypt_amount v.encrypted_amount v.salt) [
    | none ↦ (ended server_error, s)
    | some amount ↦
        if is_invalid_owner v.owner_address
        then (ended (bad_request invalid_owner), s)
        else send_burn r.nullifier_hash amount e.burn s
  ]
]
