-- ===== src/Vault/Withdraw.antt =====
-- POST /withdraw of backend/src/routes/vault.ts: the authorization, the first attempt to pay, and
-- the whole handler. Encryption, the key and what the two networks answer are arguments.
use starknet.Vault.Burn.{
  Burned, Request, Response, Server, Surroundings, burn_vault, burned, check_request, ended,
  proceed, refuse, server_error, success,
}
use starknet.Auth
use starknet.Auth.{
  Auths, AuthError, ok, err, WithdrawalAuthorization, Params, is_status,
  get_authorization_by_nullifier, create_authorization,
}
use starknet.Payout.{World, Reply, returned, thrown, set_status, Options, send}
use starknet.Vault.{
  withdrawn, Vault, Store, TransactionRow, withdraw, stored, failed, null_or_hash, get_vault,
  insert_transaction, update_vault,
}
use starknet.Common.{
  ℕ, ◌/◌, ◌^◌, Bool, true, false, not, ◌&&◌, Option, none, some, List, map, JsString, truthy,
  is_some, if◌then◌else◌,
}

-- `Math.floor(Number(amountSats) / 1e10)`, on whole numbers: the division of the source is exact on the
-- multiples of 10 ^ 10 that the deposits are, up to nine bitcoin.
abbrev pub actual_sats : ℕ → ℕ
actual_sats amount = amount / 10 ^ 10

-- The authorization that is found or created, by its identifier.
pub data Authorized : Type 0 where
  authorized : JsString → Authorized
  unauthorized : AuthError → Authorized

abbrev pub reset_failed : WithdrawalAuthorization → ℕ → World → World
reset_failed a now w =
    if is_status a.status Auth.failed then (set_status a.id Auth.pending none none now w).1 else w

unfoldable pub authorize : List JsString → Surroundings → Params → World → Authorized × World
authorize vaults e p w = elim (get_authorization_by_nullifier p.nullifier_hash w.auths) [
  | some a ↦ (authorized a.id, reset_failed a e.now w)
  | none ↦ elim (create_authorization vaults e.authorization_id e.now p w.auths) [
    | ok t ↦ (authorized e.authorization_id, record w { auths = t })
    | err x ↦ (unauthorized x, w)
  ]
]

-- The txid that the race of the payment against its timer gives, if any. A payment that is late goes on
-- by itself; the world is the one after its end.
abbrev pub race : Bool → Reply → Option JsString
race in_time (returned txid) = if in_time && truthy txid then some txid else none
race in_time (thrown m) = none

abbrev pub note_txid : JsString → ℕ → Option JsString → World → World
note_txid id now none w = w
note_txid id now (some txid) w = (set_status id Auth.completed (some txid) none now w).1

unfoldable pub attempt_payout : Options → Surroundings → JsString → World → Option JsString × World
attempt_payout o e id w =
    let (reply, w') = send o id e.network e.now w in
    let txid = race e.in_time reply in (txid, note_txid id e.now txid w')

-- The rest of the `try`, on the authorization.
abbrev pub pay_authorized :
    Options → Surroundings → Authorized × World → (Option JsString × Option AuthError) × World
pay_authorized o e (unauthorized x, w) = ((none, some x), w)
pay_authorized o e (authorized id, w) =
    let (txid, w') = attempt_payout o e id w in ((txid, none), w')

-- The `try` of step 5: the txid, or what the creation of the authorization threw.
unfoldable pub pay_out :
    Options
    → List JsString
    → Surroundings
    → Params
    → World
    → (Option JsString × Option AuthError) × World
unfolding authorize attempt_payout
pay_out o vaults e p w = pay_authorized o e (authorize vaults e p w)

-- Step 6 on a first attempt
abbrev pub mark_withdrawn : JsString → JsString → Vault → Vault
mark_withdrawn hash address v = record v {
  status = withdrawn;
  withdraw_tx_hash = some hash;
  bitcoin_withdrawal_address = some address;
}

abbrev pub respond : Bool → JsString → Bool → Option JsString × Option AuthError → Response
respond retry hash proof (txid, error) = success (record {
  tx_hash = some hash;
  local_proof_generated = if retry then false else proof;
  bitcoin_txid = txid;
  bitcoin_send_error = if is_some txid then none else error;
  is_retry = retry;
})

abbrev pub withdrawal_row : Surroundings → Vault → JsString → TransactionRow
withdrawal_row e v hash = record {
  id = e.transaction_id;
  vault_id = v.id;
  tx_hash = hash;
  kind = withdraw;
  amount_encrypted = v.encrypted_amount;
  block_number = none;
  timestamp = e.now;
}

-- Step 7 of a first attempt
abbrev pub store_withdrawal :
    Surroundings → Vault → JsString → Option JsString × Option AuthError → Store → Response × Store
store_withdrawal e v hash paid s =
    elim (insert_transaction s.vaults (withdrawal_row e v hash) s.transactions) [
      | stored t ↦ (respond false hash e.proof_generated paid, record s { transactions = t })
      | failed x ↦ (server_error, s)
    ]

-- Steps 6 and 7 of a first attempt; what the database refuses throws.
unfoldable pub close_vault :
    Request
    → Surroundings
    → Vault
    → JsString
    → Option JsString × Option AuthError
    → Store
    → Response × Store
close_vault r e v hash paid s =
    if not (null_or_hash (some hash))
    then (server_error, s)
    else store_withdrawal e v hash paid
        (record s { vaults = update_vault v.id (mark_withdrawn hash r.bitcoin_address) s.vaults })

-- What `createAuthorization` is called with.
abbrev pub params_of : Request → JsString → JsString → ℕ → Params
params_of r id hash amount = record {
  vault_id = id;
  nullifier_hash = r.nullifier_hash;
  starknet_tx_hash = hash;
  bitcoin_address = r.bitcoin_address;
  amount_sats = actual_sats amount;
}

-- Step 5: the row is read again, and the amount decrypted.
unfoldable pub pay_vault :
    Server
    → Request
    → Surroundings
    → JsString
    → JsString
    → Store
    → Option (Option JsString × Option AuthError) × Store
unfolding pay_out
pay_vault server r e id hash s = elim (get_vault id s.vaults) [
  | none ↦ (none, s)
  | some v ↦ elim (server.decrypt_amount v.encrypted_amount v.salt) [
    | none ↦ (none, s)
    | some amount ↦
        let (paid, w) =
          pay_out server.options (map (λ u. u.id) s.vaults) e (params_of r id hash amount)
            s.world in
        (some paid, record s { world = w })
  ]
]

-- A first attempt, behind the payment.
abbrev pub close_paid :
    Request
    → Surroundings
    → Vault
    → JsString
    → Option (Option JsString × Option AuthError) × Store
    → Response × Store
close_paid r e v hash (none, s) = (server_error, s)
close_paid r e v hash (some p, s) = close_vault r e v hash p s

-- A first attempt, behind the burn.
unfoldable pub finish_first :
    Server → Request → Surroundings → Vault → Burned × Store → Response × Store
unfolding pay_vault close_vault
finish_first server r e v (ended x, s) = (x, s)
finish_first server r e v (burned hash, s) =
    close_paid r e v hash (pay_vault server r e v.id hash s)

unfoldable pub retry : Server → Request → Surroundings → Vault → JsString → Store → Response × Store
unfolding pay_vault
retry server r e v hash s =
    let (paid, s') = pay_vault server r e v.id hash s in
    elim paid [ none ↦ (server_error, s') | some p ↦ (respond true hash e.proof_generated p, s') ]

-- The handler behind its checks; `v` is the row as the check has read it.
unfoldable pub carry_out : Server → Request → Surroundings → Vault → Store → Response × Store
unfolding finish_first retry burn_vault
carry_out server r e v s = elim v.withdraw_tx_hash [
  | some hash ↦ retry server r e v hash s
  | none ↦ finish_first server r e v (burn_vault server r e v.id s)
]

-- The whole handler, with no other activity in between.
unfoldable pub withdraw_vault : Server → Request → Surroundings → Store → Response × Store
unfolding check_request carry_out
withdraw_vault server r e s = elim (check_request server r s) [
  | refuse x ↦ (x, s)
  | proceed v ↦ carry_out server r e v s
]
