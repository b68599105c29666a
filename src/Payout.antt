-- ===== src/Payout.antt =====
-- Paying out: sendBitcoinToAddress and sendBitcoinWithAuthorization of
-- backend/src/services/BitcoinBroadcastService.ts, executeCovenantWithdrawal of
-- backend/src/services/BitcoinCovenantService.ts and the processor of
-- backend/src/services/WithdrawalProcessor.ts. What the network answers is an argument.
pub mod Send
pub mod Frame
pub mod Poll
pub mod Attempts
pub mod Outcomes
mod Tests
use starknet.Common.{
  ℕ, Bool, true, false, not, ◌&&◌, ◌||◌, Option, none, some, List, [], ◌∷◌, JsString, codes, ◌===◌,
  starts_with, if◌then◌else◌, get_or_else, ◌++◌,
}
use starknet.Auth.{
  Auths, WithdrawalAuthorization, Status, pending, processing, completed, failed, Refusal,
  not_authorized, already_used, failed_previously, Result, ok, err, valid, refused,
  get_authorization_by_id, update_status, verify_authorization,
}
use starknet.Auth.Queries.{get_pending_authorizations}

-- A payment that the Bitcoin network has accepted: the recipient and the amount in satoshis.
abbrev pub Payment : Type 0
Payment = JsString × ℕ

-- The table of authorizations, and the payments made so far, the latest first.
pub record World : Type 0 where
  pub auths : Auths
  pub payments : List Payment

-- How the building and broadcasting of one transaction ends: the network accepts it and answers with
-- its txid; it accepts it, but the answer is lost; or nothing is sent (no funds, a fetch that fails,
-- a refused transaction). The last two throw.
pub data Broadcast : Type 0 where
  accepted : JsString → Broadcast
  lost : JsString → Broadcast
  rejected : JsString → Broadcast

-- The errors that the payment code raises itself, and their messages.
pub data Failure : Type 0 where
  missing_configuration invalid_recipient no_txid not_found_covenant : Failure
  not_found : JsString → Failure
  invalid_authorization : Refusal → Failure

unfoldable pub refusal_message : Refusal → JsString
refusal_message not_authorized = codes "No authorization found - withdrawal not authorized"
refusal_message already_used = codes "Authorization already used - Bitcoin already sent"
refusal_message (failed_previously m) =
    codes "Authorization failed previously: " ++ get_or_else m (codes "null")

unfoldable pub message : Failure → JsString
unfolding refusal_message
message missing_configuration =
    codes "Missing Bitcoin configuration in .env (SENDER_PRIVATE_KEY or SENDER_ADDRESS)"
message invalid_recipient =
    codes "Invalid recipient address - must be a Signet testnet address (starts with tb1)"
message no_txid = codes "Bitcoin TXID required for completed status"
message not_found_covenant = codes "Authorization not found"
message (not_found id) = codes "Authorization not found: " ++ id
message (invalid_authorization r) = codes "Invalid authorization: " ++ refusal_message r

-- What an asynchronous call of the source ends with: its value or the message of what it throws.
pub data Reply : Type 0 where
  returned : JsString → Reply
  thrown : JsString → Reply

abbrev pub pay : Payment → World → World
pay p w = record w { payments = p ∷ w.payments }

abbrev pub broadcast : Payment → Broadcast → World → Reply × World
broadcast p (accepted txid) w = (returned txid, pay p w)
broadcast p (lost m) w = (thrown m, pay p w)
broadcast p (rejected m) w = (thrown m, w)

-- `configured` says that the sender's key and address are set.
unfoldable pub send_bitcoin_to_address : Bool → Payment → Broadcast → World → Reply × World
send_bitcoin_to_address configured p b w =
    if not configured
    then (thrown (message missing_configuration), w)
    else if not (starts_with p.0 (codes "tb1"))
    then (thrown (message invalid_recipient), w)
    else broadcast p b w

-- `updateStatus` on the table of the world; what it throws is passed on as a message.
abbrev pub set_status :
    JsString → Status → Option JsString → Option JsString → ℕ → World → Reply × World
set_status id s txid m now w = elim (update_status id s txid m now w.auths) [
  | ok t ↦ (returned [], record w { auths = t })
  | err e ↦ (thrown (message no_txid), w)
]

-- The `catch` of `sendBitcoinWithAuthorization`: the row is marked failed and the error passed on.
abbrev pub mark_failed : JsString → ℕ → JsString → World → Reply × World
mark_failed id now m w = (thrown m, (set_status id failed none (some m) now w).1)

-- Step 5: mark the row completed; should that throw, the `catch` takes over.
abbrev pub mark_completed : JsString → ℕ → JsString → World → Reply × World
mark_completed id now txid w =
    let (r, w') = set_status id completed (some txid) none now w in
    elim r [ returned _ ↦ (returned txid, w') | thrown m ↦ mark_failed id now m w' ]

-- Steps 4 to 6, on what `sendBitcoinToAddress` ends with.
abbrev pub settle : JsString → ℕ → Reply × World → Reply × World
settle id now (returned txid, w) = mark_completed id now txid w
settle id now (thrown m, w) = mark_failed id now m w

unfoldable pub send_bitcoin_with_authorization :
    Bool → JsString → Broadcast → ℕ → World → Reply × World
unfolding send_bitcoin_to_address
send_bitcoin_with_authorization configured id b now w = elim (get_authorization_by_id id w.auths) [
  | none ↦ (thrown (message (not_found id)), w)
  | some a ↦ elim (verify_authorization a.nullifier_hash w.auths) [
    | refused r ↦ (thrown (message (invalid_authorization r)), w)
    | valid _ ↦ settle id now (
        send_bitcoin_to_address configured (a.bitcoin_address, a.amount_sats) b
          (set_status id processing none none now w).1)
  ]
]

-- The covenant path looks the row up, and neither reads nor writes its status.
unfoldable pub execute_covenant_withdrawal : JsString → Broadcast → World → Reply × World
execute_covenant_withdrawal id b w = elim (get_authorization_by_id id w.auths) [
  | none ↦ (thrown (message not_found_covenant), w)
  | some a ↦ broadcast (a.bitcoin_address, a.amount_sats) b w
]

-- What the race of `verifyStarknetTransaction` ends with: a receipt that says SUCCEEDED or not, an
-- error of the call, or the timer of 15 seconds.
pub data Receipt : Type 0 where
  succeeded not_succeeded rpc_error timed_out : Receipt

unfoldable pub verify_starknet_transaction : Receipt → Bool
verify_starknet_transaction succeeded = true
verify_starknet_transaction not_succeeded = false
verify_starknet_transaction rpc_error = false
verify_starknet_transaction timed_out = true

-- The options of the processor that a payment depends on, and what the environment answers.
pub record Options : Type 0 where
  pub use_covenants : Bool
  pub configured : Bool

pub record Answers : Type 0 where
  pub receipt : Receipt
  pub network : Broadcast

abbrev pub send : Options → JsString → Broadcast → ℕ → World → Reply × World
send o id b now w =
    if o.use_covenants
    then execute_covenant_withdrawal id b w
    else send_bitcoin_with_authorization o.configured id b now w

-- The end of `processAuthorization`: completed with the txid, and pending after anything thrown.
abbrev pub conclude : JsString → ℕ → Reply × World → World
conclude id now (thrown _, w) = (set_status id pending none none now w).1
conclude id now (returned txid, w) =
    let (r, w') = set_status id completed (some txid) none now w in
    elim r [ returned _ ↦ w' | thrown _ ↦ (set_status id pending none none now w').1 ]

-- `auth` is the row as the poll read it, and `w` the world when its turn comes.
unfoldable pub process_authorization :
    Options → WithdrawalAuthorization → Answers → ℕ → World → World
unfolding verify_starknet_transaction
process_authorization o auth e now w =
    let w' = (set_status auth.id processing none none now w).1 in
    if verify_starknet_transaction e.receipt
    then conclude auth.id now (send o auth.id e.network now w')
    else (set_status auth.id pending none none now w').1

unfoldable pub process_each : Options → (JsString → Answers) → ℕ → Auths → World → World
process_each o answers now [] w = w
process_each o answers now (a ∷ as') w =
    process_each o answers now as' (process_authorization o a (answers a.id) now w)

-- One poll, with no other activity in between; `answers` gives what the environment says for each id.
unfoldable pub process_authorizations : Options → (JsString → Answers) → ℕ → World → World
unfolding process_each get_pending_authorizations
process_authorizations o answers now w =
    process_each o answers now (get_pending_authorizations w.auths) w
