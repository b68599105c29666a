-- ===== src/Payout/Tests.antt =====
-- Concrete runs of backend/src/services/BitcoinBroadcastService.ts and WithdrawalProcessor.ts.
use starknet.Common.{
  sort_by, ℕ, true, false, ◌≡◌, refl, none, List, [], ◌∷◌, JsString, codes, ◌===◌, starts_with,
  ===_ne,
}
use starknet.Auth.{
  WithdrawalAuthorization, Status, pending, completed, get_authorization_by_id,
  verify_authorization, update_status, already_used,
}
use starknet.Auth.Table.{Holds, Apart}
use starknet.Auth.Queries.{get_pending_authorizations}
use starknet.Payout.{
  World, Broadcast, accepted, lost, returned, thrown, message, invalid_authorization,
  send_bitcoin_with_authorization, Options, Answers, Receipt, succeeded, process_authorization,
  process_authorizations, verify_starknet_transaction,
}
use starknet.Payout.Send.{Call, send_all, send-payments, send_twice}
use starknet.Payout.Frame.{Stands}
use starknet.Payout.Poll.{process_authorizations-payments}
use starknet.Payout.Outcomes.{process_authorization-Stands, process_authorization_lost}

abbrev row : JsString → JsString → JsString → ℕ → Status → WithdrawalAuthorization
row id nullifier hash amount status = record {
  id = id;
  vault_id = codes "v";
  nullifier_hash = nullifier;
  starknet_tx_hash = hash;
  bitcoin_address = codes "tb1q";
  amount_sats = amount;
  status = status;
  created_at = 5;
  confirmed_at = none;
  bitcoin_txid = none;
  error_message = none;
}

abbrev alice : WithdrawalAuthorization
alice = row (codes "a") (codes "na") (codes "0xa") 5000 pending

abbrev bob : WithdrawalAuthorization
bob = row (codes "b") (codes "nb") (codes "0xb") 7000 completed

abbrev two_rows : World
two_rows = record { auths = bob ∷ alice ∷ []; payments = [] }

alice-Holds : Holds alice two_rows.auths
unfolding ◌===◌
alice-Holds = record { by_id = refl; by_nullifier = refl }

abbrev direct : Options
direct = record { use_covenants = false; configured = true }

abbrev answer : Receipt → Broadcast → Answers
answer r b = record { receipt = r; network = b }

abbrev payment : JsString × ℕ
payment = (codes "tb1q", 5000)

abbrev tx : Broadcast
tx = accepted (codes "t")

send_alice : (send_bitcoin_with_authorization true alice.id tx 9 two_rows).0 ≡ returned (codes "t")
unfolding send_bitcoin_with_authorization get_authorization_by_id verify_authorization update_status
    ◌===◌ starts_with
send_alice = refl

-- Calls for both rows in between, one of which the network would take
abbrev between : List Call
between = (codes "b", tx, 10) ∷ (codes "a", tx, 11) ∷ (codes "c", tx, 12) ∷ []

send_twice_example :
    let w = send_all true between (send_bitcoin_with_authorization true alice.id tx 9 two_rows).1 in
    send_bitcoin_with_authorization true alice.id tx 13 w
    ≡ (thrown (message (invalid_authorization already_used)), w)
send_twice_example =
    send_twice true alice tx tx 9 13 two_rows (codes "t") between alice-Holds send_alice

send-payments_example :
    (send_bitcoin_with_authorization true alice.id tx 9 two_rows).1.payments ≡ payment ∷ []
unfolding starts_with
send-payments_example = send-payments true alice tx 9 two_rows alice-Holds

process_authorization-Stands_example :
    Stands alice.id completed
      (process_authorization direct alice (answer succeeded tx) 9 two_rows).auths
unfolding starts_with verify_starknet_transaction
process_authorization-Stands_example =
    process_authorization-Stands direct alice (answer succeeded tx) 9 two_rows alice-Holds refl

process_authorization_lost_example :
    ((process_authorization direct alice
        (answer succeeded (lost (codes "reset")))
        9
        two_rows).payments
      ≡ payment ∷ [])
    × Stands alice.id pending
        (process_authorization direct alice
          (answer succeeded (lost (codes "reset")))
          9
          two_rows).auths
unfolding starts_with verify_starknet_transaction
process_authorization_lost_example =
    process_authorization_lost direct alice (answer succeeded (lost (codes "reset")))
      (codes "reset") 9 two_rows alice-Holds refl refl refl

bob-alice-Apart : Apart bob alice
unfolding ◌===◌
bob-alice-Apart = (
  ===_ne bob.id alice.id refl,
  ===_ne bob.nullifier_hash alice.nullifier_hash refl,
  ===_ne bob.starknet_tx_hash alice.starknet_tx_hash refl,
)

process_authorizations-payments_example :
    (process_authorizations direct (λ id. answer succeeded tx) 9 two_rows).payments ≡ payment ∷ []
unfolding starts_with verify_starknet_transaction get_pending_authorizations sort_by
process_authorizations-payments_example =
    process_authorizations-payments direct (λ id. answer succeeded tx) 9 two_rows
      ((bob-alice-Apart, tt), (tt, tt))
