-- ===== src/Vault/Tests.antt =====
-- Concrete withdrawals and audits (backend/src/routes/vault.ts, audit.ts and withdraw.ts).
use starknet.Auth.{WithdrawalAuthorization, new_row, failed}
use starknet.Auth.Table.{Holds}
use starknet.Circuit.{confirmed}
use starknet.Payout.{World, accepted}
use starknet.Payout.Send.{delivered}
use starknet.Payout.Frame.{Stands}
use starknet.Receipt.{invalid_format}
use starknet.Vault.{
  active, withdrawn, update_vault, get_vault, get_vault_by_nullifier, has_nullifier,
}
use starknet.Vault.Burn.{
  Request, Surroundings, proceed, check_vault, check_request, bad_request, already_withdrawn,
}
use starknet.Vault.First.{withdraw_vault_first}
use starknet.Vault.Withdraw.{carry_out, withdraw_vault, mark_withdrawn, actual_sats, pay_out}
use starknet.Vault.Overlap.{GoesThrough, withdraw_vault_overlap}
use starknet.Validators.{is_valid_address, matches_hex}
use starknet.Vault.Abandoned.{withdraw_all, withdraw_vault_abandoned}
use starknet.Vault.Payments.{pay_out_again}
use starknet.Vault.Refusals.{check_request-Admitted, Admitted}
use starknet.Vault.Once.{withdraws, handle_all, Event, burns_once, audits}
use starknet.Vault.Rows.{is_spent}
use starknet.Vault.Audit.{audit_verify, answered, AuditAnswer, has_deposit}
use starknet.Vault.Audited.{audit_verify-HaveStatus}
use starknet.Vault.Execute.{signed}
use starknet.Vault.Executed.{Call, executions_of, executions_once, is_recorded}
use starknet.Vault.Samples.{
  hash, owner, vault, store, server, request, around, refused_network, params, auths, ready,
}
use starknet.Common.{
  ◌++◌, ◌+◌, if◌then◌else◌, ◌↔◌, All, count_if, ◌≤◌, List, ◌*◌, ◌^◌, ◌≡◌, refl, true, some, none,
  [], ◌∷◌, JsString, codes, ◌===◌, starts_with,
}

withdraw_vault_first_example :
    let s' = (withdraw_vault server request refused_network store).1 in
    (s'.burns ≡ (codes "n", 5000 * 10 ^ 10) ∷ [])
    × (s'.vaults ≡ update_vault (codes "v") (mark_withdrawn hash (codes "tb1q")) (vault ∷ []))
    × (s'.world.payments
        ≡ delivered (codes "tb1q", actual_sats (5000 * 10 ^ 10)) refused_network.network ++ [])
withdraw_vault_first_example =
    withdraw_vault_first server request refused_network vault (5000 * 10 ^ 10) hash store auths
      ready

-- A request to another address, and one more to the same
abbrev later_requests : List (Request × Surroundings)
later_requests =
    (record request { bitcoin_address = codes "tb1p" }, refused_network)
    ∷ (request, refused_network)
    ∷ []

withdraw_vault_abandoned_example :
    let s' = (withdraw_vault server request refused_network store).1 in
    (s'.burns ≡ (codes "n", 5000 * 10 ^ 10) ∷ [])
    × Stands (codes "a") failed s'.world.auths
    × (withdraw_all server later_requests s' ≡ s')
    × (withdraw_vault server request refused_network (withdraw_all server later_requests s')
        ≡ (bad_request already_withdrawn, s'))
unfolding starts_with ◌===◌
withdraw_vault_abandoned_example =
    withdraw_vault_abandoned server request request refused_network refused_network vault
      (5000 * 10 ^ 10) hash (codes "no funds") store auths later_requests ready refl refl
      (refl, (refl, tt)) refl refl refl

abbrev failed_row : WithdrawalAuthorization
failed_row = record (new_row (codes "a") 7 params) { status = failed }

abbrev failed_world : World
failed_world = record { auths = failed_row ∷ []; payments = [] }

failed_row-Holds : Holds failed_row failed_world.auths
unfolding ◌===◌
failed_row-Holds = record { by_id = refl; by_nullifier = refl }

pay_out_again_example :
    (pay_out server.options
      (codes "v" ∷ [])
      (around (accepted (codes "tx")))
      params
      failed_world).1.payments
    ≡ (codes "tb1q", 5000) ∷ []
unfolding starts_with
pay_out_again_example =
    pay_out_again server.options (codes "v" ∷ []) (around (accepted (codes "tx"))) params failed_row
      failed_world failed_row-Holds refl

check_request-Admitted_example :
    (check_request server request store ≡ proceed vault) ↔ Admitted server request store vault
check_request-Admitted_example = check_request-Admitted server request store vault

-- A withdrawal, an audit that finds the deposit on the chain, and a second request
abbrev succeeded : JsString → AuditAnswer
succeeded h =
    answered (record { execution_status = some (codes "SUCCEEDED"); finality_status = none })

abbrev events : List Event
events =
    withdraws request refused_network
    ∷ audits succeeded
    ∷ withdraws request (around (accepted (codes "tx")))
    ∷ []

burns_once_example :
    count_if (λ b. b.0 === codes "n") (handle_all server events store).burns
      + (if is_spent (codes "n") store.vaults then 1 else 0)
    ≤ 1
unfolding starts_with
burns_once_example = burns_once server (codes "n") events store (refl, (tt, (refl, tt)))

audit_verify-HaveStatus_example :
    All
      (λ v. has_deposit (codes "0xd") v ≡ true → v.status ≡ active)
      (audit_verify succeeded (record vault { status = withdrawn } ∷ [])).vaults
unfolding starts_with ◌===◌
audit_verify-HaveStatus_example =
    audit_verify-HaveStatus succeeded (codes "0xd")
      (record { execution_status = some (codes "SUCCEEDED"); finality_status = none })
      (record vault { status = withdrawn } ∷ []) refl refl

abbrev a_call : Call
a_call = record {
  execution = record {
    contract = codes "0x1";
    waited = confirmed 5;
    receipt = invalid_format;
    transaction_id = codes "t";
    now = 9;
  };
  vault_id = codes "v";
  tx_hash = hash;
  token =
      signed (record { vault_id = codes "v"; nullifier_hash = codes "n"; owner_address = owner });
}

executions_once_example :
    executions_of (codes "n") (a_call ∷ a_call ∷ []) store
    ≤ (if is_recorded (codes "n") store then 0 else 1)
executions_once_example = executions_once (codes "n") (a_call ∷ a_call ∷ []) store

vault-GoesThrough : GoesThrough server refused_network vault (5000 * 10 ^ 10) hash
unfolding is_valid_address matches_hex starts_with ◌===◌
vault-GoesThrough = record { decrypted = refl; owned = refl; answered = refl; hashed = refl }

withdraw_vault_overlap_example :
    let s' = (carry_out server request refused_network vault store).1 in
    (carry_out server request refused_network vault s').1.burns
    ≡ (codes "n", 5000 * 10 ^ 10) ∷ (codes "n", 5000 * 10 ^ 10) ∷ []
unfolding check_request check_vault get_vault_by_nullifier has_nullifier get_vault starts_with ◌===◌
withdraw_vault_overlap_example =
    withdraw_vault_overlap server request request refused_network refused_network vault
      (5000 * 10 ^ 10) hash hash store refl refl refl refl refl vault-GoesThrough vault-GoesThrough
