-- ===== src/Vault/First.antt =====
-- A first attempt of POST /withdraw that goes through on Starknet (backend/src/routes/vault.ts).
use starknet.Auth.{Auths, AuthError, ok, create_authorization}
use starknet.Auth.Table.{Unique}
use starknet.Payout.{World, accepted}
use starknet.Payout.Send.{delivered}
use starknet.Vault.{
  active, Vault, Store, null_or_hash, get_vault, get_vault_by_nullifier, update_vault,
}
use starknet.Vault.Burn.{
  Server, Request, Surroundings, is_own_address, is_invalid_owner, burned, burn_vault,
  check_request, check_vault, record_burn, proceed,
}
use starknet.Vault.Withdraw.{
  close_paid, params_of, pay_out, pay_vault, finish_first, carry_out, withdraw_vault,
  mark_withdrawn, close_vault, actual_sats,
}
use starknet.Vault.Steps.{close_vault_lem}
use starknet.Vault.Payments.{pay_out_new}
use starknet.Common.{
  ℕ, ◌≡◌, refl, ap, ◌∙◌, true, false, ◌||◌, Option, none, some, List, [], ◌∷◌, ◌++◌, map, JsString,
  codes, starts_with, if◌then◌else◌, arith,
}

abbrev pub ids : Store → List JsString
ids s = map (λ u. u.id) s.vaults

module _ (server : Server) (r : Request) (e : Surroundings) (v : Vault) (amount : ℕ)
    (hash : JsString) where
  -- The request finds an active vault that is not burned, whose row is in order; the network takes the
  -- withdrawal and answers with a hash that the table takes; and an authorization can be created.
  pub record IsReady (s : Store) (t : Auths) : Type 0 where
    pub found : get_vault_by_nullifier r.nullifier_hash s.vaults ≡ some v
    pub by_id : get_vault v.id s.vaults ≡ some v
    pub is_active : v.status ≡ active
    pub not_burned : v.withdraw_tx_hash ≡ none
    pub signet : starts_with r.bitcoin_address (codes "tb1") ≡ true
    pub not_own : is_own_address server r.bitcoin_address ≡ false
    pub decrypted : server.decrypt_amount v.encrypted_amount v.salt ≡ some amount
    pub owned : is_invalid_owner v.owner_address ≡ false
    pub answered : e.burn ≡ accepted hash
    pub hashed : null_or_hash (some hash) ≡ true
    pub unique : Unique s.world.auths
    pub created :
        create_authorization
          (ids s)
          e.authorization_id
          e.now
          (params_of r v.id hash amount)
          s.world.auths
        ≡ ok t

  module _ (s : Store) (t : Auths) (h : IsReady s t) where
    abbrev burned_store : Store
    burned_store = record_burn r.nullifier_hash amount s

    ready-check : check_request server r s ≡ proceed v
    unfolding check_request check_vault
    ready-check = ground (arith, h.found, h.is_active, h.signet, h.not_own)

    ready-burn : burn_vault server r e v.id s ≡ (burned hash, burned_store)
    unfolding burn_vault
    ready-burn = ground (arith, h.by_id, h.decrypted, h.owned, h.answered)

    abbrev paid : (Option JsString × Option AuthError) × World
    paid = pay_out server.options (ids s) e (params_of r v.id hash amount) s.world

    ready-pay :
        pay_vault server r e v.id hash burned_store
        ≡ (some paid.0, record burned_store { world = paid.1 })
    unfolding pay_vault
    ready-pay = rw (h.by_id, pay_vault, h.decrypted) refl

    ready-carry :
        withdraw_vault server r e s ≡ finish_first server r e v (burn_vault server r e v.id s)
    unfolding withdraw_vault carry_out
    ready-carry = ground (arith, ready-check, h.not_burned)

    pub ready-withdraw :
        withdraw_vault server r e s
        ≡ close_vault r e v hash paid.0 (record burned_store { world = paid.1 })
    unfolding finish_first
    ready-withdraw =
        ready-carry
        ∙ ap (finish_first server r e v) ready-burn
        ∙ ap (close_paid r e v hash) ready-pay

    -- A first attempt that is ready burns the amount of the vault once, marks the vault as withdrawn, and pays
    -- the amount in satoshis to the address of the request, if the mode of payment can pay and the network
    -- delivers.
    pub withdraw_vault_first :
        let s' = (withdraw_vault server r e s).1 in
        (s'.burns ≡ (r.nullifier_hash, amount) ∷ s.burns)
        × (s'.vaults ≡ update_vault v.id (mark_withdrawn hash r.bitcoin_address) s.vaults)
        × (s'.world.payments
            ≡ (if server.options.use_covenants || server.options.configured
                then delivered (r.bitcoin_address, actual_sats amount) e.network
                else [])
              ++ s.world.payments)
    withdraw_vault_first =
        let c =
          close_vault_lem r e v hash paid.0 (record burned_store { world = paid.1 }) h.hashed in
        let q = ap (λ x. x.1) ready-withdraw in
        (
          ap (λ x. x.burns) q ∙ c.1,
          ap (λ x. x.vaults) q ∙ c.0,
          ap (λ x. x.world.payments) q
              ∙ ap (λ x. x.payments) c.2
              ∙ pay_out_new server.options (ids s) e (params_of r v.id hash amount) s.world t
                  h.unique h.created,
        )
