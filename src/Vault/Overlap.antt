-- ===== src/Vault/Overlap.antt =====
-- Two requests to POST /withdraw at once (backend/src/routes/vault.ts): the handler checks the vault, waits
-- for Starknet and marks the vault after that, without a lock.
use starknet.Payout.{accepted}
use starknet.Vault.{Vault, Store, get_vault, null_or_hash, update_vault}
use starknet.Vault.Burn.{
  Server, Request, Surroundings, check_request, proceed, is_invalid_owner, burned, burn_vault,
  record_burn,
}
use starknet.Vault.Withdraw.{carry_out, finish_first, mark_withdrawn}
use starknet.Vault.Rows.{get_vault-update}
use starknet.Vault.Steps.{finish_burned_lem}
use starknet.Common.{ℕ, ◌≡◌, refl, ap, ◌∙◌, true, false, none, some, ◌∷◌, JsString, arith}

-- What a request finds when it goes on: an amount that can be read and an owner, and a network that takes the
-- withdrawal.
pub record GoesThrough (server : Server) (e : Surroundings) (u : Vault) (amount : ℕ)
    (hash : JsString) : Type 0 where
  pub decrypted : server.decrypt_amount u.encrypted_amount u.salt ≡ some amount
  pub owned : is_invalid_owner u.owner_address ≡ false
  pub answered : e.burn ≡ accepted hash
  pub hashed : null_or_hash (some hash) ≡ true

-- A request that has passed its checks burns, whatever became of the row since.
carry_out-burns :
    (server : Server) (r : Request) (e : Surroundings) (v u : Vault) (amount : ℕ) (hash : JsString)
    (s : Store)
    → v.withdraw_tx_hash ≡ none
    → get_vault v.id s.vaults ≡ some u
    → GoesThrough server e u amount hash
    → let s' = (carry_out server r e v s).1 in
      (s'.burns ≡ (r.nullifier_hash, amount) ∷ s.burns)
      × (s'.vaults ≡ update_vault v.id (mark_withdrawn hash r.bitcoin_address) s.vaults)
unfolding carry_out burn_vault
carry_out-burns server r e v u amount hash s w f g =
    let q : carry_out server r e v s
        ≡ finish_first server r e v (burned hash, record_burn r.nullifier_hash amount s) =
      ground (arith, w, f, g.decrypted, g.owned, g.answered) in
    let k = finish_burned_lem server r e v u hash amount s f g.decrypted g.hashed in
    (ap (λ x. x.1.burns) q ∙ k.0, ap (λ x. x.1.vaults) q ∙ k.1)

-- Two requests with the same nullifier that pass their checks before one of them is done: both go on, the
-- second with the vault as it was read before, and both send the withdrawal to the contract, provided that
-- the network takes both.
pub withdraw_vault_overlap :
    (server : Server) (r r' : Request) (e e' : Surroundings) (v : Vault) (amount : ℕ)
    (hash hash' : JsString) (s : Store)
    → check_request server r s ≡ proceed v
    → check_request server r' s ≡ proceed v
    → r'.nullifier_hash ≡ r.nullifier_hash
    → v.withdraw_tx_hash ≡ none
    → get_vault v.id s.vaults ≡ some v
    → GoesThrough server e v amount hash
    → GoesThrough server e' v amount hash'
    → let s' = (carry_out server r e v s).1 in
      (carry_out server r' e' v s').1.burns
      ≡ (r.nullifier_hash, amount) ∷ (r.nullifier_hash, amount) ∷ s.burns
withdraw_vault_overlap server r r' e e' v amount hash hash' s c c' same w f g g' =
    let s' = (carry_out server r e v s).1 in
    let k = carry_out-burns server r e v v amount hash s w f g in
    let u : Vault = mark_withdrawn hash r.bitcoin_address v in
    let found : get_vault v.id s'.vaults ≡ some u =
      ap (get_vault v.id) k.1
      ∙ get_vault-update v.id (mark_withdrawn hash r.bitcoin_address) s.vaults v (λ u. refl) f in
    let g'' : GoesThrough server e' u amount hash' = record {
      decrypted = g'.decrypted;
      owned = g'.owned;
      answered = g'.answered;
      hashed = g'.hashed;
    } in
    (carry_out-burns server r' e' v u amount hash' s' w found g'').0
    ∙ ap (λ bs. (r'.nullifier_hash, amount) ∷ bs) k.0
    ∙ ap (λ n. (n, amount) ∷ (r.nullifier_hash, amount) ∷ s.burns) same
