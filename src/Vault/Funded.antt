-- ===== src/Vault/Funded.antt =====
-- What POST /api/commitment/deposit stores (backend/src/routes/commitment.ts).
use starknet.Circuit.{confirmed}
use starknet.Payout.{accepted}
use starknet.Vault.{
  Vault, Vaults, Store, TransactionRow, stored, failed, unique_constraint, same_key, is_lawful,
  null_or_hash, is_hash, insert_vault, insert_transaction, update_vault,
}
use starknet.Vault.Deposit.{Crypto}
use starknet.Vault.Direct.{
  DepositRequest, DirectAnswers, submitted, is_allowed_denomination, direct_vault, direct_row,
  insert_direct, redeposit, lacks_nullifier, update_direct, add_direct_row, conflict_direct,
  store_direct, direct_deposit,
}
use starknet.Common.{
  ===_refl, ℕ, ◌≡◌, refl, ◌∙◌, true, false, ◌||◌, some, List, [], ◌∷◌, ◌++◌, JsString, codes, ◌===◌,
  starts_with, truthy, any, arith,
}

-- The request is accepted, the deposit on Starknet is confirmed, and its hash is one that the tables take.
pub record IsConfirmed (e : DirectAnswers) (r : DepositRequest) (hash : JsString) : Type 0 where
  pub allowed : is_allowed_denomination r.amount ≡ true
  pub real_commitment : starts_with r.commitment (codes "SIMULATED") ≡ false
  pub answered : e.network ≡ accepted hash
  pub real_hash : starts_with hash (codes "SIMULATED") ≡ false
  pub hashed : null_or_hash (some hash) ≡ true
  pub waited : (b : ℕ) × (e.waited ≡ confirmed b)

hashed-truthy : (hash : JsString) → null_or_hash (some hash) ≡ true → truthy hash ≡ true
unfolding starts_with
hashed-truthy [] h = cc
hashed-truthy (x ∷ hash) h = refl

confirmed_lem :
    (c : Crypto) (e : DirectAnswers) (r : DepositRequest) (hash : JsString) (s : Store)
    → IsConfirmed e r hash
    → direct_deposit c e r s ≡ store_direct (direct_vault c e r hash) hash s
unfolding direct_deposit
confirmed_lem c e r hash s h =
    rw
      (
        h.allowed,
        direct_deposit,
        h.real_commitment,
        h.answered,
        hashed-truthy hash h.hashed,
        h.real_hash,
        h.waited.1,
      )
      refl

direct_lawful :
    (c : Crypto) (e : DirectAnswers) (r : DepositRequest) (hash : JsString)
    → null_or_hash (some hash) ≡ true
    → is_lawful (direct_vault c e r hash) ≡ true
direct_lawful c e r hash h = ground arith

own_id : (v : Vault) (t : Vaults) → any (λ u. u.id === v.id) (t ++ v ∷ []) ≡ true
own_id v [] = ground (arith, ===_refl v.id)
own_id v (u ∷ t) = ground (arith, own_id v t)

insert_vault_fresh :
    (v : Vault) (t : Vaults)
    → is_lawful v ≡ true
    → any (λ u. same_key u v) t ≡ false
    → insert_vault v t ≡ stored (t ++ v ∷ [])
unfolding insert_vault
insert_vault_fresh v t l h = rw (l, h, insert_vault) refl

insert_transaction_fresh :
    (v : Vault) (hash : JsString) (t : Vaults) (ts : List TransactionRow)
    → is_hash hash ≡ true
    → any (λ r. r.id === v.id || r.tx_hash === hash) ts ≡ false
    → insert_transaction (t ++ v ∷ []) (direct_row v hash) ts
      ≡ stored (ts ++ direct_row v hash ∷ [])
unfolding insert_transaction
insert_transaction_fresh v hash t ts l h = rw (l, h, own_id v t, insert_transaction) refl

insert_direct_fresh :
    (v : Vault) (hash : JsString) (s : Store)
    → is_lawful v ≡ true
    → is_hash hash ≡ true
    → any (λ u. same_key u v) s.vaults ≡ false
    → any (λ t. t.id === v.id || t.tx_hash === hash) s.transactions ≡ false
    → insert_direct v hash s
      ≡ stored (record s {
        vaults = s.vaults ++ v ∷ [];
        transactions = s.transactions ++ direct_row v hash ∷ [];
      })
unfolding insert_direct
insert_direct_fresh v hash s l k keys rows =
    rw
      (
        insert_vault_fresh v s.vaults l keys,
        insert_direct,
        insert_transaction_fresh v hash s.vaults s.transactions k rows,
      )
      refl

-- A deposit with fresh keys and a fresh transaction is answered with the hash of its transaction, and the
-- active vault and the transaction are stored.
pub direct_deposit_stored :
    (c : Crypto) (e : DirectAnswers) (r : DepositRequest) (hash : JsString) (s : Store)
    → IsConfirmed e r hash
    → any (λ u. same_key u (direct_vault c e r hash)) s.vaults ≡ false
    → any (λ t. t.id === r.vault_id || t.tx_hash === hash) s.transactions ≡ false
    → let v = direct_vault c e r hash in
      direct_deposit c e r s ≡ (
        submitted hash,
        record s {
          vaults = s.vaults ++ v ∷ [];
          transactions = s.transactions ++ direct_row v hash ∷ [];
        },
      )
unfolding store_direct
direct_deposit_stored c e r hash s h keys rows =
    let v = direct_vault c e r hash in
    confirmed_lem c e r hash s h
    ∙ (rw
        (
          insert_direct_fresh v hash s (direct_lawful c e r hash h.hashed) h.hashed keys rows,
          store_direct,
        )
        refl)

no_id :
    (id : JsString) (f : Vault → Vault) (t : Vaults)
    → any (λ u. u.id === id) t ≡ false
    → update_vault id f t ≡ t
no_id id f [] h = refl
no_id id f (u ∷ t) h = ground (arith, no_id id f t)

no_id_lacks :
    (v : Vault) (t : Vaults)
    → any (λ u. u.id === v.id) t ≡ false
    → any (lacks_nullifier v) t ≡ false
no_id_lacks v [] h = refl
no_id_lacks v (u ∷ t) h = ground (arith, no_id_lacks v t)

shared_commitment :
    (v : Vault) (t : Vaults)
    → any (λ u. u.commitment === v.commitment) t ≡ true
    → any (λ u. same_key u v) t ≡ true
shared_commitment v [] h = cc
shared_commitment v (u ∷ t) h = ground (arith, shared_commitment v t)

insert_direct_clash :
    (v : Vault) (hash : JsString) (s : Store)
    → is_lawful v ≡ true
    → any (λ u. same_key u v) s.vaults ≡ true
    → insert_direct v hash s ≡ failed unique_constraint
unfolding insert_direct insert_vault
insert_direct_clash v hash s l k = rw (l, k, insert_direct) refl

add_nothing :
    (v : Vault) (hash : JsString) (s : Store)
    → any (λ u. u.id === v.id) s.vaults ≡ false
    → add_direct_row v hash s ≡ s
unfolding insert_transaction
add_nothing v hash s h = ground arith

conflict_direct_lost :
    (v : Vault) (hash : JsString) (s : Store)
    → any (λ u. u.id === v.id) s.vaults ≡ false
    → conflict_direct v hash s ≡ (submitted hash, s)
unfolding conflict_direct update_direct
conflict_direct_lost v hash s h =
    rw
      (
        h,
        no_id_lacks v s.vaults h,
        no_id v.id (redeposit v) s.vaults h,
        conflict_direct,
        add_nothing v hash s h,
      )
      refl

-- A deposit whose commitment another vault has, under an identifier that no vault has, is answered with the
-- hash of its transaction like any other, and nothing is stored for it.
pub direct_deposit_lost :
    (c : Crypto) (e : DirectAnswers) (r : DepositRequest) (hash : JsString) (s : Store)
    → IsConfirmed e r hash
    → any (λ u. u.id === r.vault_id) s.vaults ≡ false
    → any (λ u. u.commitment === r.commitment) s.vaults ≡ true
    → direct_deposit c e r s ≡ (submitted hash, s)
unfolding store_direct
direct_deposit_lost c e r hash s h ids commitments =
    let v = direct_vault c e r hash in
    confirmed_lem c e r hash s h
    ∙ (rw
        (
          insert_direct_clash v hash s (direct_lawful c e r hash h.hashed)
              (shared_commitment v s.vaults commitments),
          store_direct,
        )
        (conflict_direct_lost v hash s ids))
