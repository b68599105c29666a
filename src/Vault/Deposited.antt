-- ===== src/Vault/Deposited.antt =====
-- What POST /prepare-deposit and /confirm-deposit leave in the tables (backend/src/routes/vault.ts).
use starknet.Validators.{is_valid_address}
use starknet.Vault.{
  same_key, get_vault_by_nullifier, has_nullifier, Vault, Vaults, Store, stored, get_vault,
  insert_vault, insert_commitment,
}
use starknet.Vault.Deposit.{
  Crypto, prepared, Prepared, prepare_deposit, prepared_vault, is_valid_lock_duration, insert_both,
  commitment_row, open_vault,
}
use starknet.Common.{
  any, ===_refl, ℕ, ◌≤◌, ◌<◌, ◌≡◌, refl, ap, ◌∙◌, true, false, Option, none, some, [], ◌∷◌, ◌++◌,
  JsString, arith,
}

-- The keys of the row are those of no other, and both rows are added.
insert_both_lem :
    (v : Vault) (s s' : Store)
    → insert_both v s ≡ stored s'
    → (any (λ b. same_key b v) s.vaults ≡ false)
      × (s'.vaults ≡ s.vaults ++ v ∷ [])
      × (s'.commitments ≡ s.commitments ++ commitment_row v ∷ [])
      × (s'.world ≡ s.world)
unfolding insert_both insert_vault insert_commitment
insert_both_lem v s s' e = ground arith

no_id :
    (v : Vault) (t : Vaults)
    → any (λ b. same_key b v) t ≡ false
    → get_vault v.id (t ++ v ∷ []) ≡ some v
unfolding get_vault
no_id v [] h = ground (arith, ===_refl v.id)
no_id v (u ∷ t) h = ground (arith, no_id v t)

no_nullifier :
    (v : Vault) (n : JsString) (t : Vaults)
    → v.nullifier_hash ≡ some n
    → any (λ b. same_key b v) t ≡ false
    → get_vault_by_nullifier n (t ++ v ∷ []) ≡ some v
unfolding get_vault_by_nullifier has_nullifier
no_nullifier v n [] e h = ground (arith, ===_refl n)
no_nullifier v n (u ∷ t) e h = ground (arith, no_nullifier v n t)

-- What is answered on the preparation of a deposit.
prepare_deposit_lem :
    (c : Crypto) (owner : JsString) (amount : Option ℕ) (days : ℕ) (balance : Option ℕ) (now : ℕ)
    (s : Store) (x : Prepared)
    → (prepare_deposit c owner amount days balance now s).0 ≡ prepared x
    → (sats : ℕ) × (available : ℕ) × (amount ≡ some sats)
      × (balance ≡ some available)
      × (0 < sats)
      × (sats ≤ available)
      × (is_valid_address owner ≡ true)
      × (is_valid_lock_duration days ≡ true)
      × (insert_both (prepared_vault c owner sats days now) s
          ≡ stored (prepare_deposit c owner amount days balance now s).1)
unfolding prepare_deposit open_vault
prepare_deposit_lem c owner none days balance now s x e = absurd (ground arith)
prepare_deposit_lem c owner (some sats) days none now s x e = absurd (ground arith)
prepare_deposit_lem c owner (some sats) days (some available) now s x e = (
  sats,
  available,
  refl,
  refl,
  ground arith,
  ground arith,
  ground arith,
  ground arith,
  ground arith,
)

-- The amount that a deposit may be prepared with.
abbrev pub IsCovered : JsString → Option ℕ → ℕ → Option ℕ → ℕ → Type 0
IsCovered owner amount days balance sats =
    (amount ≡ some sats)
    × (0 < sats)
    × (is_valid_address owner ≡ true)
    × (is_valid_lock_duration days ≡ true)
    × ((available : ℕ) × (balance ≡ some available) × (sats ≤ available))

-- A deposit is prepared only for a valid address and duration and a positive amount that the balance
-- covers; the pending vault is then found by its identifier and by its nullifier, and its commitment is
-- added to the table of commitments.
pub prepare_deposit-IsCovered :
    (c : Crypto) (owner : JsString) (amount : Option ℕ) (days : ℕ) (balance : Option ℕ) (now : ℕ)
    (s : Store) (x : Prepared)
    → (prepare_deposit c owner amount days balance now s).0 ≡ prepared x
    → let s' = (prepare_deposit c owner amount days balance now s).1 in
      (sats : ℕ) × IsCovered owner amount days balance sats
      × (get_vault c.vault_id s'.vaults ≡ some (prepared_vault c owner sats days now))
      × (get_vault_by_nullifier
            (c.generate_nullifier (c.generate_commitment sats c.randomness) c.randomness)
            s'.vaults
          ≡ some (prepared_vault c owner sats days now))
      × (s'.commitments
          ≡ s.commitments ++ commitment_row (prepared_vault c owner sats days now) ∷ [])
prepare_deposit-IsCovered c owner amount days balance now s x e =
    let p = prepare_deposit_lem c owner amount days balance now s x e in
    let v = prepared_vault c owner p.0 days now in
    let n = c.generate_nullifier (c.generate_commitment p.0 c.randomness) c.randomness in
    let q = insert_both_lem v s (prepare_deposit c owner amount days balance now s).1 p.8 in
    (
      p.0,
      (p.2, p.4, p.6, p.7, (p.1, p.3, p.5)),
      ap (get_vault c.vault_id) q.1 ∙ no_id v s.vaults q.0,
      ap (get_vault_by_nullifier n) q.1 ∙ no_nullifier v n s.vaults refl q.0,
      q.2,
    )
