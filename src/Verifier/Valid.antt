-- ===== src/Verifier/Valid.antt =====
-- When a withdrawal proof is valid, and what then comes with the result.
use starknet.Common.{
  ◌/◌, ◌≤◌, ◌≡◌, ◌↔◌, refl, sym, subst, ap, ◌∙◌, Bool, true, false, Option, none, some, JsString,
  codes, to_lower_case, ◌===◌, ===_iff, any, get_or_else, arith, Option-cases, inl, inr,
}
use mathlib.Core.Option
use starknet.Verifier.{
  WithdrawProof, VaultRow, Checks, Crypto, Environment, find_vault, commitment_matches, checks_of,
  entries, every_passes, result_of, verify_withdraw_proof,
}

-- What a valid proof rests on.
abbrev pub IsBacked : Crypto → Environment → WithdrawProof → VaultRow → Type 0
IsBacked c env p v =
    (to_lower_case v.owner_address ≡ to_lower_case p.owner_address)
    × ((amount : JsString) × (c.decrypt_amount v.encrypted_amount v.salt ≡ some amount)
        × (c.verify_commitment amount p.randomness v.commitment ≡ true))
    × (c.verify_nullifier v.commitment p.randomness v.nullifier_hash ≡ true)
    × (any (λ n. n === v.nullifier_hash) env.nullifiers ≡ false)
    × (v.status ≡ codes "active")
    × (v.unlock_at ≤ env.now / 1000)
    × (env.on_chain v.commitment ≡ some true)

module _ (c : Crypto) (p : WithdrawProof) (v : VaultRow) where
  matches-none :
      c.decrypt_amount v.encrypted_amount v.salt ≡ none → commitment_matches c p v ≡ false
  unfolding commitment_matches
  matches-none e = rw (e, commitment_matches) refl

  matches-some :
      (amount : JsString)
      → c.decrypt_amount v.encrypted_amount v.salt ≡ some amount
      → commitment_matches c p v ≡ c.verify_commitment amount p.randomness v.commitment
  unfolding commitment_matches
  matches-some amount e = rw (e, commitment_matches) refl

  -- The amount is decrypted, and the commitment is that of the amount and the secret.
  abbrev IsCommitted : Type 0
  IsCommitted =
      (amount : JsString) × (c.decrypt_amount v.encrypted_amount v.salt ≡ some amount)
      × (c.verify_commitment amount p.randomness v.commitment ≡ true)

  commitment_iff : (commitment_matches c p v ≡ true) ↔ IsCommitted
  commitment_iff = elim (Option-cases (c.decrypt_amount v.encrypted_amount v.salt)) [
    | inl e ↦ (λ h. let m = matches-none e in cc, λ w. let f = w.1 in cc)
    | inr (amount, e) ↦
        (λ h. (amount, e, sym (matches-some amount e) ∙ h), λ w. matches-some w.0 w.1 ∙ w.2)
  ]

on_chain_iff : (o : Option Bool) → (get_or_else o false ≡ true) ↔ (o ≡ some true)
on_chain_iff none = (λ e. cc, λ e. cc)
on_chain_iff (some b) = (λ e. ap some e, λ e. Option.some-injective b true e)

every_iff :
    (c : Crypto) (env : Environment) (p : WithdrawProof) (v : VaultRow)
    → (every_passes (entries (checks_of c env p v)) ≡ true) ↔ IsBacked c env p v
unfolding checks_of
every_iff c env p v = ground (
  arith,
  commitment_iff c p v,
  on_chain_iff (env.on_chain v.commitment),
  ===_iff (to_lower_case v.owner_address) (to_lower_case p.owner_address),
  ===_iff v.status (codes "active"),
)

result_of-valid : (v : VaultRow) (k : Checks) → (result_of v k).valid ≡ every_passes (entries k)
result_of-valid v k = ground arith

verify_missing :
    (c : Crypto) (env : Environment) (p : WithdrawProof)
    → find_vault p.vault_id env.vaults ≡ none
    → (verify_withdraw_proof c env p).valid ≡ false
unfolding verify_withdraw_proof
verify_missing c env p e = rw (e, verify_withdraw_proof) refl

verify_found :
    (c : Crypto) (env : Environment) (p : WithdrawProof) (v : VaultRow)
    → find_vault p.vault_id env.vaults ≡ some v
    → verify_withdraw_proof c env p ≡ result_of v (checks_of c env p v)
unfolding verify_withdraw_proof
verify_found c env p v e = rw (e, verify_withdraw_proof) refl

-- A withdrawal proof is valid exactly if the vault is there, its owner is the one of the proof, letter
-- case aside, its commitment and nullifier are those of the secret, the nullifier is unused, the
-- vault is active, its time has come, and the chain confirms the commitment.
pub verify_withdraw_proof-IsBacked :
    (c : Crypto) (env : Environment) (p : WithdrawProof)
    → ((verify_withdraw_proof c env p).valid ≡ true)
      ↔ ((v : VaultRow) × (find_vault p.vault_id env.vaults ≡ some v) × IsBacked c env p v)
verify_withdraw_proof-IsBacked c env p = elim (Option-cases (find_vault p.vault_id env.vaults)) [
  | inl e ↦ (λ h. let m = verify_missing c env p e in cc, λ w. let f = w.1 in cc)
  | inr (v, e) ↦
      let m : (verify_withdraw_proof c env p).valid ≡ every_passes (entries (checks_of c env p v)) =
        ap (λ r. r.valid) (verify_found c env p v e) ∙ result_of-valid v (checks_of c env p v) in
      (
        λ h. (v, e, (every_iff c env p v).0 (sym m ∙ h)),
        λ w.
            m
            ∙ (every_iff c env p v).1
                (subst (IsBacked c env p) (Option.some-injective w.0 v (sym w.1 ∙ e)) w.2),
      )
]
