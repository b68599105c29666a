-- ===== src/Verifier.antt =====
-- backend/src/services/ProofVerifier.ts: the checks of a withdrawal proof against the vault's row, the
-- nullifiers used, the clock and the chain. What CryptoService decrypts and compares, and what the
-- chain answers, are arguments.
pub mod Valid
mod Tests
use starknet.Common.{
  ℕ, ◌/◌, Bool, true, false, not, ◌&&◌, Option, none, some, List, [], ◌∷◌, ◌++◌, JsString, codes,
  to_lower_case, ◌===◌, any, find?, leb, if◌then◌else◌, is_some, get_or_else,
}

pub record WithdrawProof : Type 0 where
  pub vault_id : JsString
  pub owner_address : JsString
  pub randomness : JsString

pub record VaultRow : Type 0 where
  pub id : JsString
  pub owner_address : JsString
  pub commitment : JsString
  pub encrypted_amount : JsString
  pub salt : JsString
  pub nullifier_hash : JsString
  pub status : JsString
  pub unlock_at : ℕ

pub record Checks : Type 0 where
  pub vault_exists : Bool
  pub owner_match : Bool
  pub commitment_match : Bool
  pub nullifier_match : Bool
  pub nullifier_unused : Bool
  pub vault_active : Bool
  pub time_lock_passed : Bool
  pub on_chain_confirmed : Bool

abbrev pub no_checks : Checks
no_checks = record {
  vault_exists = false;
  owner_match = false;
  commitment_match = false;
  nullifier_match = false;
  nullifier_unused = false;
  vault_active = false;
  time_lock_passed = false;
  on_chain_confirmed = false;
}

-- What the proof token says, before it is signed.
pub record Payload : Type 0 where
  pub vault_id : JsString
  pub commitment : JsString
  pub nullifier_hash : JsString
  pub owner_address : JsString

pub record VerificationResult : Type 0 where
  pub valid : Bool
  pub reason : Option JsString
  pub checks : Checks
  pub proof_token : Option Payload

-- The operations of CryptoService that the verifier calls; `decrypt_amount` throws on a bad row.
pub record Crypto : Type 0 where
  pub decrypt_amount : JsString → JsString → Option JsString
  pub verify_commitment : JsString → JsString → JsString → Bool
  pub verify_nullifier : JsString → JsString → JsString → Bool

-- The tables `vaults` and `nullifiers`, the clock in milliseconds, and what `isCommitmentOnChain`
-- answers, `none` where it throws.
pub record Environment : Type 0 where
  pub vaults : List VaultRow
  pub nullifiers : List JsString
  pub now : ℕ
  pub on_chain : JsString → Option Bool

unfoldable pub find_vault : JsString → List VaultRow → Option VaultRow
find_vault id vaults = find? (λ v. v.id === id) vaults

-- Check 3: the amount is decrypted and the commitment recomputed.
unfoldable pub commitment_matches : Crypto → WithdrawProof → VaultRow → Bool
commitment_matches c p v = elim (c.decrypt_amount v.encrypted_amount v.salt) [
  | none ↦ false
  | some amount ↦ c.verify_commitment amount p.randomness v.commitment
]

unfoldable pub checks_of : Crypto → Environment → WithdrawProof → VaultRow → Checks
unfolding commitment_matches
checks_of c env p v = record {
  vault_exists = true;
  owner_match = to_lower_case v.owner_address === to_lower_case p.owner_address;
  commitment_match = commitment_matches c p v;
  nullifier_match = c.verify_nullifier v.commitment p.randomness v.nullifier_hash;
  nullifier_unused = not (any (λ n. n === v.nullifier_hash) env.nullifiers);
  vault_active = v.status === codes "active";
  time_lock_passed = leb v.unlock_at (env.now / 1000);
  on_chain_confirmed = get_or_else (env.on_chain v.commitment) false;
}

-- `Object.entries(checks)`
abbrev pub entries : Checks → List (JsString × Bool)
entries k =
    (codes "vaultExists", k.vault_exists)
    ∷ (codes "ownerMatch", k.owner_match)
    ∷ (codes "commitmentMatch", k.commitment_match)
    ∷ (codes "nullifierMatch", k.nullifier_match)
    ∷ (codes "nullifierUnused", k.nullifier_unused)
    ∷ (codes "vaultActive", k.vault_active)
    ∷ (codes "timeLockPassed", k.time_lock_passed)
    ∷ (codes "onChainConfirmed", k.on_chain_confirmed)
    ∷ []

abbrev pub every_passes : List (JsString × Bool) → Bool
every_passes [] = true
every_passes ((name, passed) ∷ es) = passed && every_passes es

abbrev pub failed_names : List (JsString × Bool) → List JsString
failed_names [] = []
failed_names ((name, passed) ∷ es) = if passed then failed_names es else name ∷ failed_names es

-- `names.join(', ')`
abbrev pub join_names : List JsString → JsString
join_names [] = []
join_names (n ∷ []) = n
join_names (n ∷ m ∷ ns) = n ++ (codes ", " ++ join_names (m ∷ ns))

abbrev pub result_of : VaultRow → Checks → VerificationResult
result_of v k =
    if every_passes (entries k)
    then record {
      valid = true;
      reason = none;
      checks = k;
      proof_token = some (record {
        vault_id = v.id;
        commitment = v.commitment;
        nullifier_hash = v.nullifier_hash;
        owner_address = v.owner_address;
      });
    }
    else record {
      valid = false;
      reason = some (codes "Failed checks: " ++ join_names (failed_names (entries k)));
      checks = k;
      proof_token = none;
    }

-- `verifyWithdrawProof`
unfoldable pub verify_withdraw_proof : Crypto → Environment → WithdrawProof → VerificationResult
unfolding checks_of find_vault
verify_withdraw_proof c env p = elim (find_vault p.vault_id env.vaults) [
  | none ↦ record {
    valid = false;
    reason = some (codes "Vault not found");
    checks = no_checks;
    proof_token = none;
  }
  | some v ↦ result_of v (checks_of c env p v)
]
