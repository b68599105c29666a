-- ===== src/Verifier/Tests.antt =====
-- A concrete proof (backend/src/services/ProofVerifier.ts).
use starknet.Common.{true, ◌≡◌, ◌↔◌, some, [], ◌∷◌, codes, ◌===◌}
use starknet.Verifier.{
  WithdrawProof, VaultRow, Crypto, Environment, find_vault, verify_withdraw_proof,
}
use starknet.Verifier.Valid.{IsBacked, verify_withdraw_proof-IsBacked}

abbrev plain_crypto : Crypto
plain_crypto = record {
  decrypt_amount = λ encrypted salt. some encrypted;
  verify_commitment = λ amount secret commitment. commitment === amount;
  verify_nullifier = λ commitment secret nullifier. nullifier === secret;
}

abbrev vault : VaultRow
vault = record {
  id = codes "v";
  owner_address = codes "0xAB";
  commitment = codes "5";
  encrypted_amount = codes "5";
  salt = [];
  nullifier_hash = codes "s";
  status = codes "active";
  unlock_at = 100;
}

abbrev environment : Environment
environment = record {
  vaults = vault ∷ [];
  nullifiers = [];
  now = 100500;
  on_chain = λ commitment. some true;
}

abbrev proof : WithdrawProof
proof = record { vault_id = codes "v"; owner_address = codes "0xab"; randomness = codes "s" }

verify_withdraw_proof-IsBacked_example :
    ((verify_withdraw_proof plain_crypto environment proof).valid ≡ true) ↔ (
      (v : VaultRow) × (find_vault proof.vault_id environment.vaults ≡ some v)
      × IsBacked plain_crypto environment proof v)
verify_withdraw_proof-IsBacked_example =
    verify_withdraw_proof-IsBacked plain_crypto environment proof
