-- ===== src/Vault/DepositTests.antt =====
-- Concrete deposits (backend/src/routes/vault.ts and commitment.ts).
use starknet.Circuit.{confirmed}
use starknet.Payout.{accepted}
use starknet.Receipt.{TransactionReceipt, received, verify_deposit_event}
use starknet.Validators.{is_valid_address, matches_hex}
use starknet.Vault.{
  active, deposit, insert_commitment, insert_vault, insert_transaction, Vault, Store, pending,
  get_vault, get_vault_by_nullifier, has_nullifier,
}
use starknet.Vault.Direct.{
  DepositRequest, DirectAnswers, direct_deposit, submitted, is_allowed_denomination,
}
use starknet.Vault.Funded.{direct_deposit_lost}
use starknet.Vault.Deposit.{
  insert_both, store_deposit, open_vault, Crypto, Confirmation, prepare_deposit, prepared_vault,
  commitment_row, confirm_deposit, is_valid_lock_duration,
}
use starknet.Vault.Deposited.{prepare_deposit-IsCovered, IsCovered}
use starknet.Vault.Confirmed.{Carries, confirm_deposit-IsVerified}
use starknet.Vault.Samples.{hash, owner, vault, store}
use starknet.Common.{
  All, to_lower_case, ◌++◌, ◌+◌, ℕ, ◌*◌, ◌^◌, ◌≡◌, refl, true, some, none, [], ◌∷◌, codes, ◌===◌,
  starts_with,
}

abbrev crypto : Crypto
crypto = record {
  vault_id = codes "w";
  salt = codes "s";
  randomness = codes "r";
  generate_commitment = λ amount r. amount ∷ r;
  generate_nullifier = λ c r. 0 ∷ (c ++ r);
  encrypt_amount = λ amount s. amount ∷ s;
  encrypt_randomness = λ r s. r ++ s;
}

abbrev same_commitment : DepositRequest
same_commitment = record {
  vault_id = codes "w";
  commitment = codes "0xc";
  amount = 10 ^ 15;
  owner_address = none;
  bitcoin_txid = none;
  secret = none;
  salt = none;
  randomness_hint = none;
}

abbrev direct_answers : DirectAnswers
direct_answers = record {
  account_address = owner;
  network = accepted hash;
  waited = confirmed 5;
  now = 1000;
}

direct_deposit_lost_example :
    direct_deposit crypto direct_answers same_commitment store ≡ (submitted hash, store)
unfolding is_allowed_denomination starts_with ◌===◌
direct_deposit_lost_example =
    direct_deposit_lost crypto direct_answers same_commitment hash store
      (record {
        allowed = refl;
        real_commitment = refl;
        answered = refl;
        real_hash = refl;
        hashed = refl;
        waited = (5, refl);
      })
      refl refl

abbrev opened : Store
opened = record store {
  vaults = vault ∷ prepared_vault crypto owner 700 90 10 ∷ [];
  commitments = commitment_row (prepared_vault crypto owner 700 90 10) ∷ [];
}

prepare_deposit-IsCovered_example :
    let s' = (prepare_deposit crypto owner (some 700) 90 (some 900) 10 store).1 in
    (sats : ℕ) × IsCovered owner (some 700) 90 (some 900) sats
    × (get_vault (codes "w") s'.vaults ≡ some (prepared_vault crypto owner sats 90 10))
    × (get_vault_by_nullifier
          (crypto.generate_nullifier
            (crypto.generate_commitment sats crypto.randomness)
            crypto.randomness)
          s'.vaults
        ≡ some (prepared_vault crypto owner sats 90 10))
    × (s'.commitments ≡ [] ++ commitment_row (prepared_vault crypto owner sats 90 10) ∷ [])
unfolding prepare_deposit is_valid_address matches_hex is_valid_lock_duration starts_with ◌===◌
    open_vault insert_both insert_vault insert_commitment has_nullifier
prepare_deposit-IsCovered_example =
    prepare_deposit-IsCovered crypto owner (some 700) 90 (some 900) 10 store
      (record {
        vault_id = codes "w";
        commitment = 700 ∷ codes "r";
        nullifier_hash = 0 ∷ ((700 ∷ codes "r") ++ codes "r");
        encrypted_randomness = codes "rs";
        unlock_at = 10 + 90 * 86400;
        apy = 12;
      })
      refl

-- The receipt of the deposit of the vault that was prepared
abbrev deposit_receipt : TransactionReceipt
deposit_receipt = record {
  transaction_hash = hash;
  block_number = 5;
  execution_succeeded = true;
  events =
      record {
        from_address = codes "0xabc";
        keys = codes "k" ∷ [];
        values = (700 ∷ codes "r") ∷ [];
      }
      ∷ [];
}

abbrev confirmation : Confirmation
confirmation = record {
  contract = codes "0xabc";
  waited = confirmed 5;
  receipt = received deposit_receipt;
  block_time = some 60;
  transaction_id = codes "t";
  now = 11;
}

confirm_deposit-IsVerified_example :
    let s' = (confirm_deposit confirmation (codes "w") hash opened).1 in
    (v : Vault) × (r : TransactionReceipt) × (get_vault (codes "w") opened.vaults ≡ some v)
    × (v.status ≡ pending)
    × ((b : ℕ) × (confirmation.waited ≡ confirmed b))
    × (confirmation.receipt ≡ received r)
    × Carries confirmation.contract v.commitment r
    × (5 ≡ r.block_number)
    × (get_vault (codes "w") s'.vaults
        ≡ some (record v { status = active; deposit_tx_hash = some hash }))
    × All (λ c. c.vault_id ≡ v.id → c.block_number ≡ some 5) s'.commitments
    × (s'.transactions
        ≡ opened.transactions
          ++ record {
            id = codes "t";
            vault_id = v.id;
            tx_hash = hash;
            kind = deposit;
            amount_encrypted = v.encrypted_amount;
            block_number = some 5;
            timestamp = 11;
          }
            ∷ [])
unfolding confirm_deposit get_vault starts_with ◌===◌ verify_deposit_event to_lower_case
    store_deposit insert_transaction
confirm_deposit-IsVerified_example =
    confirm_deposit-IsVerified confirmation (codes "w") hash opened 5 60 refl
