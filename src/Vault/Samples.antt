-- ===== src/Vault/Samples.antt =====
-- A vault, a server and a request, for the tests of backend/src/routes/vault.ts and its neighbours.
use starknet.Auth.{Auths, Params, new_row, create_authorization, insert_row}
use starknet.Payout.{Broadcast, accepted, rejected}
use starknet.Validators.{is_valid_address, matches_hex}
use starknet.Vault.{Vault, Store, active, get_vault, get_vault_by_nullifier, has_nullifier}
use starknet.Vault.Burn.{Server, Request, Surroundings}
use starknet.Vault.First.{IsReady}
use starknet.Common.{
  ◌*◌, ◌^◌, refl, true, false, some, none, [], ◌∷◌, JsString, codes, ◌===◌, starts_with,
}

abbrev pub hash : JsString
hash = codes "0x00000000000000000000000000000001"

abbrev pub owner : JsString
owner = codes "0x000000000000000000000000000000000000000000000000000000000000001"

abbrev pub vault : Vault
vault = record {
  id = codes "v";
  owner_address = owner;
  commitment = codes "0xc";
  encrypted_amount = codes "e";
  salt = codes "s";
  randomness_hint = codes "r";
  lock_duration_days = 30;
  created_at = 1;
  unlock_at = 2;
  status = active;
  deposit_tx_hash = some (codes "0xd");
  withdraw_tx_hash = none;
  bitcoin_txid = none;
  nullifier_hash = some (codes "n");
  bitcoin_withdrawal_address = none;
  deposit_sender_address = none;
}

abbrev pub store : Store
store = record {
  vaults = vault ∷ [];
  commitments = [];
  transactions = [];
  nullifiers = [];
  world = record { auths = []; payments = [] };
  burns = [];
}

abbrev pub server : Server
server = record {
  sender_address = some (codes "tb1own");
  options = record { use_covenants = false; configured = true };
  decrypt_amount = λ e s. some (5000 * 10 ^ 10);
}

abbrev pub request : Request
request = record { nullifier_hash = codes "n"; bitcoin_address = codes "tb1q" }

abbrev pub around : Broadcast → Surroundings
around network = record {
  proof_generated = true;
  burn = accepted hash;
  network = network;
  in_time = true;
  authorization_id = codes "a";
  transaction_id = codes "t";
  now = 7;
}

abbrev pub refused_network : Surroundings
refused_network = around (rejected (codes "no funds"))

abbrev pub params : Params
params = record {
  vault_id = codes "v";
  nullifier_hash = codes "n";
  starknet_tx_hash = hash;
  bitcoin_address = codes "tb1q";
  amount_sats = 5000;
}

abbrev pub auths : Auths
auths = new_row (codes "a") 7 params ∷ []

-- The vault is ready for a first attempt.
pub ready : IsReady server request refused_network vault (5000 * 10 ^ 10) hash store auths
unfolding get_vault_by_nullifier has_nullifier get_vault is_valid_address matches_hex
    create_authorization insert_row starts_with ◌===◌
ready = record {
  found = refl;
  by_id = refl;
  is_active = refl;
  not_burned = refl;
  signet = refl;
  not_own = refl;
  decrypted = refl;
  owned = refl;
  answered = refl;
  hashed = refl;
  unique = tt;
  created = refl;
}
