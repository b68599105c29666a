-- ===== src/Auth/Tests.antt =====
-- Concrete authorizations (backend/src/services/WithdrawalAuthorizationService.ts).
use starknet.Common.{◌≡◌, refl, [], ◌∷◌, codes, ◌===◌, starts_with, inl}
use starknet.Auth.{Auths, Params, ok, new_row, insert_row, create_authorization}
use starknet.Auth.Creation.{create_authorization_once}

abbrev params : Params
params = record {
  vault_id = codes "v";
  nullifier_hash = codes "n";
  starknet_tx_hash = codes "0x00000000000000000000000000000000";
  bitcoin_address = codes "tb1q";
  amount_sats = 5000;
}

abbrev table : Auths
table = new_row (codes "a") 7 params ∷ []

created : create_authorization (codes "v" ∷ []) (codes "a") 7 params [] ≡ ok table
unfolding create_authorization insert_row starts_with ◌===◌
created = refl

create_authorization_once_example :
    ¬ (create_authorization (codes "v" ∷ []) (codes "b") 8 params table ≡ ok [])
create_authorization_once_example =
    create_authorization_once (codes "v" ∷ []) (codes "v" ∷ []) (codes "a") (codes "b") 7 8 params
      params [] table [] created (inl refl)
