-- ===== src/Utxo/Tests.antt =====
-- Concrete selections of outputs (backend/src/services/BitcoinCovenantService.ts and
-- backend/src/services/BitcoinBroadcastService.ts).
use starknet.Common.{
  ℕ, Bool, true, ◌≡◌, ◌≤◌, refl, some, List, [], ◌∷◌, JsString, codes, arith, length, sort_by,
}
use starknet.Utxo.{
  build_deposit, gather, Utxo, Plan, select_utxos, choose, covenant_fee, estimated_fee,
  create_covenant_withdrawal,
}
use starknet.Utxo.Balance.{Pays, Balanced, create_covenant_withdrawal-Balanced}
use starknet.Utxo.Fewest.{select_utxos_fewest}

abbrev utxo : JsString → ℕ → Utxo
utxo txid value = record { txid = txid; vout = 0; value = value }

abbrev large : Utxo
large = utxo (codes "l") 9000

abbrev utxos : List Utxo
utxos = utxo (codes "s") 4000 ∷ large ∷ utxo (codes "m") 6000 ∷ []

abbrev plan : Plan
plan = record {
  inputs = large ∷ utxo (codes "m") 6000 ∷ [];
  outputs = (codes "r", 10000) ∷ (codes "c", 1000) ∷ [];
}

built : create_covenant_withdrawal (codes "c") (codes "r") 10000 utxos ≡ some plan
unfolding create_covenant_withdrawal select_utxos choose sort_by
built = refl

create_covenant_withdrawal-Balanced_example :
    Pays (codes "r") (codes "c") 10000 plan.outputs × Balanced covenant_fee plan
create_covenant_withdrawal-Balanced_example =
    create_covenant_withdrawal-Balanced (codes "c") (codes "r") 10000 utxos plan built

abbrev all : Utxo → Bool
all u = true

select_utxos_fewest_example :
    (chosen : List Utxo) × (reached : ℕ) × (select_utxos covenant_fee 10000 utxos
      ≡ some (chosen, reached))
    × (length chosen ≤ 3)
select_utxos_fewest_example =
    select_utxos_fewest covenant_fee 10000 all utxos (omega arith) (omega arith)

abbrev deposit : Plan
deposit = record {
  inputs = large ∷ utxo (codes "m") 6000 ∷ [];
  outputs = (codes "v", 10000) ∷ (codes "c", 4685) ∷ [];
}

deposit_built :
    build_deposit (estimated_fee 3 2) (some (codes "c")) (some (codes "v")) 10000 utxos
    ≡ some deposit
unfolding build_deposit gather sort_by
deposit_built = refl
