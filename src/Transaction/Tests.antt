-- ===== src/Transaction/Tests.antt =====
-- A small transaction (backend/src/services/BitcoinProofService.ts).
use starknet.Common.{◌++◌, ◌≡◌, refl, some, [], ◌∷◌, codes, ◌===◌, arith}
use starknet.Transaction.{strip_witness_data, find_vault_output, found}
use starknet.Transaction.Format.{Input, Output, Tx, IsTx, legacy, seg_wit}
use starknet.Transaction.Hex.{to_hex}
use starknet.Transaction.Strip.{strip-seg_wit}
use starknet.Transaction.Find.{first_output, find-seg_wit}
use starknet.Bytes.{Bytes}

abbrev zeros : Bytes
zeros = 0 ∷ 0 ∷ 0 ∷ 0 ∷ 0 ∷ 0 ∷ 0 ∷ 0 ∷ 0 ∷ []

abbrev outpoint : Bytes
outpoint = zeros ++ zeros ++ zeros ++ zeros

abbrev spent : Input
spent = record { outpoint = outpoint; script = []; sequence = 255 ∷ 255 ∷ 255 ∷ 255 ∷ [] }

abbrev other_output : Output
other_output = record { amount = 300; script = 0x51 ∷ [] }

abbrev vault_output : Output
vault_output = record { amount = 70000; script = 0xab ∷ 0x01 ∷ [] }

abbrev pub small_tx : Tx
small_tx = record {
  version = 2 ∷ 0 ∷ 0 ∷ 0 ∷ [];
  inputs = spent ∷ [];
  outputs = other_output ∷ vault_output ∷ [];
  witness = ((7 ∷ 8 ∷ []) ∷ []) ∷ [];
  locktime = 0 ∷ 0 ∷ 0 ∷ 0 ∷ [];
}

pub small_tx-IsTx : IsTx small_tx
small_tx-IsTx = record {
  version_size = refl;
  locktime_size = refl;
  input_count = omega arith;
  output_count = omega arith;
  each_input =
      (record { outpoint_size = refl; sequence_size = refl; script_size = omega arith }, tt);
  each_output = (
    record { amount_bound = omega arith; script_size = omega arith },
    (record { amount_bound = omega arith; script_size = omega arith }, tt),
  );
  one_witness_each = refl;
  each_witness = ((omega arith, (omega arith, tt)), tt);
}

strip-seg_wit_example : strip_witness_data (seg_wit small_tx) ≡ some (legacy small_tx)
strip-seg_wit_example = strip-seg_wit small_tx small_tx-IsTx

find-seg_wit_example : find_vault_output (seg_wit small_tx) (codes "ab01") ≡ found 1 70000
unfolding ◌===◌ first_output to_hex
find-seg_wit_example = find-seg_wit small_tx (codes "ab01") small_tx-IsTx
