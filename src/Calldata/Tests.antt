-- ===== src/Calldata/Tests.antt =====
-- Concrete calldata (backend/src/services/StarknetService.ts).
use starknet.Common.{◌^◌, arith, ◌≡◌, some, none, refl, [], ◌∷◌, codes}
use starknet.Calldata.{
  SpvParams, spv_calldata, number, text, not_sent, execute_spv_deposit, WithdrawParams,
  withdraw_calldata,
}
use starknet.Calldata.Decode.{InRange, read_deposit, read_deposit-spv_calldata}

abbrev params : SpvParams
params = record {
  commitment = codes "0xc";
  block_height = 800;
  tx_pos = 3;
  raw_tx_bytes = 2 ∷ 0 ∷ [];
  vout_index = 1;
  merkle_proof_words = (1 ∷ 2 ∷ 3 ∷ 4 ∷ 5 ∷ 6 ∷ 7 ∷ 8 ∷ []) ∷ [];
}

params-InRange : InRange params
params-InRange = record {
  height = omega arith;
  pos = omega arith;
  bytes = (omega arith, (omega arith, tt));
  size = omega arith;
  vout = omega arith;
  hashes = ((refl, omega arith), tt);
  levels = omega arith;
}

read_deposit-spv_calldata_example : read_deposit (spv_calldata params) ≡ some params
read_deposit-spv_calldata_example = read_deposit-spv_calldata params params-InRange

-- An output index that does not fit 32 bits is sent as it is, and refused.
too_large : read_deposit (spv_calldata (record params { vout_index = 2 ^ 32 })) ≡ none
unfolding spv_calldata read_deposit
too_large = refl

abbrev withdrawal : WithdrawParams
withdrawal = record {
  nullifier_hash = codes "0xn";
  proof = codes "0xn" ∷ [];
  recipient = codes "0xr";
  amount = 340282366920938463463374607431768211461;
}

-- The amount is more than the low half holds.
halves :
    withdraw_calldata withdrawal
    ≡ text (codes "0xn")
      ∷ number 1
      ∷ text (codes "0xn")
      ∷ text (codes "0xr")
      ∷ number 5
      ∷ number 1
      ∷ []
unfolding withdraw_calldata
halves = refl

no_account :
    execute_spv_deposit
      (record { vault_contract = codes "v"; mockbtc_contract = codes "m" })
      none
      params
    ≡ not_sent (codes "INSUFFICIENT SEPOLIA ETH: No relayer account configured")
unfolding execute_spv_deposit
no_account = refl
