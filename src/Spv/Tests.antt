-- ===== src/Spv/Tests.antt =====
-- The proof of a small transaction (backend/src/services/BitcoinProofService.ts).
use starknet.Common.{ltb, ◌&&◌, Bool, true, ◌≡◌, refl, some, [], ◌∷◌, codes, ◌===◌, arith, All}
use starknet.Bytes.{Bytes, vi, encode_witness_stack}
use starknet.Transaction.Format.{legacy, seg_wit}
use starknet.Transaction.Hex.{IsByte, to_hex}
use starknet.Transaction.Find.{first_output}
use starknet.Transaction.Tests.{small_tx, small_tx-IsTx}
use starknet.Spv.{all_words, MerkleData, SpvProof, build_spv_proof}
use starknet.Spv.Proof.{build_spv_proof-seg_wit}

abbrev merkle : MerkleData
merkle = record { block_height = 800; pos = 3; merkle = [] }

abbrev proof : SpvProof
proof = record {
  block_height = 800;
  tx_pos = 3;
  raw_tx_hex = to_hex (legacy small_tx);
  merkle_proof = [];
  vout_index = 1;
  amount_sats = 70000;
}

abbrev all_bytes : Bytes → Bool
all_bytes [] = true
all_bytes (b ∷ bs) = ltb b 256 && all_bytes bs

all_bytes-IsByte : (bs : Bytes) → all_bytes bs ≡ true → All IsByte bs
all_bytes-IsByte [] h = tt
all_bytes-IsByte (b ∷ bs) h = (ground arith, all_bytes-IsByte bs (ground arith))

seg_wit-IsByte : All IsByte (seg_wit small_tx)
unfolding seg_wit vi encode_witness_stack
seg_wit-IsByte = all_bytes-IsByte (seg_wit small_tx) refl

build_spv_proof-seg_wit_example :
    build_spv_proof merkle (to_hex (seg_wit small_tx)) (codes "ab01") ≡ some proof
unfolding ◌===◌ first_output to_hex all_words
build_spv_proof-seg_wit_example =
    build_spv_proof-seg_wit merkle small_tx (codes "ab01") small_tx-IsTx seg_wit-IsByte
