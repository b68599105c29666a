-- ===== src/Spv/Proof.antt =====
-- What the SPV proof of a serialised transaction holds (backend/src/services/BitcoinProofService.ts).
use starknet.Common.{refl, ◌≡◌, Option, some, JsString, All, arith}
use starknet.Transaction.{◌>>=◌, found}
use starknet.Transaction.Hex.{to_hex, from_hex-to_hex, IsByte}
use starknet.Transaction.Format.{Tx, legacy, seg_wit, IsTx}
use starknet.Transaction.Strip.{marker, strip-seg_wit}
use starknet.Transaction.Find.{first_output, find-seg_wit}
use starknet.Spv.{
  MerkleData, SpvProof, build_spv_proof, strip_witness_text, all_words, found_only,
  encode_spv_proof_as_calldata,
}

-- The proof as a function of the transaction that was serialised.
abbrev proof_of : MerkleData → Tx → JsString → Option SpvProof
proof_of m t vault_script_hex = do
  (vout, amount) ← found_only (first_output 0 vault_script_hex t.outputs)
  merkle_proof ← all_words m.merkle
  some (record {
    block_height = m.block_height;
    tx_pos = m.pos;
    raw_tx_hex = to_hex (legacy t);
    merkle_proof = merkle_proof;
    vout_index = vout;
    amount_sats = amount;
  })

strip_witness_text-seg_wit :
    (t : Tx)
    → IsTx t
    → All IsByte (seg_wit t)
    → strip_witness_text (to_hex (seg_wit t)) ≡ some (to_hex (legacy t))
unfolding strip_witness_text
strip_witness_text-seg_wit t h b =
    rw (from_hex-to_hex (seg_wit t) b, marker t h, strip-seg_wit t h) refl

-- For the text of a well-formed transaction with witness data the proof is made exactly if one of its outputs has
-- the script of the vault and all merkle hashes are well formed; it names the first such output with
-- its amount, and carries the transaction without its witness data.
pub build_spv_proof-seg_wit :
    (m : MerkleData) (t : Tx) (vault_script_hex : JsString)
    → IsTx t
    → All IsByte (seg_wit t)
    → build_spv_proof m (to_hex (seg_wit t)) vault_script_hex ≡ proof_of m t vault_script_hex
unfolding build_spv_proof
build_spv_proof-seg_wit m t vault_script_hex h b = rw (
  strip_witness_text-seg_wit t h b,
  from_hex-to_hex (seg_wit t) b,
  find-seg_wit t vault_script_hex h,
)

-- The bytes that go to the contract are those that the txid is the hash of, and the output and amount
-- of the proof are those of the first output that pays the vault.
pub build_spv_proof-calldata :
    (m : MerkleData) (t : Tx) (vault_script_hex : JsString) (p : SpvProof)
    → IsTx t
    → All IsByte (seg_wit t)
    → All IsByte (legacy t)
    → build_spv_proof m (to_hex (seg_wit t)) vault_script_hex ≡ some p
    → ((encode_spv_proof_as_calldata p).0 ≡ legacy t)
      × (first_output 0 vault_script_hex t.outputs ≡ found p.vout_index p.amount_sats)
unfolding encode_spv_proof_as_calldata
build_spv_proof-calldata m t vault_script_hex p h b b' e =
    ground (arith, build_spv_proof-seg_wit m t vault_script_hex h b, from_hex-to_hex (legacy t) b')
