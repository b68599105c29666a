-- ===== src/Spv.antt =====
-- backend/src/services/BitcoinProofService.ts: hashes as eight words, the SPV proof of a deposit and its
-- calldata; merkleRootToU32Array and parseMerkleRootFromHeader of
-- backend/src/services/BitcoinHeaderRelayService.ts. What the explorer answers is an argument.
pub mod Words
pub mod Proof
mod Tests
use starknet.Common.{
  not, ℕ, suc, ◌+◌, ◌-◌, ◌*◌, Bool, true, false, Option, none, some, List, [], ◌∷◌, ◌++◌, reverse,
  JsString, length, take, drop, ◌==◌, if◌then◌else◌,
}
use starknet.Bytes.{Bytes}
use starknet.Transaction.{
  ◌>>=◌, is_seg_wit, strip_witness_data, find_vault_output, Search, found, no_output, out_of_range,
}
use starknet.Transaction.Hex.{from_hex, to_hex}

-- `readUInt32BE` at every fourth byte.
unfoldable pub words_be : Bytes → List ℕ
words_be (a ∷ b ∷ c ∷ d ∷ bs) = (((a * 256 + b) * 256 + c) * 256 + d) ∷ words_be bs
words_be _ = []

-- `hexHashToWords`: the bytes are reversed first.
unfoldable pub hex_hash_to_words : JsString → Option (List ℕ)
unfolding words_be
hex_hash_to_words hex =
    let buf = from_hex hex in if length buf == 32 then some (words_be (reverse buf)) else none

-- `merkleRootToU32Array`: the bytes are taken as they stand.
unfoldable pub merkle_root_to_u32_array : JsString → Option (List ℕ)
unfolding words_be
merkle_root_to_u32_array hex =
    let buf = from_hex hex in if length buf == 32 then some (words_be buf) else none

-- `parseMerkleRootFromHeader`
unfoldable pub parse_merkle_root_from_header : JsString → Option JsString
parse_merkle_root_from_header hex =
    if length hex == 160 then some (take (136 - 72) (drop 72 hex)) else none

-- What the explorer answers about a transaction: its merkle proof and its text.
pub record MerkleData : Type 0 where
  pub block_height : ℕ
  pub pos : ℕ
  pub merkle : List JsString

pub record SpvProof : Type 0 where
  pub block_height : ℕ
  pub tx_pos : ℕ
  pub raw_tx_hex : JsString
  pub merkle_proof : List (List ℕ)
  pub vout_index : ℕ
  pub amount_sats : ℕ

-- `merkle.map(hexHashToWords)`, which throws if one hash is malformed.
unfoldable pub all_words : List JsString → Option (List (List ℕ))
all_words [] = some []
all_words (h ∷ hs) = do w ← hex_hash_to_words h; ws ← all_words hs; some (w ∷ ws)

abbrev pub found_only : Search → Option (ℕ × ℕ)
found_only (found vout amount) = some (vout, amount)
found_only no_output = none
found_only out_of_range = none

-- `stripWitnessData` on the text: where there is no witness data it returns the text itself.
unfoldable pub strip_witness_text : JsString → Option JsString
strip_witness_text raw_tx_hex =
    if not (is_seg_wit (from_hex raw_tx_hex))
    then some raw_tx_hex
    else do stripped ← strip_witness_data (from_hex raw_tx_hex); some (to_hex stripped)

-- `buildSpvProof` on what was fetched; the text of the transaction is trimmed already.
unfoldable pub build_spv_proof : MerkleData → JsString → JsString → Option SpvProof
unfolding all_words strip_witness_text
build_spv_proof m raw_tx_hex vault_script_hex = do
  stripped ← strip_witness_text raw_tx_hex
  (vout, amount) ← found_only (find_vault_output (from_hex raw_tx_hex) vault_script_hex)
  merkle_proof ← all_words m.merkle
  some (record {
    block_height = m.block_height;
    tx_pos = m.pos;
    raw_tx_hex = stripped;
    merkle_proof = merkle_proof;
    vout_index = vout;
    amount_sats = amount;
  })

-- `encodeSpvProofAsCalldata`
unfoldable pub encode_spv_proof_as_calldata : SpvProof → Bytes × List (List ℕ)
encode_spv_proof_as_calldata p = (from_hex p.raw_tx_hex, p.merkle_proof)
