-- ===== src/BurnProof.antt =====
-- backend/src/services/StarknetProofService.ts: the proof that a burn was made on Starknet, its 112
-- bytes, and its signature. The hash with the signature scheme are arguments. The two numbers of a
-- proof, which are bigints, are natural numbers; a proof from the cache holds them as texts.
pub mod Numerals
pub mod Generate
pub mod Layout
pub mod Read
pub mod Chunks
pub mod Recipient
pub mod Emitted
pub mod Cached
mod Tests
use starknet.Common.{
  ℕ, zero, suc, ◌+◌, ◌-◌, ◌^◌, Bool, true, false, Option, none, some, List, [], ◌∷◌, ◌++◌, JsString,
  length, take, drop, replicate, ltb, pad_start, remove_prefix_mark, if◌then◌else◌,
}
use starknet.Bytes.{Bytes, slice, le_bytes}
use starknet.Transaction.{◌>>=◌}
use starknet.Transaction.Hex.{from_hex}

pub record StarknetBurnProof : Type 0 where
  pub tx_hash : JsString
  pub amount : ℕ
  pub nullifier : JsString
  pub recipient_btc : JsString
  pub block_number : ℕ
  pub signature : JsString
  pub timestamp : ℕ

-- `source.copy(buffer, offset)`: what does not fit is left out.
abbrev pub copy : Bytes → ℕ → Bytes → Bytes
copy source offset buffer =
    take offset buffer
    ++ (take (length buffer - offset) source ++ drop (offset + length source) buffer)

-- `buffer.writeBigUInt64LE(v, offset)`, which throws on a larger number.
abbrev pub write_le : ℕ → ℕ → Bytes → Option Bytes
write_le v offset buffer = if ltb v (2 ^ 64) then some (copy (le_bytes 8 v) offset buffer) else none

-- `Buffer.from(s.replace('0x', '').padStart(64, '0'), 'hex')`
unfoldable pub hash_bytes : JsString → Bytes
hash_bytes s = from_hex (pad_start 64 48 (remove_prefix_mark s))

-- `decodeBech32`, which reads the characters behind the first four as hexadecimal digits.
unfoldable pub decode_bech32 : JsString → Bytes
decode_bech32 address = take 20 (from_hex (drop 4 address))

-- `addressToScriptHash`; the decoder never throws.
unfoldable pub address_to_script_hash : JsString → Bytes
unfolding decode_bech32
address_to_script_hash address = take 20 (decode_bech32 address)

-- `splitIntoChunks`, with the number of turns that are left.
unfoldable pub chunks_from : ℕ → ℕ → Bytes → List Bytes
chunks_from zero size buffer = []
chunks_from (suc n) size [] = []
chunks_from (suc n) size (b ∷ buffer) =
    take size (b ∷ buffer) ∷ chunks_from n size (drop size (b ∷ buffer))

unfoldable pub split_into_chunks : ℕ → Bytes → List Bytes
unfolding chunks_from
split_into_chunks size buffer = chunks_from (length buffer) size buffer

-- The buffer of `serializeProofData`
unfoldable pub proof_buffer : StarknetBurnProof → Option Bytes
unfolding hash_bytes address_to_script_hash
proof_buffer p = do
  b ← write_le p.amount 32 (copy (hash_bytes p.tx_hash) 0 (replicate 112 0))
  write_le p.block_number 92
      (copy (address_to_script_hash p.recipient_btc) 72 (copy (hash_bytes p.nullifier) 40 b))

pub record SerializedProof : Type 0 where
  pub buffer : Bytes
  pub chunks : List Bytes

-- `serializeProofData`
unfoldable pub serialize_proof_data : StarknetBurnProof → Option SerializedProof
unfolding proof_buffer split_into_chunks
serialize_proof_data p = do
  b ← proof_buffer p
  some (record { buffer = b; chunks = split_into_chunks 420 b })

-- What is made of the hash of the bytes with the key, if one is configured.
abbrev pub Signer : Type 0
Signer = Option (Bytes → JsString)

abbrev pub Checker : Type 0
Checker = Option (Bytes → Bytes → Bytes → Bool)

abbrev pub check_signature : Checker → JsString → Option SerializedProof → Bool
check_signature key signature none = false
check_signature none signature (some x) = true
check_signature (some check) signature (some x) =
    check x.buffer (from_hex (take 64 signature)) (from_hex (take 64 (drop 64 signature)))

-- `verifyProof`: without a key every proof that can be serialised is accepted.
unfoldable pub verify_proof : Checker → StarknetBurnProof → Bool
unfolding serialize_proof_data
verify_proof key p = check_signature key p.signature (serialize_proof_data p)
