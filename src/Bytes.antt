-- ===== src/Bytes.antt =====
-- The operations of `Buffer` that the Bitcoin code uses, on lists of bytes, and the variable-length
-- integers: readVarInt of backend/src/services/BitcoinProofService.ts, varInt and encodeWitnessStack
-- of backend/src/services/BitcoinCovenantService.ts. An access out of range, which throws, is `none`.
pub mod Laws
use starknet.Common.{
  ℕ, zero, suc, ◌+◌, ◌-◌, ◌*◌, ◌/◌, ◌%◌, Bool, true, false, Option, none, some, List, [], ◌∷◌, ◌++◌,
  length, get_elem?, take, drop, ltb, leb, ◌==◌, if◌then◌else◌,
}

abbrev pub Bytes : Type 0
Bytes = List ℕ

-- `buf.slice(from, to)`
abbrev pub slice : ℕ → ℕ → Bytes → Bytes
slice from to buf = take (to - from) (drop from buf)

-- The number that little-endian bytes stand for, and the bytes of a number.
pub le_value : Bytes → ℕ
le_value [] = 0
le_value (b ∷ bs) = b + 256 * le_value bs

pub le_bytes : ℕ → ℕ → Bytes
le_bytes zero v = []
le_bytes (suc n) v = (v % 256) ∷ le_bytes n (v / 256)

-- `readUInt16LE`, `readUInt32LE` and `readBigUInt64LE`, for 2, 4 and 8 bytes.
unfoldable pub read_le : ℕ → Bytes → ℕ → Option ℕ
unfolding le_value
read_le n buf offset =
    let s = take n (drop offset buf) in if length s == n then some (le_value s) else none

abbrev pub with_size : ℕ → Option ℕ → Option (ℕ × ℕ)
with_size size none = none
with_size size (some v) = some (v, size)

-- `readVarInt`: the value and the number of bytes. A missing first byte fails every test of the
-- source, so that the last read throws.
unfoldable pub read_var_int : Bytes → ℕ → Option (ℕ × ℕ)
unfolding read_le
read_var_int buf offset = elim (get_elem? buf offset) [
  | none ↦ none
  | some first ↦
      if ltb first 0xfd
      then some (first, 1)
      else if first == 0xfd
      then with_size 3 (read_le 2 buf (offset + 1))
      else if first == 0xfe
      then with_size 5 (read_le 4 buf (offset + 1))
      else with_size 9 (read_le 8 buf (offset + 1))
]

-- The inner function `vi` of `encodeWitnessStack`.
unfoldable pub vi : ℕ → Bytes
unfolding le_bytes
vi n =
    if ltb n 0xfd
    then n ∷ []
    else if ltb n 0x10000
    then 0xfd ∷ le_bytes 2 n
    else if ltb n 0x100000000
    then 0xfe ∷ le_bytes 4 n
    else 0xff ∷ le_bytes 8 n

-- `varInt`: `writeUInt32LE` throws on what does not fit four bytes.
unfoldable pub var_int : ℕ → Option Bytes
unfolding le_bytes
var_int n =
    if ltb n 0xfd
    then some (n ∷ [])
    else if leb n 0xffff
    then some (0xfd ∷ le_bytes 2 n)
    else if ltb n 0x100000000
    then some (0xfe ∷ le_bytes 4 n)
    else none

-- The encodings of several values, one after the other.
abbrev pub encode_all {ℓ} : {A : Type ℓ} → (A → Bytes) → List A → Bytes
encode_all f [] = []
encode_all f (a ∷ as') = f a ++ encode_all f as'

abbrev pub encode_item : Bytes → Bytes
encode_item w = vi (length w) ++ w

-- `encodeWitnessStack`
unfoldable pub encode_witness_stack : List Bytes → Bytes
encode_witness_stack witness = vi (length witness) ++ encode_all encode_item witness
