-- ===== src/Transaction.antt =====
-- backend/src/services/BitcoinProofService.ts: parsing raw Bitcoin transactions for an SPV proof. A
-- read out of range throws and is `none`; amounts are taken below 2 ^ 53, where a number of the
-- source is exact.
pub mod Format
pub mod Passes
pub mod Strip
pub mod Find
pub mod Hex
pub mod Tests
use starknet.Common.{
  ℕ, zero, suc, ◌+◌, Bool, true, false, not, ◌&&◌, Option, none, some, List, [], ◌∷◌, ◌++◌,
  JsString, ◌===◌, length, get_elem?, ◌==◌, if◌then◌else◌,
}
use starknet.Bytes.{Bytes, slice, read_le, read_var_int}
use starknet.Transaction.Hex.{to_hex}

infixl 5 ◌>>=◌
abbrev pub ◌>>=◌ {ℓ κ} : {A : Type ℓ} {B : Type κ} → Option A → (A → Option B) → Option B
none >>= k = none
some a >>= k = k a

-- A loop that runs a given number of rounds and moves the cursor.
unfoldable pub repeat : ℕ → (ℕ → Option ℕ) → ℕ → Option ℕ
repeat zero step cursor = some cursor
repeat (suc n) step cursor = step cursor >>= repeat n step

-- `buf[offset] === b`, false where the byte is missing
abbrev pub byte_is : Bytes → ℕ → ℕ → Bool
byte_is buf offset b = elim (get_elem? buf offset) [ none ↦ false | some c ↦ c == b ]

abbrev pub is_seg_wit : Bytes → Bool
is_seg_wit buf = byte_is buf 4 0x00 && byte_is buf 5 0x01

-- One input: txid and vout, script, sequence.
unfoldable pub skip_input : Bytes → ℕ → Option ℕ
skip_input buf cursor = do
  (script_len, sl) ← read_var_int buf (cursor + 36)
  some (cursor + 36 + (sl + script_len + 4))

-- One output: amount and script.
unfoldable pub skip_output : Bytes → ℕ → Option ℕ
skip_output buf cursor = do
  (script_len, sl) ← read_var_int buf (cursor + 8)
  some (cursor + 8 + (sl + script_len))

-- One item of a witness.
unfoldable pub skip_item : Bytes → ℕ → Option ℕ
skip_item buf cursor = do
  (item_len, il_size) ← read_var_int buf cursor
  some (cursor + (il_size + item_len))

-- The witness of one input.
unfoldable pub skip_witness : Bytes → ℕ → Option ℕ
skip_witness buf cursor = do
  (item_count, wic_size) ← read_var_int buf cursor
  repeat item_count (skip_item buf) (cursor + wic_size)

-- `stripWitnessData` behind its test for marker and flag.
unfoldable pub strip_seg_wit : Bytes → Option Bytes
strip_seg_wit buf = do
  (input_count, in_count_size) ← read_var_int buf 6
  outputs_start ← repeat input_count (skip_input buf) (6 + in_count_size)
  (output_count, out_count_size) ← read_var_int buf outputs_start
  outputs_end ← repeat output_count (skip_output buf) (outputs_start + out_count_size)
  witness_end ← repeat input_count (skip_witness buf) outputs_end
  some (
      slice 0 4 buf
      ++ (slice 6 (6 + in_count_size) buf
          ++ (slice (6 + in_count_size) outputs_start buf
              ++ (slice outputs_start outputs_end buf ++ slice witness_end (witness_end + 4) buf))))

-- `stripWitnessData` on the bytes.
unfoldable pub strip_witness_data : Bytes → Option Bytes
unfolding strip_seg_wit
strip_witness_data buf = if not (is_seg_wit buf) then some buf else strip_seg_wit buf

-- How the search for the output that pays the vault ends: its index and amount, the error that there
-- is none, or a read out of range.
pub data Search : Type 0 where
  found : ℕ → ℕ → Search
  no_output out_of_range : Search

-- One round of the loop over the outputs: the amount, the script, and the next cursor.
unfoldable pub read_output : Bytes → ℕ → Option (ℕ × Bytes × ℕ)
read_output buf cursor = do
  amount_sats ← read_le 8 buf cursor
  (script_len, sl) ← read_var_int buf (cursor + 8)
  let start = cursor + 8 + sl
  some (amount_sats, slice start (start + script_len) buf, start + script_len)

-- The loop over the outputs, by the number of rounds left.
unfoldable pub scan_outputs : ℕ → ℕ → JsString → Bytes → ℕ → Search
unfolding read_output
scan_outputs zero vout script_hex buf cursor = no_output
scan_outputs (suc n) vout script_hex buf cursor = elim (read_output buf cursor) [
  | none ↦ out_of_range
  | some (amount, script, next) ↦
      let rest = scan_outputs n (vout + 1) script_hex buf next in
      if to_hex script === script_hex then found vout amount else rest
]

-- `findVaultOutput` from the number of inputs on.
unfoldable pub find_from : ℕ → Bytes → JsString → Option Search
find_from start buf script_hex = do
  (input_count, in_sz) ← read_var_int buf start
  cursor ← repeat input_count (skip_input buf) (start + in_sz)
  (output_count, out_sz) ← read_var_int buf cursor
  some (scan_outputs output_count 0 script_hex buf (cursor + out_sz))

abbrev pub search_result : Option Search → Search
search_result none = out_of_range
search_result (some r) = r

-- `findVaultOutput`
unfoldable pub find_vault_output : Bytes → JsString → Search
unfolding find_from
find_vault_output buf script_hex =
    search_result (find_from (if is_seg_wit buf then 6 else 4) buf script_hex)
