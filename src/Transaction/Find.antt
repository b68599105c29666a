-- ===== src/Transaction/Find.antt =====
-- Searching a serialised transaction for the output that pays the vault finds the first one with its
-- script (backend/src/services/BitcoinProofService.ts).
use starknet.Common.{
  ℕ, ◌+◌, ◌≡◌, refl, subst, ◌∙◌, some, List, [], ◌∷◌, ◌++◌, JsString, ◌===◌, length, All, arith,
  length-append, if◌then◌else◌,
}
use mathlib.Core.List.{append_assoc}
use starknet.Bytes.{Bytes, slice, read_var_int, read_le, vi, le_bytes, encode_all}
use starknet.Bytes.Laws.{read_le-bytes, length-le_bytes}
use starknet.Transaction.{find_vault_output, scan_outputs, read_output, Search, found, no_output}
use starknet.Transaction.Hex.{to_hex}
use starknet.Transaction.Format.{Output, Tx, encode_output, seg_wit, IsOutput, IsTx}
use starknet.Transaction.Passes.{read_at, slice_at}
use starknet.Transaction.Strip.{
  marker, reads_inputs, skips_inputs, reads_outputs, count_out, after_ins, witnesses, to_ins,
  length-to_ins, outs_layout,
}

-- The first output whose script reads like the given text, with its index counted from `k`.
unfoldable pub first_output : ℕ → JsString → List Output → Search
first_output k script_hex [] = no_output
first_output k script_hex (o ∷ os) =
    if to_hex o.script === script_hex then found k o.amount else first_output (k + 1) script_hex os

-- Where an output was written, its amount and script are read.
read_output-encode :
    (o : Output)
    → IsOutput o
    → (pre rest : Bytes) (cursor : ℕ) → length pre ≡ cursor
    → read_output (pre ++ (encode_output o ++ rest)) cursor
      ≡ some (o.amount, o.script, cursor + length (encode_output o))
unfolding read_output
read_output-encode o h pre rest cursor e =
    let n = length o.script in
    let buf = pre ++ (encode_output o ++ rest) in
    let to_count = pre ++ le_bytes 8 o.amount in
    let to_script = to_count ++ vi n in
    let amount : read_le 8 buf cursor ≡ some o.amount =
      subst (λ b. read_le 8 b cursor ≡ some o.amount)
        {x = pre ++ (le_bytes 8 o.amount ++ ((vi n ++ o.script) ++ rest))} {y = buf}
        (simp append_assoc)
        (read_le-bytes 8 o.amount pre ((vi n ++ o.script) ++ rest) cursor
          (omega (arith, h.amount_bound)) e) in
    let count : read_var_int buf (cursor + 8) ≡ some (n, length (vi n)) =
      subst (λ b. read_var_int b (cursor + 8) ≡ some (n, length (vi n)))
        {x = to_count ++ (vi n ++ (o.script ++ rest))} {y = buf} (simp append_assoc)
        (read_at n to_count (o.script ++ rest) (cursor + 8) h.script_size
          (omega (arith, length-append pre (le_bytes 8 o.amount), length-le_bytes 8 o.amount))) in
    let script : slice (cursor + 8 + length (vi n)) (cursor + 8 + length (vi n) + n) buf
        ≡ o.script =
      subst (λ b. slice (cursor + 8 + length (vi n)) (cursor + 8 + length (vi n) + n) b ≡ o.script)
        {x = to_script ++ (o.script ++ rest)} {y = buf} (simp append_assoc)
        (slice_at (cursor + 8 + length (vi n)) (cursor + 8 + length (vi n) + n) to_script o.script
          rest
          (omega (
            arith,
            length-append pre (le_bytes 8 o.amount),
            length-le_bytes 8 o.amount,
            length-append to_count (vi n),
          ))
          refl) in
    let total : cursor + 8 + length (vi n) + n ≡ cursor + length (encode_output o) = omega (
      arith,
      length-le_bytes 8 o.amount,
      length-append (le_bytes 8 o.amount) (vi n ++ o.script),
      length-append (vi n) o.script,
    ) in
    rw (amount, count, script, total)

scan_outputs-encode_all :
    (os : List Output)
    → All IsOutput os
    → (k : ℕ) (script_hex : JsString) (buf pre rest : Bytes) (cursor : ℕ)
    → buf ≡ pre ++ (encode_all encode_output os ++ rest)
    → length pre ≡ cursor
    → scan_outputs (length os) k script_hex buf cursor ≡ first_output k script_hex os
unfolding scan_outputs first_output
scan_outputs-encode_all [] h k script_hex buf pre rest cursor e l = refl
scan_outputs-encode_all (o ∷ os) h k script_hex buf pre rest cursor e l =
    let first : read_output buf cursor
        ≡ some (o.amount, o.script, cursor + length (encode_output o)) =
      rw (e, append_assoc (encode_output o) (encode_all encode_output os) rest)
        (read_output-encode o h.0 pre (encode_all encode_output os ++ rest) cursor l) in
    let later =
      scan_outputs-encode_all os h.1 (k + 1) script_hex buf (pre ++ encode_output o) rest
        (cursor + length (encode_output o)) (e ∙ simp append_assoc)
        (omega (arith, length-append pre (encode_output o))) in
    ground (arith, first, later)

-- In a serialised transaction with witness data the search finds the first output with the script, its
-- index and its amount, and reports that there is none exactly when no output has it.
pub find-seg_wit :
    (t : Tx) (script_hex : JsString)
    → IsTx t
    → find_vault_output (seg_wit t) script_hex ≡ first_output 0 script_hex t.outputs
unfolding find_vault_output
find-seg_wit t script_hex h =
    rw (marker t h, reads_inputs t h, skips_inputs t h, reads_outputs t h) (scanned)
  where
    scanned :
        scan_outputs
          (length t.outputs)
          0
          script_hex
          (seg_wit t)
          (after_ins t + length (count_out t))
        ≡ first_output 0 script_hex t.outputs
    scanned =
        scan_outputs-encode_all t.outputs h.each_output 0 script_hex (seg_wit t)
          (to_ins t h ++ count_out t) (witnesses t ++ t.locktime)
          (after_ins t + length (count_out t)) (outs_layout t h)
          (omega (arith, length-to_ins t h, length-append (to_ins t h) (count_out t)))
