-- ===== src/Transaction/Passes.antt =====
-- The steps of the parser pass over what the serialisation writes
-- (backend/src/services/BitcoinProofService.ts).
use starknet.Common.{
  All-map, ℕ, ◌+◌, ◌-◌, ◌^◌, ◌<◌, ◌≡◌, refl, subst, ap, ◌∙◌, Option, some, List, [], ◌∷◌, ◌++◌,
  length, All, arith, length-append,
}
use mathlib.Core.List.{append_assoc}
use starknet.Bytes.{
  Bytes, slice, read_var_int, vi, le_bytes, encode_all, encode_item, encode_witness_stack,
}
use starknet.Bytes.Laws.{read_var_int-vi, length-le_bytes, drop_of_length, take_of_length}
use starknet.Transaction.{repeat, skip_input, skip_output, skip_item, skip_witness}
use starknet.Transaction.Format.{
  Input, Output, encode_input, encode_output, Sized, IsInput, IsOutput, IsWitness,
}

-- Reading a number where one was written, at a cursor given by its value.
pub read_at :
    (n : ℕ) (pre rest : Bytes) (cursor : ℕ)
    → n < 2 ^ 64
    → length pre ≡ cursor
    → read_var_int (pre ++ (vi n ++ rest)) cursor ≡ some (n, length (vi n))
read_at n pre rest cursor h e =
    subst (λ c. read_var_int (pre ++ (vi n ++ rest)) c ≡ some (n, length (vi n))) e
      (read_var_int-vi n pre rest h)

-- A step passes over what an encoder writes: from the end of any prefix to the end of the element.
abbrev pub Passes {ℓ} : {A : Type ℓ} → (A → Bytes) → (Bytes → ℕ → Option ℕ) → A → Type 0
Passes enc step a =
    (pre rest : Bytes)
    → step (pre ++ (enc a ++ rest)) (length pre) ≡ some (length pre + length (enc a))

-- A loop of such steps passes over all elements.
pub repeat-encode_all {ℓ} :
    {A : Type ℓ} (enc : A → Bytes) (step : Bytes → ℕ → Option ℕ) (xs : List A)
    → All (Passes enc step) xs
    → (buf pre rest : Bytes) (cursor : ℕ) → buf ≡ pre ++ (encode_all enc xs ++ rest)
    → length pre ≡ cursor
    → repeat (length xs) (step buf) cursor ≡ some (cursor + length (encode_all enc xs))
unfolding repeat
repeat-encode_all enc step [] h buf pre rest cursor e l = ap some (omega arith)
repeat-encode_all enc step (x ∷ xs) h buf pre rest cursor e l =
    let tail_of = encode_all enc xs in
    let first : step buf cursor ≡ some (cursor + length (enc x)) =
      rw (e, ← l, append_assoc (enc x) tail_of rest) (h.0 pre (tail_of ++ rest)) in
    rw first (
      repeat-encode_all enc step xs h.1 buf (pre ++ enc x) rest (cursor + length (enc x))
        (e ∙ simp append_assoc) (omega (arith, length-append pre (enc x)))
      ∙ ap some (omega (arith, length-append (enc x) tail_of)))

pub input-Passes : (i : Input) → IsInput i → Passes encode_input skip_input i
unfolding skip_input
input-Passes i h pre rest =
    let n = length i.script in
    let regroup : pre ++ (encode_input i ++ rest)
        ≡ (pre ++ i.outpoint) ++ (vi n ++ ((i.script ++ i.sequence) ++ rest)) =
      simp append_assoc in
    let at_script =
      read_at n (pre ++ i.outpoint) ((i.script ++ i.sequence) ++ rest) (length pre + 36)
        h.script_size (omega (arith, length-append pre i.outpoint, h.outpoint_size)) in
    rw (regroup, at_script)
      (ap some (
        omega (
          arith,
          h.outpoint_size,
          h.sequence_size,
          length-append i.outpoint (vi n ++ (i.script ++ i.sequence)),
          length-append (vi n) (i.script ++ i.sequence),
          length-append i.script i.sequence,
        )))

pub output-Passes : (o : Output) → IsOutput o → Passes encode_output skip_output o
unfolding skip_output
output-Passes o h pre rest =
    let n = length o.script in
    let regroup : pre ++ (encode_output o ++ rest)
        ≡ (pre ++ le_bytes 8 o.amount) ++ (vi n ++ (o.script ++ rest)) =
      simp append_assoc in
    let at_script =
      read_at n (pre ++ le_bytes 8 o.amount) (o.script ++ rest) (length pre + 8) h.script_size
        (omega (arith, length-append pre (le_bytes 8 o.amount), length-le_bytes 8 o.amount)) in
    rw (regroup, at_script)
      (ap some (
        omega (
          arith,
          length-le_bytes 8 o.amount,
          length-append (le_bytes 8 o.amount) (vi n ++ o.script),
          length-append (vi n) o.script,
        )))

pub item-Passes : (w : Bytes) → Sized w → Passes encode_item skip_item w
unfolding skip_item
item-Passes w h pre rest =
    let n = length w in
    let regroup : pre ++ (encode_item w ++ rest) ≡ pre ++ (vi n ++ (w ++ rest)) =
      simp append_assoc in
    rw (regroup, read_at n pre (w ++ rest) (length pre) h refl)
      (ap some (omega (arith, length-append (vi n) w)))

pub witness-Passes : (ws : List Bytes) → IsWitness ws → Passes encode_witness_stack skip_witness ws
unfolding skip_witness encode_witness_stack
witness-Passes ws h pre rest =
    let n = length ws in
    let items = encode_all encode_item ws in
    let buf = pre ++ (encode_witness_stack ws ++ rest) in
    let direct : buf ≡ pre ++ (vi n ++ (items ++ rest)) = simp append_assoc in
    let count : read_var_int buf (length pre) ≡ some (n, length (vi n)) =
      rw direct (read_at n pre (items ++ rest) (length pre) h.0 refl) in
    rw count (
      repeat-encode_all encode_item skip_item ws
        (All-map Sized (Passes encode_item skip_item) item-Passes ws h.1) buf (pre ++ vi n) rest
        (length pre + length (vi n)) (simp append_assoc) (length-append pre (vi n))
      ∙ ap some (omega (arith, length-append (vi n) items)))

-- A slice that begins behind a prefix.
pub slice_at :
    (from to : ℕ) (pre mid rest : Bytes)
    → length pre ≡ from
    → to ≡ from + length mid
    → slice from to (pre ++ (mid ++ rest)) ≡ mid
slice_at from to pre mid rest h e =
    rw (drop_of_length from pre (mid ++ rest) h) (take_of_length (to - from) mid rest (omega arith))
