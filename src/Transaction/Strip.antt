-- ===== src/Transaction/Strip.antt =====
-- Removing the witness data of a serialised transaction leaves the bytes that its txid is computed
-- from (backend/src/services/BitcoinProofService.ts).
use starknet.Common.{
  ℕ, ◌+◌, ◌≡◌, refl, subst, true, some, [], ◌∷◌, ◌++◌, length, All-map, arith, length-append,
}
use mathlib.Core.List.{append_assoc, append-nil}
use starknet.Bytes.{Bytes, slice, read_var_int, vi, encode_all, encode_witness_stack}
use starknet.Transaction.{
  repeat, skip_input, skip_output, skip_witness, strip_witness_data, strip_seg_wit, is_seg_wit,
}
use starknet.Transaction.Format.{
  Tx, encode_input, encode_output, legacy, seg_wit, IsInput, IsOutput, IsWitness, IsTx,
}
use starknet.Transaction.Passes.{
  Passes, read_at, repeat-encode_all, input-Passes, output-Passes, witness-Passes, slice_at,
}

-- The parts of a serialised transaction, and the cursors behind them.
abbrev pub head : Tx → Bytes
head t = t.version ++ 0x00 ∷ 0x01 ∷ []

abbrev pub count_in : Tx → Bytes
count_in t = vi (length t.inputs)

abbrev pub ins : Tx → Bytes
ins t = encode_all encode_input t.inputs

abbrev pub count_out : Tx → Bytes
count_out t = vi (length t.outputs)

abbrev pub outs : Tx → Bytes
outs t = encode_all encode_output t.outputs

abbrev pub witnesses : Tx → Bytes
witnesses t = encode_all encode_witness_stack t.witness

abbrev pub after_ins : Tx → ℕ
after_ins t = 6 + length (count_in t) + length (ins t)

abbrev pub after_outs : Tx → ℕ
after_outs t = after_ins t + length (count_out t) + length (outs t)

abbrev pub after_witnesses : Tx → ℕ
after_witnesses t = after_outs t + length (witnesses t)

-- Behind a version of four bytes stand marker and flag.
marked : (v rest : Bytes) → length v ≡ 4 → is_seg_wit (v ++ (0x00 ∷ 0x01 ∷ rest)) ≡ true
marked (a ∷ b ∷ c ∷ d ∷ []) rest e = refl
marked [] rest e = absurd (omega arith)
marked (a ∷ []) rest e = absurd (omega arith)
marked (a ∷ b ∷ []) rest e = absurd (omega arith)
marked (a ∷ b ∷ c ∷ []) rest e = absurd (omega arith)
marked (a ∷ b ∷ c ∷ d ∷ f ∷ v) rest e = absurd (omega arith)

pub marker : (t : Tx) → IsTx t → is_seg_wit (seg_wit t) ≡ true
unfolding seg_wit
marker t h = marked t.version _ h.version_size

module _ (t : Tx) (h : IsTx t) where
  abbrev pub buf : Bytes
  buf = seg_wit t

  length-head : length (head t) ≡ 6
  length-head = omega (arith, length-append t.version (0x00 ∷ 0x01 ∷ []), h.version_size)

  pub reads_inputs : read_var_int buf 6 ≡ some (length t.inputs, length (count_in t))
  unfolding seg_wit
  reads_inputs =
      subst (λ b. read_var_int b 6 ≡ some (length t.inputs, length (count_in t)))
        (simp append_assoc)
        (read_at (length t.inputs) (head t)
          (ins t ++ (count_out t ++ (outs t ++ (witnesses t ++ t.locktime)))) 6 h.input_count
          length-head)

  pub skips_inputs :
      repeat (length t.inputs) (skip_input buf) (6 + length (count_in t)) ≡ some (after_ins t)
  unfolding seg_wit
  skips_inputs =
      repeat-encode_all encode_input skip_input t.inputs
        (All-map IsInput (Passes encode_input skip_input) input-Passes t.inputs h.each_input) buf
        (head t ++ count_in t) (count_out t ++ (outs t ++ (witnesses t ++ t.locktime)))
        (6 + length (count_in t)) (simp append_assoc)
        (omega (arith, length-head, length-append (head t) (count_in t)))

  abbrev pub to_ins : Bytes
  to_ins = (head t ++ count_in t) ++ ins t

  pub length-to_ins : length to_ins ≡ after_ins t
  length-to_ins = omega (
    arith,
    length-head,
    length-append (head t) (count_in t),
    length-append (head t ++ count_in t) (ins t),
  )

  pub reads_outputs : read_var_int buf (after_ins t) ≡ some (length t.outputs, length (count_out t))
  unfolding seg_wit
  reads_outputs =
      subst (λ b. read_var_int b (after_ins t) ≡ some (length t.outputs, length (count_out t)))
        (simp append_assoc)
        (read_at (length t.outputs) to_ins (outs t ++ (witnesses t ++ t.locktime)) (after_ins t)
          h.output_count length-to_ins)

  -- The outputs stand behind their number, with the witness data behind them.
  pub outs_layout : buf ≡ (to_ins ++ count_out t) ++ (outs t ++ (witnesses t ++ t.locktime))
  unfolding seg_wit
  outs_layout = simp append_assoc

  skips_outputs :
      repeat (length t.outputs) (skip_output buf) (after_ins t + length (count_out t))
      ≡ some (after_outs t)
  skips_outputs =
      repeat-encode_all encode_output skip_output t.outputs
        (All-map IsOutput (Passes encode_output skip_output) output-Passes t.outputs h.each_output)
        buf (to_ins ++ count_out t) (witnesses t ++ t.locktime) (after_ins t + length (count_out t))
        outs_layout (omega (arith, length-to_ins, length-append to_ins (count_out t)))

  abbrev to_outs : Bytes
  to_outs = (to_ins ++ count_out t) ++ outs t

  length-to_outs : length to_outs ≡ after_outs t
  length-to_outs = omega (
    arith,
    length-to_ins,
    length-append to_ins (count_out t),
    length-append (to_ins ++ count_out t) (outs t),
  )

  skips_witnesses :
      repeat (length t.inputs) (skip_witness buf) (after_outs t) ≡ some (after_witnesses t)
  unfolding seg_wit
  skips_witnesses =
      subst (λ n. repeat n (skip_witness buf) (after_outs t) ≡ some (after_witnesses t))
        h.one_witness_each
        (repeat-encode_all encode_witness_stack skip_witness t.witness
          (All-map IsWitness (Passes encode_witness_stack skip_witness) witness-Passes t.witness
            h.each_witness)
          buf to_outs t.locktime (after_outs t) (simp append_assoc) length-to_outs)

  version_slice : slice 0 4 buf ≡ t.version
  unfolding seg_wit
  version_slice = slice_at 0 4 [] t.version _ refl (omega (arith, h.version_size))

  count_slice : slice 6 (6 + length (count_in t)) buf ≡ count_in t
  unfolding seg_wit
  count_slice =
      subst (λ b. slice 6 (6 + length (count_in t)) b ≡ count_in t)
        {x = head t
          ++ (count_in t ++ (ins t ++ (count_out t ++ (outs t ++ (witnesses t ++ t.locktime)))))}
        {y = buf} (simp append_assoc)
        (slice_at 6 (6 + length (count_in t)) (head t) (count_in t)
          (ins t ++ (count_out t ++ (outs t ++ (witnesses t ++ t.locktime)))) length-head refl)

  ins-slice : slice (6 + length (count_in t)) (after_ins t) buf ≡ ins t
  unfolding seg_wit
  ins-slice =
      subst (λ b. slice (6 + length (count_in t)) (after_ins t) b ≡ ins t)
        {x = (head t ++ count_in t)
          ++ (ins t ++ (count_out t ++ (outs t ++ (witnesses t ++ t.locktime))))}
        {y = buf} (simp append_assoc)
        (slice_at (6 + length (count_in t)) (after_ins t) (head t ++ count_in t) (ins t)
          (count_out t ++ (outs t ++ (witnesses t ++ t.locktime)))
          (omega (arith, length-head, length-append (head t) (count_in t))) refl)

  outs-slice : slice (after_ins t) (after_outs t) buf ≡ count_out t ++ outs t
  unfolding seg_wit
  outs-slice =
      subst (λ b. slice (after_ins t) (after_outs t) b ≡ count_out t ++ outs t)
        {x = to_ins ++ ((count_out t ++ outs t) ++ (witnesses t ++ t.locktime))} {y = buf}
        (simp append_assoc)
        (slice_at (after_ins t) (after_outs t) to_ins (count_out t ++ outs t)
          (witnesses t ++ t.locktime) length-to_ins
          (omega (arith, length-append (count_out t) (outs t))))

  locktime_slice : slice (after_witnesses t) (after_witnesses t + 4) buf ≡ t.locktime
  unfolding seg_wit
  locktime_slice =
      subst (λ b. slice (after_witnesses t) (after_witnesses t + 4) b ≡ t.locktime)
        {x = (to_outs ++ witnesses t) ++ (t.locktime ++ [])} {y = buf}
        (simp (append_assoc, append-nil))
        (slice_at (after_witnesses t) (after_witnesses t + 4) (to_outs ++ witnesses t) t.locktime []
          (omega (arith, length-to_outs, length-append to_outs (witnesses t)))
          (omega (arith, h.locktime_size)))

  strip_seg_wit_lem : strip_seg_wit buf ≡ some (legacy t)
  unfolding strip_seg_wit legacy
  strip_seg_wit_lem = rw (
    reads_inputs, skips_inputs, reads_outputs, skips_outputs, skips_witnesses, version_slice,
    count_slice, ins-slice, outs-slice, locktime_slice,
  )

-- A serialised transaction with witness data loses exactly marker, flag and witness data: what is left
-- is its serialisation without them.
pub strip-seg_wit : (t : Tx) → IsTx t → strip_witness_data (seg_wit t) ≡ some (legacy t)
unfolding strip_witness_data
strip-seg_wit t h = rw (marker t h) (strip_seg_wit_lem t h)
