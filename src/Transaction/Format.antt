-- ===== src/Transaction/Format.antt =====
-- The serialisation of a transaction, as an independent description of what the parser reads: with and
-- without witness data.
use starknet.Common.{ℕ, ◌^◌, ◌<◌, ◌≡◌, List, ◌∷◌, ◌++◌, length, All}
use starknet.Bytes.{Bytes, le_bytes, vi, encode_all, encode_witness_stack}

pub record Input : Type 0 where
  pub outpoint : Bytes
  pub script : Bytes
  pub sequence : Bytes

pub record Output : Type 0 where
  pub amount : ℕ
  pub script : Bytes

pub record Tx : Type 0 where
  pub version : Bytes
  pub inputs : List Input
  pub outputs : List Output
  pub witness : List (List Bytes)
  pub locktime : Bytes

abbrev pub encode_input : Input → Bytes
encode_input i = i.outpoint ++ (vi (length i.script) ++ (i.script ++ i.sequence))

abbrev pub encode_output : Output → Bytes
encode_output o = le_bytes 8 o.amount ++ (vi (length o.script) ++ o.script)

-- Without witness data: the bytes that the txid is the hash of.
unfoldable pub legacy : Tx → Bytes
legacy t =
    t.version
    ++ (vi (length t.inputs)
        ++ (encode_all encode_input t.inputs
            ++ ((vi (length t.outputs) ++ encode_all encode_output t.outputs) ++ t.locktime)))

-- With marker, flag and witness data.
unfoldable pub seg_wit : Tx → Bytes
seg_wit t =
    t.version
    ++ (0x00
        ∷ 0x01
        ∷ (vi (length t.inputs)
            ++ (encode_all encode_input t.inputs
                ++ (vi (length t.outputs)
                    ++ (encode_all encode_output t.outputs
                        ++ (encode_all encode_witness_stack t.witness ++ t.locktime))))))

abbrev pub Sized {ℓ} : {A : Type ℓ} → List A → Type 0
Sized xs = length xs < 2 ^ 64

pub record IsInput (i : Input) : Type 0 where
  pub outpoint_size : length i.outpoint ≡ 36
  pub sequence_size : length i.sequence ≡ 4
  pub script_size : Sized i.script

pub record IsOutput (o : Output) : Type 0 where
  pub amount_bound : o.amount < 2 ^ 53
  pub script_size : Sized o.script

abbrev pub IsWitness : List Bytes → Type 0
IsWitness items = Sized items × All Sized items

pub record IsTx (t : Tx) : Type 0 where
  pub version_size : length t.version ≡ 4
  pub locktime_size : length t.locktime ≡ 4
  pub input_count : Sized t.inputs
  pub output_count : Sized t.outputs
  pub each_input : All IsInput t.inputs
  pub each_output : All IsOutput t.outputs
  pub one_witness_each : length t.witness ≡ length t.inputs
  pub each_witness : All IsWitness t.witness
