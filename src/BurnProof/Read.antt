-- ===== src/BurnProof/Read.antt =====
-- Reading the 112 bytes of a burn proof (backend/src/services/StarknetProofService.ts) as the comments of
-- serializeProofData describe them.
use starknet.BurnProof.{
  StarknetBurnProof, SerializedProof, hash_bytes, address_to_script_hash, proof_buffer,
  serialize_proof_data, split_into_chunks,
}
use starknet.BurnProof.Layout.{
  slot, zeros, length-slot, encoded, length-encoded, length-script_hash, proof_buffer-encoded,
}
use starknet.BurnProof.Chunks.{one_chunk}
use starknet.Bytes.{Bytes, slice, le_bytes, read_le}
use starknet.Bytes.Laws.{length-le_bytes, read_le-bytes, take_of_length, drop_of_length}
use starknet.Transaction.{◌>>=◌}
use starknet.Transaction.Hex.{IsByte, to_hex, from_hex-to_hex}
use starknet.Common.{
  ℕ, ◌-◌, ◌^◌, ◌≤◌, ◌<◌, ◌≡◌, refl, ap, ◌∙◌, Option, some, [], ◌∷◌, ◌++◌, JsString, codes, length,
  pad_start, starts_with, All, arith, length-append,
}
use mathlib.Core.List.{append_assoc, append-nil}

pub record Fields : Type 0 where
  pub hash : Bytes
  pub amount : ℕ
  pub nullifier : Bytes
  pub recipient : Bytes
  pub block_number : ℕ

-- Bytes 0-31, 32-39, 40-71, 72-91 and 92-99
abbrev pub read_proof : Bytes → Option Fields
read_proof b = do
  amount ← read_le 8 b 32
  block ← read_le 8 b 92
  some (record {
    hash = slice 0 32 b;
    amount = amount;
    nullifier = slice 40 72 b;
    recipient = slice 72 92 b;
    block_number = block;
  })

-- A text of up to 64 digits behind `0x`, and the 32 bytes that it stands for, with leading zeros.
pub record Spells (s : JsString) (h : Bytes) : Type 0 where
  pub digits : JsString
  pub marked : s ≡ codes "0x" ++ digits
  pub padded : pad_start 64 48 digits ≡ to_hex h
  pub size : length h ≡ 32
  pub of_bytes : All IsByte h

hash_bytes_lem : (s : JsString) (h : Bytes) → Spells s h → hash_bytes s ≡ h
unfolding hash_bytes starts_with
hash_bytes_lem s h k = rw (k.marked, k.padded, from_hex-to_hex h k.of_bytes, hash_bytes)

slice_at :
    (pre s rest : Bytes) (o e : ℕ)
    → length pre ≡ o
    → length s ≡ e - o
    → slice o e (pre ++ (s ++ rest)) ≡ s
slice_at pre s rest o e h k =
    rw (drop_of_length o pre (s ++ rest) h, take_of_length (e - o) s rest k)

slot_full : (w : ℕ) (s : Bytes) → length s ≡ w → slot w s ≡ s
slot_full w s h = let none_left : w - length s ≡ 0 = omega arith in rw (none_left, append-nil s)

module _ (h n r : Bytes) (amount block : ℕ) (lh : length h ≡ 32) (ln : length n ≡ 32)
    (lr : length r ≤ 20) (ha : amount < 2 ^ 64) (hb : block < 2 ^ 64) where
  abbrev a : Bytes
  a = le_bytes 8 amount

  abbrev b : Bytes
  b = le_bytes 8 block

  abbrev r' : Bytes
  r' = slot 20 r

  plain_lem : encoded h amount n r block ≡ ((((h ++ a) ++ n) ++ r') ++ b) ++ zeros 12
  plain_lem = rw (
    slot_full 32 h lh,
    slot_full 32 n ln,
    slot_full 8 a (length-le_bytes 8 amount),
    slot_full 8 b (length-le_bytes 8 block),
  )

  at_block : encoded h amount n r block ≡ (((h ++ a) ++ n) ++ r') ++ (b ++ zeros 12)
  at_block = plain_lem ∙ append_assoc (((h ++ a) ++ n) ++ r') b (zeros 12)

  at_recipient : encoded h amount n r block ≡ ((h ++ a) ++ n) ++ (r' ++ (b ++ zeros 12))
  at_recipient = at_block ∙ append_assoc ((h ++ a) ++ n) r' (b ++ zeros 12)

  at_nullifier : encoded h amount n r block ≡ (h ++ a) ++ (n ++ (r' ++ (b ++ zeros 12)))
  at_nullifier = at_recipient ∙ append_assoc (h ++ a) n (r' ++ (b ++ zeros 12))

  at_amount : encoded h amount n r block ≡ h ++ (a ++ (n ++ (r' ++ (b ++ zeros 12))))
  at_amount = at_nullifier ∙ append_assoc h a (n ++ (r' ++ (b ++ zeros 12)))

  length-upto_amount : length (h ++ a) ≡ 40
  length-upto_amount = omega (arith, length-append h a, length-le_bytes 8 amount)

  length-upto_nullifier : length ((h ++ a) ++ n) ≡ 72
  length-upto_nullifier = omega (arith, length-append (h ++ a) n, length-upto_amount)

  length-upto_recipient : length (((h ++ a) ++ n) ++ r') ≡ 92
  length-upto_recipient =
      omega (arith, length-append ((h ++ a) ++ n) r', length-upto_nullifier, length-slot 20 r lr)

  read_proof-encoded :
      read_proof (encoded h amount n r block)
      ≡ some (record {
        hash = h;
        amount = amount;
        nullifier = n;
        recipient = r';
        block_number = block;
      })
  read_proof-encoded =
      let e = encoded h amount n r block in
      let q1 : read_le 8 e 32 ≡ some amount =
        ap (λ t. read_le 8 t 32) at_amount
        ∙ read_le-bytes 8 amount h (n ++ (r' ++ (b ++ zeros 12))) 32 (omega arith) lh in
      let q2 : read_le 8 e 92 ≡ some block =
        ap (λ t. read_le 8 t 92) at_block
        ∙ read_le-bytes 8 block (((h ++ a) ++ n) ++ r') (zeros 12) 92 (omega arith)
            length-upto_recipient in
      let q3 : slice 0 32 e ≡ h =
        ap (slice 0 32) at_amount
        ∙ slice_at [] h (a ++ (n ++ (r' ++ (b ++ zeros 12)))) 0 32 refl lh in
      let q4 : slice 40 72 e ≡ n =
        ap (slice 40 72) at_nullifier
        ∙ slice_at (h ++ a) n (r' ++ (b ++ zeros 12)) 40 72 length-upto_amount ln in
      let q5 : slice 72 92 e ≡ r' =
        ap (slice 72 92) at_recipient
        ∙ slice_at ((h ++ a) ++ n) r' (b ++ zeros 12) 72 92 length-upto_nullifier
            (length-slot 20 r lr) in
      rw (q1, q2, q3, q4, q5, read_proof) refl

-- What serializeProofData writes is read back, in one chunk of 112 bytes, provided that the texts of hash and
-- nullifier stand for 32 bytes, and amount and block number fit eight: the place of the recipient holds
-- what addressToScriptHash makes of the address, filled up with zeros.
pub read_proof-serialize_proof_data :
    (p : StarknetBurnProof) (h n : Bytes)
    → Spells p.tx_hash h
    → Spells p.nullifier n
    → p.amount < 2 ^ 64
    → p.block_number < 2 ^ 64
    → (x : SerializedProof) × (serialize_proof_data p ≡ some x)
      × (length x.buffer ≡ 112)
      × (x.chunks ≡ x.buffer ∷ [])
      × (read_proof x.buffer
          ≡ some (record {
            hash = h;
            amount = p.amount;
            nullifier = n;
            recipient = slot 20 (address_to_script_hash p.recipient_btc);
            block_number = p.block_number;
          }))
unfolding serialize_proof_data
read_proof-serialize_proof_data p h n sh sn ha hb =
    let eh = hash_bytes_lem p.tx_hash h sh in
    let en = hash_bytes_lem p.nullifier n sn in
    let r = address_to_script_hash p.recipient_btc in
    let lr = length-script_hash p.recipient_btc in
    let e = encoded h p.amount n r p.block_number in
    let le : length e ≡ 112 =
      length-encoded h n r p.amount p.block_number (omega (arith, sh.size)) (omega (arith, sn.size))
        lr in
    let one : split_into_chunks 420 e ≡ e ∷ [] =
      one_chunk 420 e (omega (arith, le)) (omega (arith, le)) in
    let written : proof_buffer p ≡ some e =
      proof_buffer-encoded p (omega (arith, ap length eh, sh.size))
        (omega (arith, ap length en, sn.size)) ha hb
      ∙ rw (eh, en) refl in
    (
      record { buffer = e; chunks = split_into_chunks 420 e },
      rw (written, serialize_proof_data) refl,
      le,
      one,
      read_proof-encoded h n r p.amount p.block_number sh.size sn.size lr ha hb,
    )
