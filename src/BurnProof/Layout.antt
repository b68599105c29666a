-- ===== src/BurnProof/Layout.antt =====
-- The 112 bytes of a burn proof (backend/src/services/StarknetProofService.ts), after the comments of
-- serializeProofData: hash, amount, nullifier, recipient, block number and a reserved rest.
use starknet.BurnProof.{
  StarknetBurnProof, copy, write_le, hash_bytes, decode_bech32, address_to_script_hash,
  proof_buffer,
}
use starknet.Bytes.{Bytes, le_bytes}
use starknet.Bytes.Laws.{length-le_bytes, take_of_length}
use starknet.Common.{
  take_all, ℕ, zero, suc, ◌+◌, ◌-◌, ◌^◌, ◌≤◌, ◌<◌, ◌≡◌, refl, ap, ◌∙◌, some, [], ◌∷◌, ◌++◌,
  JsString, length, take, drop, replicate, arith, length-append, length-take, length-replicate,
}
use mathlib.Core.List.{append_assoc}

abbrev pub zeros : ℕ → Bytes
zeros n = replicate n 0

-- Bytes in a place of `w` bytes.
abbrev pub slot : ℕ → Bytes → Bytes
slot w s = s ++ zeros (w - length s)

pub length-slot : (w : ℕ) (s : Bytes) → length s ≤ w → length (slot w s) ≡ w
length-slot w s h =
    omega (arith, length-append s (zeros (w - length s)), length-replicate {A = ℕ} (w - length s) 0)

drop-zeros : (k n m : ℕ) → m ≡ n - k → drop k (zeros n) ≡ zeros m
drop-zeros zero n m h = ap zeros {x = n} {y = m} (omega arith)
drop-zeros (suc k) zero m h = ap zeros {x = 0} {y = m} (omega arith)
drop-zeros (suc k) (suc n) m h = drop-zeros k n m (omega arith)

zeros_add : (m n k : ℕ) → k ≡ m + n → zeros k ≡ zeros m ++ zeros n
zeros_add zero n k h = ap zeros (omega arith)
zeros_add (suc m) n zero h = absurd (omega arith)
zeros_add (suc m) n (suc k) h = ap (λ t. 0 ∷ t) (zeros_add m n k (omega arith))

drop_past : (pre rest : Bytes) (k o : ℕ) → o ≡ length pre + k → drop o (pre ++ rest) ≡ drop k rest
drop_past [] rest k o h = ap (λ m. drop m rest) (omega arith)
drop_past (b ∷ pre) rest k zero h = absurd (omega arith)
drop_past (b ∷ pre) rest k (suc o) h = drop_past pre rest k o (omega arith)

-- Bytes that are copied into the zeros behind a prefix.
fill :
    (pre s : Bytes) (o w n k : ℕ)
    → length pre ≡ o
    → length s ≤ w
    → k ≡ w + n
    → copy s o (pre ++ zeros k) ≡ (pre ++ slot w s) ++ zeros n
fill pre s o w n k e h q =
    let a : take o (pre ++ zeros k) ≡ pre = take_of_length o pre (zeros k) e in
    let size : length (pre ++ zeros k) ≡ o + k =
      omega (arith, length-append pre (zeros k), length-replicate {A = ℕ} k 0) in
    let b : take (length (pre ++ zeros k) - o) s ≡ s = take_all s _ (omega arith) in
    let c : drop (o + length s) (pre ++ zeros k) ≡ zeros (w - length s) ++ zeros n =
      drop_past pre (zeros k) (length s) (o + length s) (omega arith)
      ∙ drop-zeros (length s) k (k - length s) refl
      ∙ zeros_add (w - length s) n (k - length s) (omega arith) in
    rw (
      a,
      b,
      c,
      append_assoc pre (s ++ zeros (w - length s)) (zeros n),
      append_assoc s (zeros (w - length s)) (zeros n),
    )

-- The five fields and the reserved rest, each in its place.
abbrev pub encoded : Bytes → ℕ → Bytes → Bytes → ℕ → Bytes
encoded h amount n r block =
    ((((slot 32 h ++ slot 8 (le_bytes 8 amount)) ++ slot 32 n) ++ slot 20 r)
      ++ slot 8 (le_bytes 8 block))
    ++ zeros 12

length-prefix :
    (pre s : Bytes) (o w : ℕ) → length pre ≡ o → length s ≤ w → length (pre ++ slot w s) ≡ o + w
length-prefix pre s o w e h = omega (arith, length-append pre (slot w s), length-slot w s h)

pub length-encoded :
    (h n r : Bytes) (amount block : ℕ)
    → length h ≤ 32
    → length n ≤ 32
    → length r ≤ 20
    → length (encoded h amount n r block) ≡ 112
length-encoded h n r amount block lh ln lr = omega (
  arith,
  length-append
      ((((slot 32 h ++ slot 8 (le_bytes 8 amount)) ++ slot 32 n) ++ slot 20 r)
        ++ slot 8 (le_bytes 8 block))
      (zeros 12),
  length-prefix (((slot 32 h ++ slot 8 (le_bytes 8 amount)) ++ slot 32 n) ++ slot 20 r)
      (le_bytes 8 block) 92 8,
  length-prefix ((slot 32 h ++ slot 8 (le_bytes 8 amount)) ++ slot 32 n) r 72 20,
  length-prefix (slot 32 h ++ slot 8 (le_bytes 8 amount)) n 40 32,
  length-prefix (slot 32 h) (le_bytes 8 amount) 32 8,
  length-slot 32 h,
  length-le_bytes 8 amount,
  length-le_bytes 8 block,
)

pub write_le_lem :
    (v o : ℕ) (buffer : Bytes)
    → v < 2 ^ 64
    → write_le v o buffer ≡ some (copy (le_bytes 8 v) o buffer)
write_le_lem v o buffer h = ground arith

pub length-script_hash : (a : JsString) → length (address_to_script_hash a) ≤ 20
unfolding address_to_script_hash
length-script_hash a = omega (arith, length-take 20 (decode_bech32 a))

module _ (p : StarknetBurnProof) (lh : length (hash_bytes p.tx_hash) ≤ 32)
    (ln : length (hash_bytes p.nullifier) ≤ 32) where
  abbrev first : Bytes
  first = slot 32 (hash_bytes p.tx_hash)

  abbrev second : Bytes
  second = first ++ slot 8 (le_bytes 8 p.amount)

  abbrev third : Bytes
  third = second ++ slot 32 (hash_bytes p.nullifier)

  abbrev fourth : Bytes
  fourth = third ++ slot 20 (address_to_script_hash p.recipient_btc)

  length-first : length first ≡ 32
  length-first = length-slot 32 (hash_bytes p.tx_hash) lh

  length-second : length second ≡ 40
  length-second =
      length-prefix first (le_bytes 8 p.amount) 32 8 length-first
        (omega (arith, length-le_bytes 8 p.amount))

  length-third : length third ≡ 72
  length-third = length-prefix second (hash_bytes p.nullifier) 40 32 length-second ln

  length-fourth : length fourth ≡ 92
  length-fourth =
      length-prefix third (address_to_script_hash p.recipient_btc) 72 20 length-third
        (length-script_hash p.recipient_btc)

  -- The buffer of a proof, for texts of up to 64 digits and numbers of eight bytes.
  pub proof_buffer-encoded :
      p.amount < 2 ^ 64
      → p.block_number < 2 ^ 64
      → proof_buffer p
        ≡ some (
            encoded
              (hash_bytes p.tx_hash)
              p.amount
              (hash_bytes p.nullifier)
              (address_to_script_hash p.recipient_btc)
              p.block_number)
  unfolding proof_buffer
  proof_buffer-encoded ha hb = rw (
    fill [] (hash_bytes p.tx_hash) 0 32 80 112 refl lh refl,
    write_le_lem p.amount 32 (first ++ zeros 80) ha,
    fill first (le_bytes 8 p.amount) 32 8 72 80 length-first
        (omega (arith, length-le_bytes 8 p.amount)) refl,
    fill second (hash_bytes p.nullifier) 40 32 40 72 length-second ln refl,
    fill third (address_to_script_hash p.recipient_btc) 72 20 20 40 length-third
        (length-script_hash p.recipient_btc) refl,
    write_le_lem p.block_number 92 (fourth ++ zeros 20) hb,
    fill fourth (le_bytes 8 p.block_number) 92 8 12 20 length-fourth
        (omega (arith, length-le_bytes 8 p.block_number)) refl,
  )
