-- ===== src/Calldata/Decode.antt =====
-- The calldata read back as the contract reads it, by the layout of its arguments: an element is one number, a
-- span is a length and its elements, a hash is eight words, an amount is its low and its high half
-- (backend/src/services/StarknetService.ts).
use mathlib.Core.List.{append_assoc, append-nil}
use starknet.Common.{
  subst, ◌<◌, ltb, if◌then◌else◌, ℕ, zero, suc, ◌+◌, ◌*◌, ◌^◌, ◌≡◌, refl, Option, none, some, List,
  [], ◌∷◌, ◌++◌, map, JsString, All, length, arith,
}
use starknet.Calldata.{
  Felt, number, text, low, high, flatten, SpvParams, raw_tx_span, merkle_span, spv_calldata,
  WithdrawParams, withdraw_calldata,
}

-- A reader takes elements off the front.
abbrev Reader : Type 0 → Type 0
Reader A = List Felt → Option (A × List Felt)

infixl 5 ◌>>=◌
abbrev ◌>>=◌ {ℓ κ} : {A : Type ℓ} {B : Type κ} → Option A → (A → Option B) → Option B
none >>= f = none
some a >>= f = f a

abbrev read_number : Reader ℕ
read_number [] = none
read_number (number n ∷ t) = some (n, t)
read_number (text s ∷ t) = none

-- A number of `w` bits: a larger one is refused, as the contract does.
abbrev read_word : ℕ → Reader ℕ
read_word w [] = none
read_word w (number n ∷ t) = if ltb n (2 ^ w) then some (n, t) else none
read_word w (text s ∷ t) = none

read_word-number : (w n : ℕ) (t : List Felt) → n < 2 ^ w → read_word w (number n ∷ t) ≡ some (n, t)
read_word-number w n t h = ground (arith, h)

abbrev read_text : Reader JsString
read_text [] = none
read_text (number n ∷ t) = none
read_text (text s ∷ t) = some (s, t)

-- A number of elements, one after the other
read_many : {A : Type 0} → Reader A → ℕ → Reader (List A)
read_many one zero t = some ([], t)
read_many one (suc n) t =
    one t >>= λ (a, t'). read_many one n t' >>= λ (as', t''). some (a ∷ as', t'')

module _ {A : Type 0} (one : Reader A) (f : A → Felt)
    (reads : (a : A) (t : List Felt) → one (f a ∷ t) ≡ some (a, t)) where
  read_many-map :
      (as' : List A) (t : List Felt) → read_many one (length as') (map f as' ++ t) ≡ some (as', t)
  unfolding read_many
  read_many-map [] t = refl
  read_many-map (a ∷ as') t = rw (reads a (map f as' ++ t), read_many-map as' t) refl

-- Numbers of `w` bits
abbrev pub AreWords : ℕ → List ℕ → Type 0
AreWords w ns = All (λ n. n < 2 ^ w) ns

read_numbers :
    (w : ℕ) (ns : List ℕ) (t : List Felt)
    → AreWords w ns
    → read_many (read_word w) (length ns) (map number ns ++ t) ≡ some (ns, t)
unfolding read_many
read_numbers w [] t h = refl
read_numbers w (n ∷ ns) t h =
    rw (read_word-number w n (map number ns ++ t) h.0, read_numbers w ns t h.1) refl

unfoldable pub read_words : Reader (List ℕ)
unfolding read_many
read_words t = read_many (read_word 32) 8 t

-- Eight numbers of 32 bits
abbrev pub IsHash : List ℕ → Type 0
IsHash ws = (length ws ≡ 8) × AreWords 32 ws

read_words-map :
    (ws : List ℕ) (t : List Felt) → IsHash ws → read_words (map number ws ++ t) ≡ some (ws, t)
unfolding read_words
read_words-map ws t h =
    subst (λ n. read_many (read_word 32) n (map number ws ++ t) ≡ some (ws, t)) h.0
      (read_numbers 32 ws t h.1)

read_many-words :
    (wss : List (List ℕ)) (t : List Felt)
    → All IsHash wss
    → read_many read_words (length wss) (flatten wss ++ t) ≡ some (wss, t)
unfolding read_many
read_many-words [] t h = refl
read_many-words (ws ∷ wss) t h =
    rw
      (
        append_assoc (map number ws) (flatten wss) t,
        read_words-map ws (flatten wss ++ t) h.0,
        read_many-words wss t h.1,
      )
      refl

abbrev read_span : {A : Type 0} → Reader A → Reader (List A)
read_span one t = read_word 32 t >>= λ (n, t'). read_many one n t'

-- The arguments of the contract's `deposit`: `felt252`, two `u64`, a span of `u8`, `u32`, and a span of `[u32; 8]`
unfoldable pub read_deposit : List Felt → Option SpvParams
unfolding read_many
read_deposit t = do
  (commitment, t1) ← read_text t
  (height, t2) ← read_word 64 t1
  (pos, t3) ← read_word 64 t2
  (bytes, t4) ← read_span (read_word 8) t3
  (vout, t5) ← read_word 32 t4
  (words, t6) ← read_span read_words t5
  some (record {
    commitment = commitment;
    block_height = height;
    tx_pos = pos;
    raw_tx_bytes = bytes;
    vout_index = vout;
    merkle_proof_words = words;
  })

-- The parameters are in the ranges of the contract's types.
pub record InRange (p : SpvParams) : Type 0 where
  pub height : p.block_height < 2 ^ 64
  pub pos : p.tx_pos < 2 ^ 64
  pub bytes : AreWords 8 p.raw_tx_bytes
  pub size : length p.raw_tx_bytes < 2 ^ 32
  pub vout : p.vout_index < 2 ^ 32
  pub hashes : All IsHash p.merkle_proof_words
  pub levels : length p.merkle_proof_words < 2 ^ 32

-- A reader of the types that the contract declares, which refuses a number that is out of the range of its type,
-- reads what executeSpvDeposit sends back as it was given, provided that the parameters are in range: block
-- height and position of 64 bits, the output of 32, bytes of 8, and hashes of eight words of 32.
pub read_deposit-spv_calldata : (p : SpvParams) → InRange p → read_deposit (spv_calldata p) ≡ some p
unfolding read_deposit spv_calldata
read_deposit-spv_calldata p h =
    let rest = number p.vout_index ∷ merkle_span p.merkle_proof_words in
    rw
      (
        read_word-number 64 p.block_height (number p.tx_pos ∷ (raw_tx_span p.raw_tx_bytes ++ rest))
            h.height,
        read_word-number 64 p.tx_pos (raw_tx_span p.raw_tx_bytes ++ rest) h.pos,
        read_word-number 32 (length p.raw_tx_bytes) (map number p.raw_tx_bytes ++ rest) h.size,
        read_numbers 8 p.raw_tx_bytes rest h.bytes,
        read_word-number 32 p.vout_index (merkle_span p.merkle_proof_words) h.vout,
        read_word-number 32 (length p.merkle_proof_words) (flatten p.merkle_proof_words) h.levels,
        ← append-nil (flatten p.merkle_proof_words),
        read_many-words p.merkle_proof_words [] h.hashes,
      )
      refl

-- The arguments of the contract's `withdraw`
unfoldable pub read_withdraw : List Felt → Option WithdrawParams
unfolding read_many
read_withdraw t = do
  (nullifier, t1) ← read_text t
  (proof, t2) ← read_span read_text t1
  (recipient, t3) ← read_text t2
  (lo, t4) ← read_word 128 t3
  (hi, t5) ← read_word 128 t4
  some (record {
    nullifier_hash = nullifier;
    proof = proof;
    recipient = recipient;
    amount = lo + hi * 2 ^ 128;
  })

low-high : (n : ℕ) → low n + high n * 2 ^ 128 ≡ n
low-high n = omega arith

-- What the method `withdraw` sends is read back as it was given, for an amount of 256 bits.
pub read_withdraw-withdraw_calldata :
    (p : WithdrawParams)
    → length p.proof < 2 ^ 32
    → p.amount < 2 ^ 256
    → read_withdraw (withdraw_calldata p) ≡ some p
unfolding read_withdraw withdraw_calldata
read_withdraw-withdraw_calldata p h k =
    let rest = text p.recipient ∷ number (low p.amount) ∷ number (high p.amount) ∷ [] in
    rw
      (
        read_word-number 32 (length p.proof) (map text p.proof ++ rest) h,
        read_many-map read_text text (λ a t. refl) p.proof rest,
        read_word-number 128 (low p.amount) (number (high p.amount) ∷ []) (omega arith),
        read_word-number 128 (high p.amount) [] (omega (arith, k)),
        low-high p.amount,
      )
      refl
