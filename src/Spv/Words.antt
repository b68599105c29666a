-- ===== src/Spv/Words.antt =====
-- Hashes as words: what the words stand for, and the place of the merkle root in a block header.
use starknet.Common.{
  ℕ, zero, suc, ◌*◌, ◌/◌, ◌%◌, ◌^◌, ◌<◌, ◌≡◌, refl, ap, ◌∙◌, some, List, [], ◌∷◌, ◌++◌, reverse,
  length, All, All-append, arith, length-append,
}
use mathlib.Core.List.{reverse-cons, reverse-reverse}
use starknet.Bytes.{Bytes}
use starknet.Bytes.Laws.{take_of_length, drop_of_length}
use starknet.Transaction.Hex.{to_hex, from_hex-to_hex, IsByte}
use starknet.Spv.{
  words_be, hex_hash_to_words, merkle_root_to_u32_array, parse_merkle_root_from_header,
}

-- The big-endian bytes of words.
abbrev pub bytes_be : List ℕ → Bytes
bytes_be [] = []
bytes_be (w ∷ ws) = (w / 16777216) ∷ (w / 65536 % 256) ∷ (w / 256 % 256) ∷ (w % 256) ∷ bytes_be ws

abbrev pub IsWord : ℕ → Type 0
IsWord w = w < 2 ^ 32

-- Bytes in groups of four.
abbrev Fours : ℕ → Bytes → Type 0
Fours n bs = length bs ≡ n * 4

words_be_lem :
    (n : ℕ) (bs : Bytes)
    → Fours n bs
    → All IsByte bs
    → (length (words_be bs) ≡ n) × All IsWord (words_be bs) × (bytes_be (words_be bs) ≡ bs)
unfolding words_be
words_be_lem zero [] e h = (refl, tt, refl)
words_be_lem (suc n) (a ∷ b ∷ c ∷ d ∷ bs) e h =
    let ih = words_be_lem n bs (omega arith) h.1.1.1.1 in
    (ap suc ih.0, (omega arith, ih.1), ground (arith, ih.2))
words_be_lem zero (a ∷ bs) e h = absurd (omega arith)
words_be_lem (suc n) [] e h = absurd (omega arith)
words_be_lem (suc n) (a ∷ []) e h = absurd (omega arith)
words_be_lem (suc n) (a ∷ b ∷ []) e h = absurd (omega arith)
words_be_lem (suc n) (a ∷ b ∷ c ∷ []) e h = absurd (omega arith)

length-reverse : (bs : Bytes) → length (reverse bs) ≡ length bs
length-reverse [] = refl
length-reverse (b ∷ bs) =
    rw (reverse-cons b bs) (omega (arith, length-append (reverse bs) (b ∷ []), length-reverse bs))

All-reverse : (bs : Bytes) → All IsByte bs → All IsByte (reverse bs)
All-reverse [] h = tt
All-reverse (b ∷ bs) h =
    rw (reverse-cons b bs) (All-append IsByte (reverse bs) (b ∷ []) (All-reverse bs h.1) (h.0, tt))

-- The text of 32 bytes becomes eight 32-bit words whose big-endian bytes are the 32 bytes reversed.
pub hex_hash_to_words-bytes_be :
    (bs : Bytes)
    → length bs ≡ 32
    → All IsByte bs
    → (ws : List ℕ) × (hex_hash_to_words (to_hex bs) ≡ some ws)
      × (length ws ≡ 8)
      × All IsWord ws
      × (bytes_be ws ≡ reverse bs)
unfolding hex_hash_to_words
hex_hash_to_words-bytes_be bs e h =
    let w = words_be_lem 8 (reverse bs) (length-reverse bs ∙ e) (All-reverse bs h) in
    (words_be (reverse bs), rw (from_hex-to_hex bs h, e), w.0, w.1, w.2)

-- The two conversions of the source differ by the order of the bytes only.
pub hex_hash_to_words-reverse :
    (bs : Bytes)
    → All IsByte bs
    → hex_hash_to_words (to_hex (reverse bs)) ≡ merkle_root_to_u32_array (to_hex bs)
unfolding hex_hash_to_words merkle_root_to_u32_array
hex_hash_to_words-reverse bs h = rw (
  from_hex-to_hex bs h,
  from_hex-to_hex (reverse bs) (All-reverse bs h),
  length-reverse bs,
  reverse-reverse bs,
)

length-to_hex : (bs : Bytes) → length (to_hex bs) ≡ 2 * length bs
unfolding to_hex
length-to_hex [] = refl
length-to_hex (b ∷ bs) = omega (arith, length-to_hex bs)

to_hex-append : (xs ys : Bytes) → to_hex (xs ++ ys) ≡ to_hex xs ++ to_hex ys
unfolding to_hex
to_hex-append [] ys = refl
to_hex-append (x ∷ xs) ys = ground (arith, to_hex-append xs ys)

-- From the text of a header of 80 bytes the relay takes the text of the 32 bytes behind version and
-- previous hash.
pub parse_merkle_root_lem :
    (before root after : Bytes)
    → length before ≡ 36
    → length root ≡ 32
    → length after ≡ 12
    → parse_merkle_root_from_header (to_hex (before ++ (root ++ after))) ≡ some (to_hex root)
unfolding parse_merkle_root_from_header
parse_merkle_root_lem before root after h k l =
    let size : length (to_hex (before ++ (root ++ after))) ≡ 160 = omega (
      arith,
      length-to_hex (before ++ (root ++ after)),
      length-append before (root ++ after),
      length-append root after,
    ) in
    rw (
      size,
      to_hex-append before (root ++ after),
      to_hex-append root after,
      drop_of_length 72 (to_hex before) (to_hex root ++ to_hex after)
          (omega (arith, length-to_hex before)),
      take_of_length 64 (to_hex root) (to_hex after) (omega (arith, length-to_hex root)),
    )
