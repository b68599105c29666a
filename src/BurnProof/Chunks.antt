-- ===== src/BurnProof/Chunks.antt =====
-- splitIntoChunks of backend/src/services/StarknetProofService.ts.
use starknet.BurnProof.{chunks_from, split_into_chunks}
use starknet.Bytes.{Bytes, encode_all}
use starknet.Common.{
  take_all, ℕ, zero, suc, ◌≤◌, ◌<◌, ◌≡◌, refl, ap, ◌∙◌, List, [], ◌∷◌, ◌++◌, length, take, drop,
  All, arith, length-take, length-drop, take-append-drop,
}

drop_all : (s : Bytes) (n : ℕ) → length s ≤ n → drop n s ≡ []
drop_all [] zero h = refl
drop_all [] (suc n) h = refl
drop_all (b ∷ s) zero h = absurd (omega arith)
drop_all (b ∷ s) (suc n) h = drop_all s n (omega arith)

chunks_from_empty : (n size : ℕ) → chunks_from n size [] ≡ []
unfolding chunks_from
chunks_from_empty zero size = refl
chunks_from_empty (suc n) size = refl

-- A buffer that is no larger than a chunk is one.
pub one_chunk :
    (size : ℕ) (buffer : Bytes)
    → 0 < length buffer
    → length buffer ≤ size
    → split_into_chunks size buffer ≡ buffer ∷ []
unfolding split_into_chunks chunks_from
one_chunk size [] h k = absurd (omega arith)
one_chunk size (b ∷ buffer) h k = rw (
  take_all (b ∷ buffer) size k,
  drop_all (b ∷ buffer) size k,
  chunks_from_empty (length buffer) size,
)

abbrev pub concat : List Bytes → Bytes
concat chunks = encode_all (λ c. c) chunks

chunks_from-concat :
    (n size : ℕ) (buffer : Bytes)
    → 0 < size
    → length buffer ≤ n
    → concat (chunks_from n size buffer) ≡ buffer
unfolding chunks_from
chunks_from-concat zero size [] h k = refl
chunks_from-concat zero size (b ∷ buffer) h k = absurd (omega arith)
chunks_from-concat (suc n) size [] h k = refl
chunks_from-concat (suc n) size (b ∷ buffer) h k =
    ap (λ t. take size (b ∷ buffer) ++ t)
      (chunks_from-concat n size (drop size (b ∷ buffer)) h
        (omega (arith, length-drop size (b ∷ buffer))))
    ∙ take-append-drop size (b ∷ buffer)

chunks_from-bounds :
    (n size : ℕ) (buffer : Bytes)
    → 0 < size
    → All (λ c. (0 < length c) × (length c ≤ size)) (chunks_from n size buffer)
unfolding chunks_from
chunks_from-bounds zero size buffer h = tt
chunks_from-bounds (suc n) size [] h = tt
chunks_from-bounds (suc n) size (b ∷ buffer) h = (
  (omega (arith, length-take size (b ∷ buffer)), omega (arith, length-take size (b ∷ buffer))),
  chunks_from-bounds n size (drop size (b ∷ buffer)) h,
)

-- For a size above 0 splitIntoChunks comes to its end within as many turns as the buffer has bytes: the
-- chunks make the whole buffer again, none is empty, and none is larger than the size.
pub split_into_chunks-concat :
    (size : ℕ) (buffer : Bytes)
    → 0 < size
    → (concat (split_into_chunks size buffer) ≡ buffer)
      × All (λ c. (0 < length c) × (length c ≤ size)) (split_into_chunks size buffer)
unfolding split_into_chunks
split_into_chunks-concat size buffer h = (
  chunks_from-concat (length buffer) size buffer h (omega arith),
  chunks_from-bounds (length buffer) size buffer h,
)
