-- ===== src/Bytes/Laws.antt =====
-- Reading back what was written: little-endian numbers and variable-length integers.
use starknet.Common.{
  ◌^◌, ℕ, zero, suc, ◌+◌, ◌/◌, ◌<◌, ◌≡◌, refl, sym, subst, ap, some, List, [], ◌∷◌, ◌++◌, length,
  get_elem?, take, drop, ltb, ==_refl, if◌then◌else◌, arith, take-append, drop-append,
  length-append,
}
use mathlib.Core.List.{append_assoc}
use starknet.Bytes.{Bytes, le_value, le_bytes, read_le, read_var_int, with_size, vi, var_int}

-- A number that `n` bytes hold.
abbrev Fits : ℕ → ℕ → Type 0
Fits zero v = v ≡ 0
Fits (suc n) v = Fits n (v / 256)

pub length-le_bytes : (n v : ℕ) → length (le_bytes n v) ≡ n
unfolding le_bytes
length-le_bytes zero v = refl
length-le_bytes (suc n) v = ap suc (length-le_bytes n (v / 256))

le_value-le_bytes : (n v : ℕ) → Fits n v → le_value (le_bytes n v) ≡ v
unfolding le_bytes le_value
le_value-le_bytes zero v h = sym h
le_value-le_bytes (suc n) v h = omega (arith, le_value-le_bytes n (v / 256) h)

-- What stands at the end of a prefix.
pub get_elem?-append {ℓ} :
    {A : Type ℓ} (pre : List A) (x : A) (rest : List A)
    → get_elem? (pre ++ x ∷ rest) (length pre) ≡ some x
get_elem?-append [] x rest = refl
get_elem?-append (p ∷ pre) x rest = get_elem?-append pre x rest

pub take_of_length {ℓ} :
    {A : Type ℓ} (n : ℕ) (xs ys : List A) → length xs ≡ n → take n (xs ++ ys) ≡ xs
take_of_length n xs ys h = subst (λ k. take k (xs ++ ys) ≡ xs) h (take-append xs ys)

pub drop_of_length {ℓ} :
    {A : Type ℓ} (n : ℕ) (xs ys : List A) → length xs ≡ n → drop n (xs ++ ys) ≡ ys
drop_of_length n xs ys h = subst (λ k. drop k (xs ++ ys) ≡ ys) h (drop-append xs ys)

-- A read of `n` bytes finds the number that was written there.
pub read_le-bytes :
    (n v : ℕ) (pre rest : Bytes) (offset : ℕ)
    → Fits n v
    → length pre ≡ offset
    → read_le n (pre ++ (le_bytes n v ++ rest)) offset ≡ some v
unfolding read_le
read_le-bytes n v pre rest offset f h = rw (
  drop_of_length offset pre (le_bytes n v ++ rest) h,
  take_of_length n (le_bytes n v) rest (length-le_bytes n v),
  length-le_bytes n v,
  ==_refl n,
  le_value-le_bytes n v f,
)

-- A marker of a longer form, and the number behind it.
marked :
    (n v size first : ℕ) (pre rest : Bytes)
    → Fits n v
    → with_size size (read_le n (pre ++ (first ∷ (le_bytes n v ++ rest))) (length pre + 1))
      ≡ some (v, size)
marked n v size first pre rest f =
    let shift : pre ++ (first ∷ (le_bytes n v ++ rest))
        ≡ (pre ++ first ∷ []) ++ (le_bytes n v ++ rest) =
      sym (append_assoc pre (first ∷ []) (le_bytes n v ++ rest)) in
    rw (
      shift,
      read_le-bytes n v (pre ++ first ∷ []) rest (length pre + 1) f
          (omega (arith, length-append pre (first ∷ []))),
    )

pub length-vi :
    (n : ℕ)
    → length (vi n)
      ≡ (if ltb n 0xfd then 1 else if ltb n 0x10000 then 3 else if ltb n 0x100000000 then 5 else 9)
unfolding vi
length-vi n = ground (arith, length-le_bytes 2 n, length-le_bytes 4 n, length-le_bytes 8 n)

-- Reading a variable-length integer where one was written gives the number and its size, for every
-- number below 2 ^ 64.
pub read_var_int-vi :
    (n : ℕ) (pre rest : Bytes)
    → n < 2 ^ 64
    → read_var_int (pre ++ (vi n ++ rest)) (length pre) ≡ some (n, length (vi n))
unfolding read_var_int vi
read_var_int-vi n pre rest h = ground (
  arith,
  length-le_bytes 2 n,
  length-le_bytes 4 n,
  length-le_bytes 8 n,
  get_elem?-append pre n rest,
  get_elem?-append pre 0xfd (le_bytes 2 n ++ rest),
  get_elem?-append pre 0xfe (le_bytes 4 n ++ rest),
  get_elem?-append pre 0xff (le_bytes 8 n ++ rest),
  marked 2 n 3 0xfd pre rest,
  marked 4 n 5 0xfe pre rest,
  marked 8 n 9 0xff pre rest (omega arith),
)

-- The two encoders of the source agree on the numbers that the smaller one can write.
pub var_int-eq-vi : (n : ℕ) → n < 2 ^ 32 → var_int n ≡ some (vi n)
unfolding var_int vi
var_int-eq-vi n h = ground arith
