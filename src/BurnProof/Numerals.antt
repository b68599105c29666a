-- ===== src/BurnProof/Numerals.antt =====
-- Texts as numbers: `BigInt(s)` in backend/src/services/StarknetProofService.ts, and `toString` of a
-- bigint. A sign in front of decimal digits, which no felt has, is not read.
use starknet.Transaction.Hex.{hex_digit, digit_value, digit_value-hex_digit}
use starknet.Common.{
  ap, Option-cases, ℕ, zero, suc, ◌+◌, ◌*◌, ◌/◌, ◌%◌, ◌≤◌, ◌<◌, ◌≡◌, refl, ◌∙◌, false, ◌||◌, Option,
  none, some, List, [], ◌∷◌, ◌++◌, JsString, codes, starts_with, truthy, drop, leb, ltb,
  if◌then◌else◌, trim, trim_inked, IsInk, digits, decimal, All, All-append, All-map, map, arith,
  Bool-cases, inl, inr,
}

-- The number that digits spell, behind those that spell `v`; no digits at all add nothing.
abbrev pub digits_value : ℕ → ℕ → JsString → Option ℕ
digits_value base v [] = some v
digits_value base v (c ∷ s) = elim (digit_value c) [
  | none ↦ none
  | some d ↦ if leb base d then none else digits_value base (v * base + d) s
]

-- Behind a prefix there must be a digit.
abbrev pub prefixed : ℕ → JsString → Option ℕ
prefixed base s = if truthy s then digits_value base 0 s else none

unfoldable pub numeral : JsString → Option ℕ
unfolding starts_with
numeral s =
    if starts_with s (codes "0x") || starts_with s (codes "0X")
    then prefixed 16 (drop 2 s)
    else if starts_with s (codes "0o") || starts_with s (codes "0O")
    then prefixed 8 (drop 2 s)
    else if starts_with s (codes "0b") || starts_with s (codes "0B")
    then prefixed 2 (drop 2 s)
    else digits_value 10 0 s

-- `BigInt(s)`
unfoldable pub big_int : JsString → Option ℕ
unfolding numeral
big_int s = numeral (trim s)

-- The value of digits by their places
abbrev pub place_value : ℕ → ℕ → List ℕ → ℕ
place_value base v [] = v
place_value base v (d ∷ ds) = place_value base (v * base + d) ds

digits_value-place_value :
    (v : ℕ) (ds : List ℕ)
    → All (λ d. d < 16) ds
    → digits_value 16 v (map hex_digit ds) ≡ some (place_value 16 v ds)
digits_value-place_value v [] h = refl
digits_value-place_value v (d ∷ ds) h =
    ground (arith, digit_value-hex_digit d h.0, digits_value-place_value (v * 16 + d) ds h.1)

hex_digit-IsInk : (d : ℕ) → d < 16 → IsInk (hex_digit d)
hex_digit-IsInk d h = ground arith

hex_digits-IsInk : (ds : List ℕ) → All (λ d. d < 16) ds → All IsInk (map hex_digit ds)
hex_digits-IsInk [] h = tt
hex_digits-IsInk (d ∷ ds) h = (hex_digit-IsInk d h.0, hex_digits-IsInk ds h.1)

-- The text of a felt
abbrev pub felt_text : List ℕ → JsString
felt_text ds = codes "0x" ++ map hex_digit ds

-- The text of a felt is read as its value.
pub big_int-felt_text :
    (d : ℕ) (ds : List ℕ)
    → All (λ c. c < 16) (d ∷ ds)
    → big_int (felt_text (d ∷ ds)) ≡ some (place_value 16 0 (d ∷ ds))
unfolding big_int numeral starts_with
big_int-felt_text d ds h =
    rw (trim_inked (felt_text (d ∷ ds)) (refl, (refl, hex_digits-IsInk (d ∷ ds) h)))
      (digits_value-place_value 0 (d ∷ ds) h)

abbrev IsDigit : ℕ → Type 0
IsDigit c = (48 ≤ c) × (c ≤ 57)

digits-IsDigit : (f n : ℕ) → All IsDigit (digits f n)
digits-IsDigit zero n = tt
digits-IsDigit (suc f) n = elim (Bool-cases (ltb n 10)) [
  | inl e ↦ rw e ((omega arith, ground arith), tt)
  | inr e ↦ rw e (
      All-append IsDigit (digits f (n / 10)) ((48 + n % 10) ∷ []) (digits-IsDigit f (n / 10))
        ((omega arith, omega arith), tt))
]

digits_value-snoc :
    (v w c d : ℕ) (s : JsString)
    → digits_value 10 v s ≡ some w
    → digit_value c ≡ some d
    → d < 10
    → digits_value 10 v (s ++ c ∷ []) ≡ some (w * 10 + d)
digits_value-snoc v w c d [] e q l = ground arith
digits_value-snoc v w c d (b ∷ s) e q l = elim (Option-cases (digit_value b)) [
  | inl f ↦ absurd (ground arith)
  | inr (a, f) ↦ ground (arith, digits_value-snoc (v * 10 + a) w c d s)
]

digits_value-digits : (f n : ℕ) → n < f → digits_value 10 0 (digits f n) ≡ some n
digits_value-digits zero n h = absurd (omega arith)
digits_value-digits (suc f) n h = elim (Bool-cases (ltb n 10)) [
  | inl e ↦ rw e (ground arith)
  | inr e ↦ rw e (
      digits_value-snoc 0 (n / 10) (48 + n % 10) (n % 10) (digits f (n / 10))
        (digits_value-digits f (n / 10) (ground arith)) (ground arith) (omega arith)
      ∙ ap some (omega arith))
]

no_prefix : (s : JsString) (k : ℕ) → All IsDigit s → 57 < k → starts_with s (48 ∷ k ∷ []) ≡ false
unfolding starts_with
no_prefix [] k h l = refl
no_prefix (c ∷ []) k h l = ground arith
no_prefix (c ∷ d ∷ s) k h l = ground (arith, h.1.0)

digit-IsInk : (c : ℕ) → IsDigit c → IsInk c
digit-IsInk c h = ground arith

-- What `toString` writes is read back.
pub big_int-decimal : (n : ℕ) → big_int (decimal n) ≡ some n
unfolding big_int numeral
big_int-decimal n =
    let h = digits-IsDigit (n + 1) n in
    rw
      (
        trim_inked (decimal n) (All-map IsDigit IsInk digit-IsInk (decimal n) h),
        no_prefix (decimal n) b'x' h (omega arith),
        no_prefix (decimal n) b'X' h (omega arith),
        no_prefix (decimal n) b'o' h (omega arith),
        no_prefix (decimal n) b'O' h (omega arith),
        no_prefix (decimal n) b'b' h (omega arith),
        no_prefix (decimal n) b'B' h (omega arith),
      )
      (digits_value-digits (n + 1) n (omega arith))
