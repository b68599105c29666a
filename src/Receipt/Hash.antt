-- ===== src/Receipt/Hash.antt =====
-- Spellings of a transaction hash in backend/src/services/StarknetService.ts.
use starknet.Common.{
  ℕ, zero, suc, ◌+◌, ◌-◌, ◌≤◌, ◌≡◌, refl, ap, ◌∙◌, false, ◌∷◌, ◌++◌, JsString, codes, starts_with,
  length, length-append, length-replicate, replicate, pad_start, arith,
}
use starknet.Receipt.{pad_hash, ProviderAnswer, get_transaction_receipt}

replicate-append :
    (m k c : ℕ) (s : JsString) → replicate m c ++ (replicate k c ++ s) ≡ replicate (m + k) c ++ s
replicate-append zero k c s = let e : k ≡ 0 + k = omega arith in ap (λ n. replicate n c ++ s) e
replicate-append (suc m) k c s =
    let e : suc (m + k) ≡ suc m + k = omega arith in
    ap (λ t. c ∷ t) (replicate-append m k c s) ∙ ap (λ n. replicate n c ++ s) e

pad_zeros :
    (k : ℕ) (h : JsString)
    → k + length h ≤ 64
    → pad_start 64 48 (replicate k 48 ++ h) ≡ pad_start 64 48 h
unfolding pad_start
pad_zeros k h le =
    let z = replicate k 48 ++ h in
    let l : length z ≡ k + length h =
      length-append (replicate k 48) h ∙ ap (λ n. n + length h) (length-replicate k 48) in
    let e : (64 - length z) + k ≡ 64 - length h = omega (arith, l) in
    replicate-append (64 - length z) k 48 h ∙ ap (λ n. replicate n 48 ++ h) e

-- The receipt of a transaction does not depend on the spelling of its hash, with up to 64 digits: leading
-- zeros may be left out, and so may `0x` where the digits do not themselves begin with it.
pub get_transaction_receipt_spellings :
    (provider : JsString → ProviderAnswer) (k : ℕ) (h : JsString)
    → k + length h ≤ 64
    → starts_with h (codes "0x") ≡ false
    → (get_transaction_receipt provider (codes "0x" ++ (replicate k 48 ++ h))
        ≡ get_transaction_receipt provider (codes "0x" ++ h))
      × (get_transaction_receipt provider h ≡ get_transaction_receipt provider (codes "0x" ++ h))
unfolding get_transaction_receipt pad_hash starts_with
get_transaction_receipt_spellings provider k h le n = (rw (pad_zeros k h le) refl, rw n refl)
