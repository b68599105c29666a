-- ===== src/Utxo/Choice.antt =====
-- The greedy choice: the shortest sufficient beginning of the outputs, largest first.
use starknet.Common.{
  ℕ, zero, suc, ◌+◌, ◌≤◌, ◌<◌, ◌≡◌, refl, ap, true, false, Option, none, some, List, [], ◌∷◌,
  length, take, leb, if◌then◌else◌, arith, Bool-cases, inl, inr, leb→le,
}
use starknet.Utxo.{sum_values, Utxo, choose, push}

-- A beginning of `us` that is long enough.
abbrev pub Suffices : (ℕ → ℕ) → ℕ → ℕ → ℕ → List Utxo → ℕ → Type 0
Suffices fee amount count total us k = amount + fee (count + k) ≤ total + sum_values (take k us)

-- What the loop finds: the first sufficient beginning, of at least one output.
abbrev pub Chosen : (ℕ → ℕ) → ℕ → ℕ → ℕ → List Utxo → Option (List Utxo × ℕ) → Type 0
Chosen fee amount count total us none =
    (k : ℕ) → 0 < k → k ≤ length us → ¬ Suffices fee amount count total us k
Chosen fee amount count total us (some (chosen, reached)) =
    (0 < length chosen)
    × (length chosen ≤ length us)
    × (chosen ≡ take (length chosen) us)
    × (reached ≡ total + sum_values chosen)
    × Suffices fee amount count total us (length chosen)
    × ((k : ℕ) → 0 < k → k < length chosen → ¬ Suffices fee amount count total us k)

module _ (fee : ℕ → ℕ) (amount : ℕ) where
  -- Not sufficient with one output, hence sufficient with `k + 1` exactly if `k` more are.
  Suffices-suc :
      (count total : ℕ) (u : Utxo) (us : List Utxo) (k : ℕ)
      → Suffices fee amount count total (u ∷ us) (suc k)
      → Suffices fee amount (count + 1) (total + u.value) us k
  Suffices-suc count total u us k h =
      let e : count + 1 + k ≡ count + suc k = omega arith in rw (e) (omega arith)

  suc-Suffices :
      (count total : ℕ) (u : Utxo) (us : List Utxo) (k : ℕ)
      → Suffices fee amount (count + 1) (total + u.value) us k
      → Suffices fee amount count total (u ∷ us) (suc k)
  suc-Suffices count total u us k h =
      let e : count + suc k ≡ count + 1 + k = omega arith in rw (e) (omega arith)

  none-suc :
      (count total : ℕ) (u : Utxo) (us : List Utxo)
      → ¬ Suffices fee amount count total (u ∷ us) 1
      → Chosen fee amount (count + 1) (total + u.value) us none
      → Chosen fee amount count total (u ∷ us) none
  none-suc count total u us short h zero k>0 k≤ s = omega arith
  none-suc count total u us short h (suc zero) k>0 k≤ s = short s
  none-suc count total u us short h (suc (suc k)) k>0 k≤ s =
      h (suc k) (omega arith) (omega arith) (Suffices-suc count total u us (suc k) s)

  shorter-suc :
      (count total : ℕ) (u : Utxo) (us : List Utxo) (n : ℕ)
      → ¬ Suffices fee amount count total (u ∷ us) 1
      → ((k : ℕ) → 0 < k → k < n → ¬ Suffices fee amount (count + 1) (total + u.value) us k)
      → (k : ℕ) → 0 < k
      → k < suc n
      → ¬ Suffices fee amount count total (u ∷ us) k
  shorter-suc count total u us n short m zero k>0 k< s = omega arith
  shorter-suc count total u us n short m (suc zero) k>0 k< s = short s
  shorter-suc count total u us n short m (suc (suc k)) k>0 k< s =
      m (suc k) (omega arith) (omega arith) (Suffices-suc count total u us (suc k) s)

  Chosen-suc :
      (count total : ℕ) (u : Utxo) (us : List Utxo) (r : Option (List Utxo × ℕ))
      → ¬ Suffices fee amount count total (u ∷ us) 1
      → Chosen fee amount (count + 1) (total + u.value) us r
      → Chosen fee amount count total (u ∷ us) (push u r)
  Chosen-suc count total u us none short h = none-suc count total u us short h
  Chosen-suc count total u us (some (c, t)) short (a, b, e, f, s, m) = (
    omega arith,
    omega arith,
    ap (λ x. u ∷ x) e,
    omega (arith, f),
    suc-Suffices count total u us (length c) s,
    shorter-suc count total u us (length c) short m,
  )

  first-Suffices :
      (count total : ℕ) (u : Utxo) (us : List Utxo)
      → leb (amount + fee (count + 1)) (total + u.value) ≡ true
      → Chosen fee amount count total (u ∷ us) (some (u ∷ [], total + u.value))
  first-Suffices count total u us e =
      let h = leb→le (amount + fee (count + 1)) (total + u.value) e in
      (omega arith, omega arith, refl, omega arith, omega arith, λ k a b. omega arith)

  not-Suffices :
      (count total : ℕ) (u : Utxo) (us : List Utxo)
      → leb (amount + fee (count + 1)) (total + u.value) ≡ false
      → ¬ Suffices fee amount count total (u ∷ us) 1
  not-Suffices count total u us e h = ground arith

  pub choose-Chosen :
      (count total : ℕ) (us : List Utxo)
      → Chosen fee amount count total us (choose fee amount count total us)
  unfolding choose
  choose-Chosen count total [] = λ k k>0 k≤ s. omega arith
  choose-Chosen count total (u ∷ us) =
      elim (Bool-cases (leb (amount + fee (count + 1)) (total + u.value))) [
        | inl e ↦ rw (e, if◌then◌else◌) (first-Suffices count total u us e)
        | inr e ↦
            rw (e, if◌then◌else◌)
              (Chosen-suc count total u us (choose fee amount (count + 1) (total + u.value) us)
                (not-Suffices count total u us e) (choose-Chosen (count + 1) (total + u.value) us))
      ]
