-- ===== src/Relay/Retry.antt =====
-- Retried calls of the header relay (backend/src/services/BitcoinHeaderRelayService.ts).
use starknet.Common.{
  subst, ℕ, zero, suc, ◌+◌, ◌-◌, ◌*◌, ◌^◌, Bool-cases, ltb→lt, ◌≤◌, ◌<◌, ◌≡◌, Option, none, some,
  arith, length, All, Option-cases, inl, inr, ltb,
}
use native.Mathlib.Nat.{min-le_right}
use native.Mathlib.Decide.{dec_lt}
use starknet.Relay.{with_retries}

-- The retried call returns what its first successful attempt returns, and fails only if each of the
-- attempts that it may make has failed.
abbrev pub Retried {ℓ} : {A : Type ℓ} → ℕ → (ℕ → Option A) → ℕ → Option A → Type ℓ
Retried n call attempt none = (k : ℕ) → attempt ≤ k → k < attempt + n → call k ≡ none
Retried n call attempt (some a) =
    (k : ℕ) × (attempt ≤ k)
    × (k < attempt + n)
    × (call k ≡ some a)
    × ((j : ℕ) → attempt ≤ j → j < k → call j ≡ none)

no_attempt {ℓ} : {A : Type ℓ} (call : ℕ → Option A) (attempt : ℕ) → Retried 0 call attempt none
no_attempt call attempt k l h = absurd (omega arith)

with_retries-Retried-attempt {ℓ} :
    {A : Type ℓ} (n : ℕ) (call : ℕ → Option A) (attempt : ℕ)
    → Retried n call attempt (with_retries n call attempt).0
unfolding with_retries
with_retries-Retried-attempt zero call attempt = no_attempt call attempt
with_retries-Retried-attempt {A} (suc n) call attempt = elim (Option-cases (call attempt)) [
  | inr (a, e) ↦
      rw (e, with_retries) (attempt, omega arith, omega arith, e, λ j l h. absurd (omega arith))
  | inl e ↦
      rw (e, with_retries)
        (later (with_retries n call (attempt + 1)).0 e
          (with_retries-Retried-attempt n call (attempt + 1)))
]
  where
    later :
        (r : Option A)
        → call attempt ≡ none
        → Retried n call (attempt + 1) r
        → Retried (suc n) call attempt r
    later none e h = λ k l u. elim (dec_lt attempt k) [
      | yes p ↦ h k (omega arith) (omega arith)
      | no p ↦ subst (λ j. call j ≡ none) (omega arith) e
    ]
    later (some a) e (k, l, u, q, first) = (
      k,
      omega arith,
      omega arith,
      q,
      λ j lj uj. elim (dec_lt attempt j) [
        | yes p ↦ first j (omega arith) uj
        | no p ↦ subst (λ i. call i ≡ none) (omega arith) e
      ],
    )

with_retries-pauses {ℓ} :
    {A : Type ℓ} (n : ℕ) (call : ℕ → Option A) (attempt : ℕ)
    → All (λ p. p ≤ 5000) (with_retries n call attempt).1
      × (length (with_retries n call attempt).1 ≤ n - 1)
unfolding with_retries
with_retries-pauses zero call attempt = (tt, omega arith)
with_retries-pauses (suc n) call attempt =
    let ih = with_retries-pauses n call (attempt + 1) in
    elim (Option-cases (call attempt)) [
      | inr (a, e) ↦ rw (e, with_retries) (tt, omega arith)
      | inl e ↦
          rw (e, with_retries)
            (elim (Bool-cases (ltb 0 n)) [
              | inl more ↦ rw more (
                (min-le_right (500 * 2 ^ attempt) 5000, ih.0),
                omega (arith, ih.1, ltb→lt 0 n more),
              )
              | inr last ↦ rw last (ih.0, omega (arith, ih.1))
            ])
    ]

-- A call that is retried up to `n` times returns what the first successful one of its attempts returns,
-- and fails only if all `n` fail; it pauses less often than `n` times, five seconds each time at most.
pub with_retries_lem {ℓ} :
    {A : Type ℓ} (n : ℕ) (call : ℕ → Option A)
    → Retried n call 0 (with_retries n call 0).0
      × All (λ p. p ≤ 5000) (with_retries n call 0).1
      × (length (with_retries n call 0).1 ≤ n - 1)
with_retries_lem n call =
    let p = with_retries-pauses n call 0 in (with_retries-Retried-attempt n call 0, p.0, p.1)
