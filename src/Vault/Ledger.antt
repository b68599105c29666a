-- ===== src/Vault/Ledger.antt =====
-- The contract of the handlers of backend/src/routes/vault.ts with the vault contract on Starknet: what may
-- be burned.
use starknet.Common.{
  ℕ, ◌+◌, ◌≤◌, ◌≡◌, subst, Bool, true, false, List, ◌∷◌, JsString, ◌===◌, ===_iff, count_if,
  if◌then◌else◌, arith, Bool-cases, inl, inr,
}

-- What the handlers promise for the burns: which nullifiers are spent, and what is burned.
pub record Ledger : Type 0 where
  pub spent : JsString → Bool
  pub burned : List (JsString × ℕ)

abbrev pub StaysIn : (JsString → Bool) → (JsString → Bool) → Type 0
StaysIn p q = (n : JsString) → p n ≡ true → q n ≡ true

-- A step of the ledger: nothing is burned, or a nullifier that was not spent is burned, and is spent from
-- then on. What is spent stays spent.
pub data LedgerStep (a b : Ledger) : Type 0 where
  idle : b.burned ≡ a.burned → StaysIn a.spent b.spent → LedgerStep a b
  burns :
      (n : JsString) (amount : ℕ)
      → b.burned ≡ (n, amount) ∷ a.burned
      → a.spent n ≡ false
      → b.spent n ≡ true
      → StaysIn a.spent b.spent
      → LedgerStep a b

-- Any number of steps
pub data LedgerRun : Ledger → Ledger → Type 0 where
  done : (a : Ledger) → LedgerRun a a
  step : (a b c : Ledger) → LedgerStep a b → LedgerRun b c → LedgerRun a c

-- How often the nullifier was burned.
abbrev pub burns_in : JsString → Ledger → ℕ
burns_in n a = count_if (λ b. b.0 === n) a.burned

abbrev spent_in : JsString → Ledger → ℕ
spent_in n a = if a.spent n then 1 else 0

LedgerStep-burns_in :
    (n : JsString) (a b : Ledger)
    → LedgerStep a b
    → burns_in n b + spent_in n a ≤ burns_in n a + spent_in n b
LedgerStep-burns_in n a b (idle e stay) = rw e (elim (Bool-cases (a.spent n)) [
  | inl p ↦ rw (p, stay n p) (omega arith)
  | inr p ↦ rw p (omega arith)
])
LedgerStep-burns_in n a b (burns m amount e before after stay) = rw e (elim (Bool-cases (m === n)) [
  | inl q ↦
      let f : a.spent n ≡ false = subst (λ k. a.spent k ≡ false) ((===_iff m n).0 q) before in
      let t : b.spent n ≡ true = subst (λ k. b.spent k ≡ true) ((===_iff m n).0 q) after in
      rw (q, f, t) (omega arith)
  | inr q ↦ elim (Bool-cases (a.spent n)) [
    | inl p ↦ rw (q, p, stay n p) (omega arith)
    | inr p ↦ rw (q, p) (omega arith)
  ]
])

LedgerRun-burns_in :
    (n : JsString) (a b : Ledger)
    → LedgerRun a b
    → burns_in n b + spent_in n a ≤ burns_in n a + spent_in n b
LedgerRun-burns_in n a _ (done _) = omega arith
LedgerRun-burns_in n a _ (step _ b c s r) =
    omega (arith, LedgerStep-burns_in n a b s, LedgerRun-burns_in n b c r)

-- A run of the ledger burns a nullifier at most once, and not at all if it is spent.
pub LedgerRun-once :
    (n : JsString) (a b : Ledger)
    → LedgerRun a b
    → burns_in n b + (if a.spent n then 1 else 0) ≤ burns_in n a + 1
LedgerRun-once n a b r =
    let le : spent_in n b ≤ 1 = ground arith in omega (arith, LedgerRun-burns_in n a b r, le)
