-- ===== src/Utxo/Balance.antt =====
-- The transactions built: what they spend, pay, return and leave as fee.
use starknet.Common.{
  ltb→lt, ℕ, ◌+◌, ◌-◌, ◌≤◌, ◌<◌, ◌≡◌, refl, subst, ap, Bool, true, false, Option, none, some, List,
  [], ◌∷◌, JsString, length, take, ltb, ◌==◌, if◌then◌else◌, arith, sort_by, Bool-cases, inl, inr,
}
use starknet.Utxo.{
  Utxo, Plan, sum_values, choose, select_utxos, plan_of, outputs_of, largest_first, covenant_fee,
  create_covenant_withdrawal,
}
use starknet.Utxo.Choice.{Chosen, Suffices, choose-Chosen}

abbrev pub sum_outputs : List (JsString × ℕ) → ℕ
sum_outputs [] = 0
sum_outputs ((address, value) ∷ os) = value + sum_outputs os

-- What a transaction spends and its outputs do not pay is the fee.
abbrev pub fee_paid : Plan → ℕ
fee_paid p = sum_values p.inputs - sum_outputs p.outputs

-- Inputs cover the outputs; the fee is the intended one, or more by at most the dust limit.
abbrev pub Balanced : (ℕ → ℕ) → Plan → Type 0
Balanced fee p =
    (sum_outputs p.outputs + fee (length p.inputs) ≤ sum_values p.inputs)
    × (sum_values p.inputs ≤ sum_outputs p.outputs + fee (length p.inputs) + 546)

-- The recipient comes first and gets the amount; any second output is change above the dust limit.
abbrev pub Pays : JsString → JsString → ℕ → List (JsString × ℕ) → Type 0
Pays recipient sender amount [] = ⊥
Pays recipient sender amount (o ∷ []) = o ≡ (recipient, amount)
Pays recipient sender amount (o ∷ c ∷ []) = (o ≡ (recipient, amount)) × (c.0 ≡ sender) × (546 < c.1)
Pays recipient sender amount (o ∷ c ∷ d ∷ os) = ⊥

outputs_of-Pays :
    (recipient sender : JsString) (amount change : ℕ)
    → Pays recipient sender amount (outputs_of recipient sender amount change)
outputs_of-Pays recipient sender amount change = elim (Bool-cases (ltb 546 change)) [
  | inl e ↦ rw e (refl, refl, ltb→lt 546 change e)
  | inr e ↦ rw e refl
]

sum_outputs_of :
    (recipient sender : JsString) (amount change : ℕ)
    → (sum_outputs (outputs_of recipient sender amount change) ≤ amount + change)
      × (amount + change ≤ sum_outputs (outputs_of recipient sender amount change) + 546)
sum_outputs_of recipient sender amount change = ground arith

abbrev pub Good : (ℕ → ℕ) → JsString → JsString → ℕ → Option Plan → Type 0
Good fee recipient sender amount none = Unit
Good fee recipient sender amount (some p) = Pays recipient sender amount p.outputs × Balanced fee p

Suffices-zero :
    (fee : ℕ → ℕ) (amount : ℕ) (chosen us : List Utxo)
    → chosen ≡ take (length chosen) us
    → Suffices fee amount 0 0 us (length chosen)
    → amount + fee (length chosen) ≤ sum_values chosen
Suffices-zero fee amount chosen us p t =
    let e : 0 + length chosen ≡ length chosen = omega arith in
    let t' : amount + fee (length chosen) ≤ 0 + sum_values (take (length chosen) us) =
      subst (λ m. amount + fee m ≤ 0 + sum_values (take (length chosen) us)) e t in
    let q : sum_values chosen ≡ sum_values (take (length chosen) us) = ap sum_values p in
    omega arith

pub plan_of-Good :
    (fee : ℕ → ℕ) (recipient sender : JsString) (amount : ℕ) (us : List Utxo)
    (r : Option (List Utxo × ℕ))
    → Chosen fee amount 0 0 us r
    → Good fee recipient sender amount (plan_of fee recipient sender amount r)
plan_of-Good fee recipient sender amount us none h = tt
plan_of-Good fee recipient sender amount us (some (chosen, reached)) (a, b, p, q, t, m) =
    let change = reached - amount - fee (length chosen) in
    let o = sum_outputs_of recipient sender amount change in
    let o0 = o.0 in
    let o1 = o.1 in
    let t' = Suffices-zero fee amount chosen us p t in
    (outputs_of-Pays recipient sender amount change, (omega arith, omega arith))

pub Good-some :
    (fee : ℕ → ℕ) (recipient sender : JsString) (amount : ℕ) (r : Option Plan) (p : Plan)
    → Good fee recipient sender amount r
    → r ≡ some p
    → Pays recipient sender amount p.outputs × Balanced fee p
Good-some fee recipient sender amount r p g e = subst (Good fee recipient sender amount) e g

pub cond-some :
    (b : Bool) (r : Option Plan) (p : Plan) → (if b then none else r) ≡ some p → r ≡ some p
cond-some true r p e = cc
cond-some false r p e = e

-- A covenant withdrawal that is built pays the recipient the amount, returns change above the dust
-- limit to the covenant, and leaves 2000 satoshis for each input as fee, or up to 546 more.
pub create_covenant_withdrawal-Balanced :
    (covenant recipient : JsString) (amount : ℕ) (us : List Utxo) (p : Plan)
    → create_covenant_withdrawal covenant recipient amount us ≡ some p
    → Pays recipient covenant amount p.outputs × Balanced covenant_fee p
unfolding create_covenant_withdrawal select_utxos
create_covenant_withdrawal-Balanced covenant recipient amount us p e =
    let sorted = sort_by largest_first us in
    let r = choose covenant_fee amount 0 0 sorted in
    let g =
      plan_of-Good covenant_fee recipient covenant amount sorted r
        (choose-Chosen covenant_fee amount 0 0 sorted) in
    let q = plan_of covenant_fee recipient covenant amount r in
    Good-some covenant_fee recipient covenant amount q p g (cond-some (length us == 0) q p e)
