-- ===== src/Utxo/Payment.antt =====
-- The loop of sendBitcoinToAddress against selectUtxos: the same choice by another program.
use starknet.Common.{
  le→not-ltb, le→not-ltb, lt→ltb, ℕ, ◌+◌, ◌-◌, ◌≤◌, ◌<◌, ◌≡◌, refl, sym, subst, ◌∙◌, Bool, true,
  false, Option, none, some, List, [], ◌∷◌, ◌++◌, JsString, length, length-append, leb, ltb, ◌==◌,
  if◌then◌else◌, arith, sort_by, Bool-cases, inl, inr, leb→le,
}
use mathlib.Core.List.{append_assoc}
use starknet.Utxo.Choice.{choose-Chosen}
use starknet.Utxo.Balance.{Pays, Balanced, plan_of-Good, Good-some, cond-some}
use starknet.Utxo.Fewest.{length-sorted_all}
use starknet.Utxo.{
  build_deposit, Utxo, Plan, choose, select_utxos, push, gather, build_payment, plan_of, outputs_of,
  largest_first,
}

-- What the loop ends with, from what the selection finds in the rest of the list.
abbrev Gathered :
    (ℕ → ℕ)
    → ℕ
    → List Utxo
    → ℕ
    → ℕ
    → List Utxo
    → Option (List Utxo × ℕ)
    → List Utxo × ℕ × ℕ
    → Type 0
Gathered fee amount selected total estimated us none (s, t, e) = t < amount + e
Gathered fee amount selected total estimated us (some (c, r)) g =
    (g ≡ (selected ++ c, r, fee (length (selected ++ c))))
    × (amount + fee (length (selected ++ c)) ≤ r)

module _ (fee : ℕ → ℕ) (amount : ℕ) where
  Gathered-push :
      (selected : List Utxo) (total estimated estimated' : ℕ) (u : Utxo) (us : List Utxo)
      (r : Option (List Utxo × ℕ)) (g : List Utxo × ℕ × ℕ)
      → Gathered fee amount (selected ++ u ∷ []) (total + u.value) estimated' us r g
      → Gathered fee amount selected total estimated (u ∷ us) (push u r) g
  Gathered-push selected total estimated estimated' u us none (s, t, e) h = h
  Gathered-push selected total estimated estimated' u us (some (c, r)) g h =
      let e : (selected ++ u ∷ []) ++ c ≡ selected ++ u ∷ c = append_assoc selected (u ∷ []) c in
      subst (λ l. (g ≡ (l, r, fee (length l))) × (amount + fee (length l) ≤ r)) e h

  module _ (selected : List Utxo) (total estimated : ℕ) (u : Utxo) (us : List Utxo) where
    abbrev enough : Bool
    enough = leb (amount + fee (length selected + 1)) (total + u.value)

    length-snoc : length (selected ++ u ∷ []) ≡ length selected + 1
    length-snoc = length-append selected (u ∷ [])

    Gathered-first :
        enough ≡ true
        → Gathered fee amount selected total estimated
            (u ∷ us)
            (some (u ∷ [], total + u.value))
            (selected ++ u ∷ [], total + u.value, fee (length (selected ++ u ∷ [])))
    Gathered-first e =
        let h = leb→le (amount + fee (length selected + 1)) (total + u.value) e in
        (refl, rw length-snoc h)

    choose_first :
        enough ≡ true
        → choose fee amount (length selected) total (u ∷ us) ≡ some (u ∷ [], total + u.value)
    unfolding choose
    choose_first e = rw e refl

    choose_next :
        enough ≡ false
        → choose fee amount (length selected) total (u ∷ us)
          ≡ push u (choose fee amount (length (selected ++ u ∷ [])) (total + u.value) us)
    unfolding choose
    choose_next e = rw (length-snoc, e) refl

    gather_first :
        enough ≡ true
        → gather fee amount selected total estimated (u ∷ us)
          ≡ (selected ++ u ∷ [], total + u.value, fee (length (selected ++ u ∷ [])))
    unfolding gather
    gather_first e = rw (length-snoc, e) refl

    gather_next :
        enough ≡ false
        → gather fee amount selected total estimated (u ∷ us)
          ≡ gather fee amount
              (selected ++ u ∷ [])
              (total + u.value)
              (fee (length (selected ++ u ∷ [])))
              us
    unfolding gather
    gather_next e = rw (length-snoc, e) refl

    next_short : enough ≡ false → total + u.value < amount + fee (length (selected ++ u ∷ []))
    next_short e = rw length-snoc (ground arith)

  gather-choose :
      (selected : List Utxo) (total estimated : ℕ) (us : List Utxo)
      → (length us ≡ 0 → total < amount + estimated)
      → Gathered fee amount selected total estimated us
          (choose fee amount (length selected) total us)
          (gather fee amount selected total estimated us)
  unfolding choose gather
  gather-choose selected total estimated [] h = h refl
  gather-choose selected total estimated (u ∷ us) h =
      elim (Bool-cases (leb (amount + fee (length selected + 1)) (total + u.value))) [
        | inl e ↦
            rw
              (
                choose_first selected total estimated u us e,
                gather_first selected total estimated u us e,
              )
              (Gathered-first selected total estimated u us e)
        | inr e ↦
            rw
              (
                choose_next selected total estimated u us e,
                gather_next selected total estimated u us e,
              )
              (Gathered-push selected total estimated (fee (length (selected ++ u ∷ []))) u us
                (choose fee amount (length (selected ++ u ∷ [])) (total + u.value) us)
                (gather fee amount (selected ++ u ∷ []) (total + u.value)
                  (fee (length (selected ++ u ∷ []))) us)
                (gather-choose (selected ++ u ∷ []) (total + u.value)
                  (fee (length (selected ++ u ∷ []))) us
                  (λ z. next_short selected total estimated u us e)))
      ]

-- The end of `sendBitcoinToAddress`: the test behind the loop, and the outputs.
abbrev finish : (ℕ → ℕ) → JsString → JsString → ℕ → List Utxo × ℕ × ℕ → Option Plan
finish fee sender recipient amount (selected, total, estimated) =
    if ltb total (amount + estimated)
    then none
    else some (record {
      inputs = selected;
      outputs = outputs_of recipient sender amount (total - amount - estimated);
    })

finish-plan_of :
    (fee : ℕ → ℕ) (sender recipient : JsString) (amount : ℕ) (us : List Utxo)
    (r : Option (List Utxo × ℕ)) (g : List Utxo × ℕ × ℕ)
    → Gathered fee amount [] 0 0 us r g
    → finish fee sender recipient amount g ≡ plan_of fee recipient sender amount r
finish-plan_of fee sender recipient amount us none (s, t, e) h = rw (lt→ltb t (amount + e) h) refl
finish-plan_of fee sender recipient amount us (some (c, r)) g (e, h) =
    rw (e) (rw (le→not-ltb r (amount + fee (length c)) h) refl)

-- `sendBitcoinToAddress`, whose loop leaves by `break` and tests the total once more behind it,
-- builds the transaction that the covenant service's `selectUtxos` gives for the same fee: the same
-- inputs and outputs, and none in the same cases.
pub build_payment-select_utxos :
    (fee : ℕ → ℕ) (sender recipient : JsString) (amount : ℕ) (us : List Utxo)
    → build_payment fee sender recipient amount us ≡ (
        if length us == 0
        then none
        else plan_of fee recipient sender amount (select_utxos fee amount us))
unfolding build_payment select_utxos
build_payment-select_utxos fee sender recipient amount us = elim (Bool-cases (length us == 0)) [
  | inl e ↦ rw e refl
  | inr e ↦ rw e (
      finish-plan_of fee sender recipient amount (sort_by largest_first us)
        (choose fee amount 0 0 (sort_by largest_first us))
        (gather fee amount [] 0 0 (sort_by largest_first us))
        (gather-choose fee amount [] 0 0 (sort_by largest_first us)
          (λ z. let q = length-sorted_all us in ground arith)))
]

-- A payment that is built pays the recipient the amount, returns change above the dust limit to the
-- sender, and leaves the estimated fee, or up to 546 satoshis more.
pub build_payment-Balanced :
    (fee : ℕ → ℕ) (sender recipient : JsString) (amount : ℕ) (us : List Utxo) (p : Plan)
    → build_payment fee sender recipient amount us ≡ some p
    → Pays recipient sender amount p.outputs × Balanced fee p
unfolding select_utxos
build_payment-Balanced fee sender recipient amount us p e =
    let sorted = sort_by largest_first us in
    let q = plan_of fee recipient sender amount (choose fee amount 0 0 sorted) in
    Good-some fee recipient sender amount q p
      (plan_of-Good fee recipient sender amount sorted (choose fee amount 0 0 sorted)
        (choose-Chosen fee amount 0 0 sorted))
      (cond-some (length us == 0) q p
        (sym (build_payment-select_utxos fee sender recipient amount us) ∙ e))

-- A deposit that is built pays the vault, returns change above the dust limit to the sender, and leaves
-- the estimated fee, or up to 546 satoshis more; the two addresses are set.
pub build_deposit-Balanced :
    (fee : ℕ → ℕ) (sender vault : Option JsString) (amount : ℕ) (us : List Utxo) (p : Plan)
    → build_deposit fee sender vault amount us ≡ some p
    → (s : JsString) × (v : JsString) × (sender ≡ some s)
      × (vault ≡ some v)
      × Pays v s amount p.outputs
      × Balanced fee p
unfolding build_deposit
build_deposit-Balanced fee none vault amount us p e = cc
build_deposit-Balanced fee (some s) none amount us p e = cc
build_deposit-Balanced fee (some s) (some v) amount us p e =
    let b = build_payment-Balanced fee s v amount us p e in (s, v, refl, refl, b.0, b.1)
