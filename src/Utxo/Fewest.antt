-- ===== src/Utxo/Fewest.antt =====
-- The greedy choice against every other choice of inputs.
use starknet.Common.{
  length-filter, ℕ, zero, suc, ◌+◌, ◌≤◌, ◌<◌, ◌≡◌, refl, sym, subst, ap, ◌∙◌, Bool, true, Option,
  none, some, List, [], ◌∷◌, length, take, filter, All, AllPairs, sum_by, sort_by-sum_by,
  sort_by-Ordered, if◌then◌else◌, arith, sort_by, Bool-cases, inl, inr, leb→le,
}
use starknet.Utxo.{Utxo, sum_values, choose, select_utxos, largest_first}
use starknet.Utxo.Choice.{Suffices, Chosen, choose-Chosen}

abbrev AtLeast : Utxo → Utxo → Type 0
AtLeast u v = v.value ≤ u.value

sorted-AtLeast : (us : List Utxo) → AllPairs AtLeast (sort_by largest_first us)
sorted-AtLeast us =
    sort_by-Ordered largest_first AtLeast (λ a b c h k. omega arith)
      (λ a b e. leb→le b.value a.value e) (λ a b e. ground arith) us

-- One more output of at most `b` each adds at most `b`.
take-suc :
    (b k : ℕ) (us : List Utxo)
    → All (λ v. v.value ≤ b) us
    → sum_values (take (suc k) us) ≤ b + sum_values (take k us)
take-suc b k [] h = omega arith
take-suc b zero (u ∷ us) h = let e = h.0 in omega arith
take-suc b (suc k) (u ∷ us) h = let r = take-suc b k us h.1 in omega arith

take-AtLeast :
    (u : Utxo) (us : List Utxo)
    → All (AtLeast u) us
    → (k : ℕ) → sum_values (take k us) ≤ sum_values (take k (u ∷ us))
take-AtLeast u us h zero = omega arith
take-AtLeast u us h (suc k) = take-suc u.value k us h

-- The first outputs of a list in descending order are worth the most.
filter-take :
    (keep : Utxo → Bool) (us : List Utxo)
    → AllPairs AtLeast us
    → sum_values (filter keep us) ≤ sum_values (take (length (filter keep us)) us)
filter-take keep [] h = omega arith
filter-take keep (u ∷ us) h = elim (Bool-cases (keep u)) [
  | inl e ↦ rw e (let r = filter-take keep us h.1 in omega arith)
  | inr e ↦ rw e (
      let r = filter-take keep us h.1 in
      let q = take-AtLeast u us h.0 (length (filter keep us)) in omega arith)
]

module _ (keep : Utxo → Bool) where
  abbrev worth : Utxo → ℕ
  worth u = if keep u then u.value else 0

  abbrev one : Utxo → ℕ
  one u = if keep u then 1 else 0

  sum_values-worth : (us : List Utxo) → sum_values (filter keep us) ≡ sum_by largest_first worth us
  unfolding sum_by
  sum_values-worth [] = refl
  sum_values-worth (u ∷ us) = ground (arith, sum_values-worth us)

  length-one : (us : List Utxo) → length (filter keep us) ≡ sum_by largest_first one us
  unfolding sum_by
  length-one [] = refl
  length-one (u ∷ us) = ground (arith, length-one us)

  sum_values-sorted :
      (us : List Utxo)
      → sum_values (filter keep (sort_by largest_first us)) ≡ sum_values (filter keep us)
  sum_values-sorted us =
      sum_values-worth (sort_by largest_first us)
      ∙ sort_by-sum_by largest_first worth us
      ∙ sym (sum_values-worth us)

  length-sorted :
      (us : List Utxo) → length (filter keep (sort_by largest_first us)) ≡ length (filter keep us)
  length-sorted us =
      length-one (sort_by largest_first us)
      ∙ sort_by-sum_by largest_first one us
      ∙ sym (length-one us)

-- A sufficient choice of outputs gives a sufficient beginning of the sorted list, as long as it is.
Suffices-filter :
    (fee : ℕ → ℕ) (amount : ℕ) (keep : Utxo → Bool) (us : List Utxo)
    → amount + fee (length (filter keep us)) ≤ sum_values (filter keep us)
    → Suffices fee amount 0 0 (sort_by largest_first us) (length (filter keep us))
Suffices-filter fee amount keep us h =
    let n = length (filter keep us) in
    let sorted = sort_by largest_first us in
    let s : sum_values (filter keep us) ≤ sum_values (take n sorted) =
      subst (λ m. sum_values (filter keep us) ≤ sum_values (take m sorted)) (length-sorted keep us)
        (subst (λ v. v ≤ sum_values (take (length (filter keep sorted)) sorted))
          (sum_values-sorted keep us) (filter-take keep sorted (sorted-AtLeast us))) in
    let q : amount + fee n ≤ 0 + sum_values (take n sorted) = omega arith in
    let e : n ≡ 0 + n = omega arith in
    subst (λ m. amount + fee m ≤ 0 + sum_values (take n sorted)) e q

length-sort_by : (us : List Utxo) → length (filter (λ u. true) us) ≡ length us
length-sort_by [] = refl
length-sort_by (u ∷ us) = ap suc (length-sort_by us)

pub length-sorted_all : (us : List Utxo) → length (sort_by largest_first us) ≡ length us
length-sorted_all us =
    sym (length-sort_by (sort_by largest_first us))
    ∙ length-sorted (λ u. true) us
    ∙ length-sort_by us

not-lt : (a b : ℕ) → ¬ (a < b) → b ≤ a
not-lt a b h = omega arith

Chosen-fewest :
    (fee : ℕ → ℕ) (amount k : ℕ) (us : List Utxo) (r : Option (List Utxo × ℕ))
    → Chosen fee amount 0 0 us r
    → 0 < k
    → k ≤ length us
    → Suffices fee amount 0 0 us k
    → (chosen : List Utxo) × (reached : ℕ) × (r ≡ some (chosen, reached)) × (length chosen ≤ k)
Chosen-fewest fee amount k us none c pos bound s = absurd (c k pos bound s)
Chosen-fewest fee amount k us (some (chosen, reached)) (a, b, p, q, t, m) pos bound s =
    (chosen, reached, refl, not-lt k (length chosen) (λ l. m k pos l s))

-- Where some choice of outputs pays for the amount and its fee, the selection succeeds, with no
-- more outputs than that choice has.
pub select_utxos_fewest :
    (fee : ℕ → ℕ) (amount : ℕ) (keep : Utxo → Bool) (us : List Utxo)
    → 0 < length (filter keep us)
    → amount + fee (length (filter keep us)) ≤ sum_values (filter keep us)
    → (chosen : List Utxo) × (reached : ℕ) × (select_utxos fee amount us ≡ some (chosen, reached))
      × (length chosen ≤ length (filter keep us))
unfolding select_utxos
select_utxos_fewest fee amount keep us pos h =
    let sorted = sort_by largest_first us in
    Chosen-fewest fee amount (length (filter keep us)) sorted (choose fee amount 0 0 sorted)
      (choose-Chosen fee amount 0 0 sorted) pos (rw (length-sorted_all us) (length-filter keep us))
      (Suffices-filter fee amount keep us h)
