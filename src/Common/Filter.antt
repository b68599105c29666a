-- ===== src/Common/Filter.antt =====
-- Filters over lists, sorted ones among them.
use mathlib.Core.Path.{◌≡◌, refl, sym, ap, ◌∙◌}
use mathlib.Core.Logic.{inl, inr}
use mathlib.Core.Bool.{Bool, true, false, ◌&&◌}
use mathlib.Core.List.{List, [], ◌∷◌}
use native.Mathlib.Omega.{arith}
use starknet.Common.Tests.{Bool-cases}
use starknet.Common.Lists.{filter, All, All-map, All-filter, AllPairs}
use starknet.Common.Sorting.{insert_sorted, sort_by, sort_by-Ordered}

module _ {ℓ} {A : Type ℓ} where
  pub filter_and :
      (p q : A → Bool) (xs : List A) → filter (λ x. p x && q x) xs ≡ filter q (filter p xs)
  filter_and p q [] = refl
  filter_and p q (x ∷ xs) = ground (arith, filter_and p q xs)

  -- A stronger test sees no difference.
  pub filter_weaken :
      (p q : A → Bool)
      → ((x : A) → q x ≡ true → p x ≡ true)
      → (xs : List A) → filter q (filter p xs) ≡ filter q xs
  filter_weaken p q h [] = refl
  filter_weaken p q h (x ∷ xs) = ground (arith, h x, filter_weaken p q h xs)

  pub filter_passing : (p : A → Bool) (xs : List A) → All (λ x. p x ≡ true) xs → filter p xs ≡ xs
  filter_passing p [] h = refl
  filter_passing p (x ∷ xs) h = ground (arith, h.0, filter_passing p xs h.1)

  pub filter_passes : (p : A → Bool) (xs : List A) → All (λ x. p x ≡ true) (filter p xs)
  filter_passes p [] = tt
  filter_passes p (x ∷ xs) = elim (Bool-cases (p x)) [
    | inl e ↦ rw e (e, filter_passes p xs)
    | inr e ↦ rw e (filter_passes p xs)
  ]

  module _ (before : A → A → Bool)
      (trans : (a b c : A) → before a b ≡ true → before b c ≡ true → before a c ≡ true)
      (total : (a b : A) → before a b ≡ false → before b a ≡ true) where
    abbrev Before : A → A → Type 0
    Before a b = before a b ≡ true

    insert_first : (x : A) (xs : List A) → All (Before x) xs → insert_sorted before x xs ≡ x ∷ xs
    unfolding insert_sorted
    insert_first x [] h = refl
    insert_first x (y ∷ ys) h = rw h.0 refl

    filter-insert_kept :
        (p : A → Bool) (x : A) (xs : List A)
        → p x ≡ true
        → AllPairs Before xs
        → filter p (insert_sorted before x xs) ≡ insert_sorted before x (filter p xs)
    unfolding insert_sorted
    filter-insert_kept p x [] e o = rw e refl
    filter-insert_kept p x (y ∷ ys) e o = elim (Bool-cases (before x y)) [
      | inl f ↦
          let all : All (Before x) (y ∷ ys) =
            (f, All-map (Before y) (Before x) (λ z g. trans x y z f g) ys o.0) in
          rw (f, e, insert_first x (filter p (y ∷ ys)) (All-filter (Before x) p (y ∷ ys) all))
      | inr f ↦ ground (arith, f, filter-insert_kept p x ys e o.1)
    ]

    filter-insert_dropped :
        (p : A → Bool) (x : A) (xs : List A)
        → p x ≡ false
        → filter p (insert_sorted before x xs) ≡ filter p xs
    unfolding insert_sorted
    filter-insert_dropped p x [] e = ground (arith, e)
    filter-insert_dropped p x (y ∷ ys) e = ground (arith, e, filter-insert_dropped p x ys)

    -- Sorting and filtering may be exchanged.
    pub sort_by-filter :
        (p : A → Bool) (xs : List A) → sort_by before (filter p xs) ≡ filter p (sort_by before xs)
    unfolding sort_by
    sort_by-filter p [] = refl
    sort_by-filter p (x ∷ xs) = elim (Bool-cases (p x)) [
      | inl e ↦
          rw e (ap (insert_sorted before x) (sort_by-filter p xs))
          ∙ sym (
              filter-insert_kept p x (sort_by before xs) e
                (sort_by-Ordered before Before trans (λ a b h. h) total xs))
      | inr e ↦ rw e (sort_by-filter p xs) ∙ sym (filter-insert_dropped p x (sort_by before xs) e)
    ]
