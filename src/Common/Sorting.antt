-- ===== src/Common/Sorting.antt =====
-- A stable insertion sort by a numeric key, as `ORDER BY` and `sort` of the source need it.
use Prim.Native.Nat.{◌+◌, ℕ}
use mathlib.Core.Path.{ap, ◌∙◌, ◌≡◌, refl}
use mathlib.Core.Bool.{Bool, true, false}
use mathlib.Core.List.{List, [], ◌∷◌, Perm}
use mathlib.Core.List.Perm
use native.Mathlib.Omega.{arith}
use mathlib.Core.Logic.{inl, inr}
use starknet.Common.Tests.{if◌then◌else◌, Bool-cases}
use starknet.Common.Lists.{length, All-map, All, AllPairs}

module _ {ℓ} {A : Type ℓ} (before : A → A → Bool) where
  -- `x` goes before the first element that must not stand before it.
  unfoldable pub insert_sorted : A → List A → List A
  insert_sorted x [] = x ∷ []
  insert_sorted x (y ∷ ys) = if before x y then x ∷ y ∷ ys else y ∷ insert_sorted x ys

  unfoldable pub sort_by : List A → List A
  unfolding insert_sorted
  sort_by [] = []
  sort_by (x ∷ xs) = insert_sorted x (sort_by xs)

  insert_sorted-Perm : (x : A) (xs : List A) → Perm (insert_sorted x xs) (x ∷ xs)
  unfolding insert_sorted
  insert_sorted-Perm x [] = Perm.refl (x ∷ [])
  insert_sorted-Perm x (y ∷ ys) = elim (Bool-cases (before x y)) [
    | inl e ↦ rw e (Perm.refl (x ∷ y ∷ ys))
    | inr e ↦ rw e (Perm.trans (Perm.cons y (insert_sorted-Perm x ys)) (Perm.swap x y ys))
  ]

  -- Sorting keeps the elements.
  pub sort_by-Perm : (xs : List A) → Perm (sort_by xs) xs
  unfolding sort_by
  sort_by-Perm [] = Perm.refl []
  sort_by-Perm (x ∷ xs) =
      Perm.trans (insert_sorted-Perm x (sort_by xs)) (Perm.cons x (sort_by-Perm xs))

  insert_sorted-All {κ} :
      (P : A → Type κ) (x : A) (xs : List A) → P x → All P xs → All P (insert_sorted x xs)
  unfolding insert_sorted
  insert_sorted-All P x [] p h = (p, tt)
  insert_sorted-All P x (y ∷ ys) p h = elim (Bool-cases (before x y)) [
    | inl e ↦ rw e (p, h)
    | inr e ↦ rw e (h.0, insert_sorted-All P x ys p h.1)
  ]

  pub sort_by-All {κ} : (P : A → Type κ) (xs : List A) → All P xs → All P (sort_by xs)
  unfolding sort_by
  sort_by-All P [] h = tt
  sort_by-All P (x ∷ xs) h = insert_sorted-All P x (sort_by xs) h.0 (sort_by-All P xs h.1)

  module _ {κ} (R : A → A → Type κ) (symm : (a b : A) → R a b → R b a) where
    insert_sorted-AllPairs :
        (x : A) (xs : List A) → All (R x) xs → AllPairs R xs → AllPairs R (insert_sorted x xs)
    unfolding insert_sorted
    insert_sorted-AllPairs x [] h k = (tt, tt)
    insert_sorted-AllPairs x (y ∷ ys) h k = elim (Bool-cases (before x y)) [
      | inl e ↦ rw e (h, k)
      | inr e ↦
          rw e
            (insert_sorted-All (R y) x ys (symm x y h.0) k.0, insert_sorted-AllPairs x ys h.1 k.1)
    ]

    -- A symmetric relation between all elements is kept by sorting.
    pub sort_by-AllPairs : (xs : List A) → AllPairs R xs → AllPairs R (sort_by xs)
    unfolding sort_by
    sort_by-AllPairs [] h = tt
    sort_by-AllPairs (x ∷ xs) h =
        insert_sorted-AllPairs x (sort_by xs) (sort_by-All (R x) xs h.0) (sort_by-AllPairs xs h.1)

  -- The elements' weights under `f`, added up.
  unfoldable pub sum_by : (A → ℕ) → List A → ℕ
  sum_by f [] = 0
  sum_by f (x ∷ xs) = f x + sum_by f xs

  insert_sorted-sum_by :
      (f : A → ℕ) (x : A) (xs : List A) → sum_by f (insert_sorted x xs) ≡ f x + sum_by f xs
  unfolding insert_sorted sum_by
  insert_sorted-sum_by f x [] = refl
  insert_sorted-sum_by f x (y ∷ ys) = elim (Bool-cases (before x y)) [
    | inl e ↦ rw e refl
    | inr e ↦ rw e (rw (insert_sorted-sum_by f x ys) (omega arith))
  ]

  pub sort_by-sum_by : (f : A → ℕ) (xs : List A) → sum_by f (sort_by xs) ≡ sum_by f xs
  unfolding sort_by sum_by
  sort_by-sum_by f [] = refl
  sort_by-sum_by f (x ∷ xs) =
      insert_sorted-sum_by f x (sort_by xs) ∙ ap (λ n. f x + n) (sort_by-sum_by f xs)

  module _ {κ} (R : A → A → Type κ) (trans : (a b c : A) → R a b → R b c → R a c)
      (first : (a b : A) → before a b ≡ true → R a b)
      (last : (a b : A) → before a b ≡ false → R b a) where
    insert_sorted-Ordered : (x : A) (xs : List A) → AllPairs R xs → AllPairs R (insert_sorted x xs)
    unfolding insert_sorted
    insert_sorted-Ordered x [] k = (tt, tt)
    insert_sorted-Ordered x (y ∷ ys) k = elim (Bool-cases (before x y)) [
      | inl e ↦
          rw e ((first x y e, All-map (R y) (R x) (λ z h. trans x y z (first x y e) h) ys k.0), k)
      | inr e ↦ rw e (insert_sorted-All (R y) x ys (last x y e) k.0, insert_sorted-Ordered x ys k.1)
    ]

    -- A sorted list is in order.
    pub sort_by-Ordered : (xs : List A) → AllPairs R (sort_by xs)
    unfolding sort_by
    sort_by-Ordered [] = tt
    sort_by-Ordered (x ∷ xs) = insert_sorted-Ordered x (sort_by xs) (sort_by-Ordered xs)

module _ {ℓ} {A : Type ℓ} (before : A → A → Bool) where
  length-insert_sorted : (x : A) (xs : List A) → length (insert_sorted before x xs) ≡ length xs + 1
  unfolding insert_sorted
  length-insert_sorted x [] = omega arith
  length-insert_sorted x (y ∷ ys) = ground (arith, length-insert_sorted x ys)

  pub length-sort_by : (xs : List A) → length (sort_by before xs) ≡ length xs
  unfolding sort_by
  length-sort_by [] = refl
  length-sort_by (x ∷ xs) =
      omega (arith, length-insert_sorted x (sort_by before xs), length-sort_by xs)
