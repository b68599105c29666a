-- ===== src/Relay/Cycle.antt =====
-- The cycle of the header relay: no gaps, genuine roots, bounds and progress
-- (backend/src/services/BitcoinHeaderRelayService.ts).
use starknet.Common.{
  replicate, ap, All-map, All-append, ℕ, zero, suc, ◌+◌, ◌-◌, ◌≤◌, ◌<◌, ◌≡◌, refl, sym, ◌∙◌, Option,
  none, some, List, [], ◌∷◌, ◌++◌, ltb, if◌then◌else◌, arith, All, Option-cases, Bool-cases, inl,
  inr, ◌⊎◌,
}
use mathlib.Core.List.{append_assoc}
use starknet.Relay.{
  World, State, Stored, Submission, hash_returned, error_thrown, root_words, store_times,
  set_last_relayed_height, relay_loop, start_height, end_height, relay_cycle,
}

-- Each stored header is of the height of the one before it, or of the next.
abbrev pub Chain : List Stored → Type 0
Chain [] = Unit
Chain (x ∷ []) = Unit
Chain (x ∷ y ∷ r) = (y.0 ≤ x.0) × (x.0 ≤ y.0 + 1) × Chain (y ∷ r)

-- The persisted height is that of the latest stored header, or one less if an answer was lost.
abbrev pub Agrees : Option ℕ → List Stored → Type 0
Agrees none [] = Unit
Agrees none (x ∷ r) = ⊥
Agrees (some l) [] = Unit
Agrees (some l) (x ∷ r) = (l ≤ x.0) × (x.0 ≤ l + 1)

pub record IsTracked (s : State) : Type 0 where
  pub chain : Chain s.stored
  pub agrees : Agrees s.last_relayed s.stored

-- `h` is the height to store next.
abbrev IsNext : ℕ → Option ℕ → Type 0
IsNext h none = Unit
IsNext h (some l) = h ≡ l + 1

-- Every transaction whose hash was returned is executed in the end, and in the first cycle no transaction
-- whose answer was lost is: it would start over at a later tip.
abbrev pub IsSettled : World → Option ℕ → Type 0
IsSettled w none =
    ((h k : ℕ) → w.submission h ≡ hash_returned k → 0 < k)
    × ((h k : ℕ) → w.submission h ≡ error_thrown k → k ≡ 0)
IsSettled w (some l) = (h k : ℕ) → w.submission h ≡ hash_returned k → 0 < k

pub Submission-cases :
    (x : Submission) → ((k : ℕ) × (x ≡ hash_returned k)) ⊎ ((k : ℕ) × (x ≡ error_thrown k))
Submission-cases (hash_returned k) = inl (k, refl)
Submission-cases (error_thrown k) = inr (k, refl)

pub last_relayed-store_times :
    (k h : ℕ) (words : List ℕ) (s : State) → (store_times k h words s).last_relayed ≡ s.last_relayed
last_relayed-store_times zero h words s = refl
last_relayed-store_times (suc k) h words s = last_relayed-store_times k h words s

-- A stored header is genuine: it holds the merkle root of the header that the explorer gave for its
-- height, and lies between two heights.
abbrev pub Genuine : World → ℕ → ℕ → Stored → Type 0
Genuine w from to x = (root_words w x.0 ≡ some x.1) × (from ≤ x.0) × (x.0 < to)

-- What a loop adds.
abbrev Adds : World → ℕ → ℕ → List Stored → List Stored → Type 0
Adds w h n before after =
    (new : List Stored) × (after ≡ new ++ before) × All (Genuine w h (h + n)) new

Genuine-later :
    (w : World) (h n : ℕ) (xs : List Stored)
    → All (Genuine w (h + 1) (h + 1 + n)) xs
    → All (Genuine w h (h + suc n)) xs
Genuine-later w h n [] a = tt
Genuine-later w h n (x ∷ xs) a = ((a.0.0, omega arith, omega arith), Genuine-later w h n xs a.1)

All-replicate {κ} : (P : Stored → Type κ) (k : ℕ) (x : Stored) → P x → All P (replicate k x)
All-replicate P zero x p = tt
All-replicate P (suc k) x p = (p, All-replicate P k x p)

stored-store_times :
    (k h : ℕ) (words : List ℕ) (s : State)
    → (store_times k h words s).stored ≡ replicate k (h, words) ++ s.stored
stored-store_times zero h words s = refl
stored-store_times (suc k) h words s = ap (λ r. (h, words) ∷ r) (stored-store_times k h words s)

Adds-times :
    (w : World) (n h k : ℕ) (words : List ℕ) (s : State) (after : List Stored)
    → root_words w h ≡ some words
    → Adds w (h + 1) n (store_times k h words s).stored after
    → Adds w h (suc n) s.stored after
Adds-times w n h k words s after e (new, q, g) = (
  new ++ replicate k (h, words),
  q
      ∙ ap (λ r. new ++ r) (stored-store_times k h words s)
      ∙ sym (append_assoc new (replicate k (h, words)) s.stored),
  All-append (Genuine w h (h + suc n)) new (replicate k (h, words)) (Genuine-later w h n new g)
      (All-replicate (Genuine w h (h + suc n)) k (h, words) (e, omega arith, omega arith)),
)

relay_loop-Adds :
    (w : World) (n h : ℕ) (s : State) → Adds w h n s.stored (relay_loop w n h s).stored
unfolding relay_loop
relay_loop-Adds w zero h s = ([], refl, tt)
relay_loop-Adds w (suc n) h s = elim (Option-cases (root_words w h)) [
  | inl e ↦ rw (e, relay_loop) ([], refl, tt)
  | inr (words, e) ↦ elim (Submission-cases (w.submission h)) [
    | inl (k, a) ↦
        rw (e, relay_loop, a)
          (Adds-times w n h k words s
            (relay_loop w n (h + 1) (set_last_relayed_height h (store_times k h words s))).stored e
            (relay_loop-Adds w n (h + 1) (set_last_relayed_height h (store_times k h words s))))
    | inr (k, a) ↦
        rw (e, relay_loop, a)
          (Adds-times w n h k words s (store_times k h words s).stored e ([], refl, tt))
  ]
]

-- A cycle that knows the tip.
pub cycle_lem :
    (w : World) (s : State) (tip : ℕ)
    → w.tip ≡ some tip
    → relay_cycle w s ≡ (
        if ltb tip (start_height s.last_relayed tip)
        then s
        else relay_loop w
            (end_height (start_height s.last_relayed tip) tip - start_height s.last_relayed tip + 1)
            (start_height s.last_relayed tip)
            s)
unfolding relay_cycle
cycle_lem w s tip e = ground arith

-- Each header that a cycle sends has the merkle root of the header that the explorer gave for its height,
-- which lies between the next one and the tip; nothing else is sent.
pub relay_cycle-Adds :
    (w : World) (s : State) (tip : ℕ)
    → w.tip ≡ some tip
    → (new : List Stored) × ((relay_cycle w s).stored ≡ new ++ s.stored)
      × All (Genuine w (start_height s.last_relayed tip) (tip + 1)) new
relay_cycle-Adds w s tip e =
    let start = start_height s.last_relayed tip in
    let n = end_height start tip - start + 1 in
    rw (cycle_lem w s tip e) (elim (Bool-cases (ltb tip start)) [
      | inl late ↦ rw late ([], refl, tt)
      | inr due ↦ rw due (widen start n (ground arith) (relay_loop-Adds w n start s))
    ])
  where
    widen :
        (start n : ℕ)
        → start + n ≤ tip + 1
        → {after : List Stored} → Adds w start n s.stored after
        → (new : List Stored) × (after ≡ new ++ s.stored) × All (Genuine w start (tip + 1)) new
    widen start n b (new, q, g) = (
      new,
      q,
      All-map (Genuine w start (start + n)) (Genuine w start (tip + 1))
          (λ x k. (k.0, k.1, omega arith)) new g,
    )
