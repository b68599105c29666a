-- ===== src/Lock/Exclusion.antt =====
-- Mutual exclusion as long as no timer fires.
use starknet.Common.{
  none, some, ◌||◌, ℕ, suc, ◌+◌, ◌≡◌, refl, sym, subst, ap, ◌∙◌, Bool, true, false, List, [], ◌∷◌,
  JsString, ◌===◌, ===_iff, ===_refl, any, if◌then◌else◌, count_if, arith, Bool-cases, inl, inr,
}
use starknet.Lock.{
  with_lock, LockManager, is_key, delete_lock, is_locked, release_lock, set_lock, System, is_task,
  remove_first, enter, leave, Event, entered, refused, left, expired, Step, enters, refuses, leaves,
  expires, Run, done, next,
}

any-delete_same :
    (key : JsString) (ks : List JsString) → any (is_key key) (delete_lock key ks) ≡ false
any-delete_same key [] = refl
any-delete_same key (k ∷ ks) = elim (Bool-cases (k === key)) [
  | inl e ↦ rw e (any-delete_same key ks)
  | inr e ↦ rw (e, e) (any-delete_same key ks)
]

any-delete_other :
    (key other : JsString) (ks : List JsString)
    → (key === other) ≡ false
    → any (is_key other) (delete_lock key ks) ≡ any (is_key other) ks
any-delete_other key other [] h = refl
any-delete_other key other (k ∷ ks) h = elim (Bool-cases (k === key)) [
  | inl e ↦
      let q = subst (λ x. (x === other) ≡ false) (sym ((===_iff k key).0 e)) h in
      rw (e, q) (any-delete_other key other ks h)
  | inr e ↦ rw e (ap (λ b. (k === other) || b) (any-delete_other key other ks h))
]

module _ (key : JsString) (m : LockManager) where
  pub is_locked-release_same : is_locked key (release_lock key m) ≡ false
  unfolding is_locked release_lock
  is_locked-release_same = any-delete_same key m.locks

  pub is_locked-release_other :
      (other : JsString)
      → (key === other) ≡ false
      → is_locked other (release_lock key m) ≡ is_locked other m
  unfolding is_locked release_lock
  is_locked-release_other other h = any-delete_other key other m.locks h

  pub is_locked-set_same : (timer : ℕ) → is_locked key (set_lock key timer m) ≡ true
  unfolding is_locked set_lock
  is_locked-set_same timer = rw (===_refl key) refl

  pub is_locked-set_other :
      (timer : ℕ) (other : JsString)
      → (key === other) ≡ false
      → is_locked other (set_lock key timer m) ≡ is_locked other m
  unfolding is_locked set_lock
  is_locked-set_other timer other h = rw h (any-delete_other key other m.locks h)

-- A key of a running task
abbrev pub on_key : JsString → ℕ × JsString → Bool
on_key key e = is_key key e.1

abbrev pub one_if : Bool → ℕ
one_if b = if b then 1 else 0

-- Each key has one running task if it is locked, and none otherwise.
abbrev pub Exclusive : System → Type 0
Exclusive s = (key : JsString) → count_if (on_key key) s.running ≡ one_if (is_locked key s.manager)

count_if-remove_first {ℓ} :
    {A : Type ℓ} (p q : A → Bool) (b : Bool) (xs : List A)
    → ((x : A) → p x ≡ true → q x ≡ b)
    → any p xs ≡ true
    → count_if q xs ≡ one_if b + count_if q (remove_first p xs)
count_if-remove_first p q b [] same h = cc
count_if-remove_first p q b (x ∷ xs) same h = elim (Bool-cases (p x)) [
  | inl e ↦ let t = same x e in rw (e, t) (ground arith)
  | inr e ↦
      let r = count_if-remove_first p q b xs same (subst (λ c. (c || any p xs) ≡ true) e h) in
      rw (e) (ground arith)
]

is_task-on_key :
    (task : ℕ) (key other : JsString) (x : ℕ × JsString)
    → is_task task key x ≡ true
    → on_key other x ≡ (key === other)
is_task-on_key task key other (t, k) h =
    let q : (k === key) ≡ true = ground arith in ap (λ x. x === other) ((===_iff k key).0 q)

module _ (task : ℕ) (key : JsString) (s : System) (h : Exclusive s) where
  enter_same :
      (timer : ℕ)
      → is_locked key s.manager ≡ false
      → count_if (on_key key) (enter task key timer s).running
        ≡ one_if (is_locked key (set_lock key timer s.manager))
  enter_same timer free =
      let c : count_if (on_key key) s.running ≡ 0 = h key ∙ ap one_if free in
      rw (===_refl key, is_locked-set_same key s.manager timer) (ap suc c)

  enter-Exclusive :
      (timer : ℕ) → is_locked key s.manager ≡ false → Exclusive (enter task key timer s)
  enter-Exclusive timer free other = elim (Bool-cases (key === other)) [
    | inl e ↦
        subst
          (λ k.
            count_if (on_key k) (enter task key timer s).running
            ≡ one_if (is_locked k (set_lock key timer s.manager)))
          ((===_iff key other).0 e) (enter_same timer free)
    | inr e ↦ rw (e, is_locked-set_other key s.manager timer other e) (h other)
  ]

  module _ (found : any (is_task task key) s.running ≡ true) where
    count-leave :
        (other : JsString)
        → one_if (is_locked other s.manager)
          ≡ one_if (key === other) + count_if (on_key other) (leave task key s).running
    count-leave other =
        sym (h other)
        ∙ count_if-remove_first (is_task task key) (on_key other) (key === other) s.running
            (is_task-on_key task key other) found

    leave_same :
        count_if (on_key key) (leave task key s).running
        ≡ one_if (is_locked key (release_lock key s.manager))
    leave_same =
        let c = count-leave key in
        let t = ===_refl key in rw (is_locked-release_same key s.manager) (ground arith)

    leave-Exclusive : Exclusive (leave task key s)
    leave-Exclusive other = elim (Bool-cases (key === other)) [
      | inl e ↦
          subst
            (λ k.
              count_if (on_key k) (leave task key s).running
              ≡ one_if (is_locked k (release_lock key s.manager)))
            ((===_iff key other).0 e) leave_same
      | inr e ↦
          let c = count-leave other in
          rw (is_locked-release_other key s.manager other e) (ground arith)
    ]

abbrev pub is_expiry : Event → Bool
is_expiry (expired key timer) = true
is_expiry (entered task key timer) = false
is_expiry (refused key) = false
is_expiry (left task key) = false

Step-Exclusive :
    (e : Event) (s t : System) → Step e s t → is_expiry e ≡ false → Exclusive s → Exclusive t
Step-Exclusive _ _ _ (enters task key timer s free) n h = enter-Exclusive task key s h timer free
Step-Exclusive _ _ _ (refuses key s locked) n h = h
Step-Exclusive _ _ _ (leaves task key s found) n h = leave-Exclusive task key s h found
Step-Exclusive _ _ _ (expires key timer s set) n h = cc

-- As long as no timer fires, whatever calls enter, are refused and end, in any order, each key has
-- exactly one running function while it is locked and none while it is free.
pub Run-Exclusive :
    (es : List Event) (s t : System)
    → Run es s t
    → any is_expiry es ≡ false
    → Exclusive s
    → Exclusive t
Run-Exclusive _ _ _ (done s) n h = h
Run-Exclusive _ _ _ (next e es s t u step run) n h =
    Run-Exclusive es t u run (ground arith) (Step-Exclusive e s t step (ground arith) h)

module _ {ℓ κ} {S : Type ℓ} {R : Type κ} (key : JsString) (timer : ℕ) (f : S → S × R)
    (m : LockManager) (s : S) where
  with_lock_locked : is_locked key m ≡ true → with_lock key timer f m s ≡ (m, s, none)
  unfolding with_lock
  with_lock_locked e = rw (e, with_lock) refl

  with_lock_free :
      is_locked key m ≡ false
      → with_lock key timer f m s ≡ (release_lock key (set_lock key timer m), (f s).0, some (f s).1)
  unfolding with_lock
  with_lock_free e = rw (e, with_lock) refl

lock-kept :
    (key other : JsString) (timer : ℕ) (m : LockManager)
    → is_locked key m ≡ false
    → is_locked other (release_lock key (set_lock key timer m)) ≡ is_locked other m
lock-kept key other timer m e = elim (Bool-cases (key === other)) [
  | inl q ↦
      subst (λ k. is_locked k (release_lock key (set_lock key timer m)) ≡ is_locked k m)
        ((===_iff key other).0 q) (is_locked-release_same key (set_lock key timer m) ∙ sym e)
  | inr q ↦
      is_locked-release_other key (set_lock key timer m) other q
      ∙ is_locked-set_other key m timer other q
]

-- A function that runs at once under a lock is refused, with nothing changed, where its key is
-- locked; otherwise it runs. Afterwards every key is locked or free as before.
pub with_lock-released {ℓ κ} :
    {S : Type ℓ} {R : Type κ} (key other : JsString) (timer : ℕ) (f : S → S × R) (m : LockManager)
    (s : S)
    → (is_locked other (with_lock key timer f m s).0 ≡ is_locked other m)
      × ((with_lock key timer f m s).1 ≡ (if is_locked key m then s else (f s).0))
      × ((with_lock key timer f m s).2 ≡ (if is_locked key m then none else some (f s).1))
with_lock-released key other timer f m s = elim (Bool-cases (is_locked key m)) [
  | inl e ↦ rw (with_lock_locked key timer f m s e, e) (refl, refl, refl)
  | inr e ↦ rw (with_lock_free key timer f m s e, e) (lock-kept key other timer m e, refl, refl)
]
