-- ===== src/Lock/Expiry.antt =====
-- What a timer that fires does to the functions that still run.
use starknet.Common.{
  ==_refl, ℕ, ◌≡◌, refl, Bool, true, false, ◌&&◌, List, [], ◌∷◌, JsString, ===_refl, ◌==◌, any,
  arith, Bool-cases, inl, inr,
}
use starknet.Lock.{
  LockManager, is_key, is_locked, force_release, System, is_task, enter, leave, expire, Event,
  entered, left, expired, enters, leaves, expires, Run, done, next,
}
use starknet.Lock.Exclusion.{is_locked-release_same}

is_locked-force_release :
    (key : JsString) (m : LockManager) → is_locked key (force_release key m) ≡ false
unfolding force_release
is_locked-force_release key m = elim (Bool-cases (is_locked key m)) [
  | inl e ↦ rw e (is_locked-release_same key m)
  | inr e ↦ rw (e, e) refl
]

still_runs {ℓ} :
    {A : Type ℓ} (x : A) (p : A → Bool) (xs : List A) → any p xs ≡ true → any p (x ∷ xs) ≡ true
still_runs x p xs h = ground arith

-- The events: the first task's timer fires, another enters, and the first ends.
abbrev pub overtaken : ℕ → ℕ → JsString → ℕ → ℕ → List Event
overtaken first second key timer timer' =
    expired key timer ∷ entered second key timer' ∷ left first key ∷ []

-- Where a function outlives its timer, the next call on the key enters while it runs, and when the
-- first function ends, its `finally` frees the lock of the second, which still runs.
pub overtaken_unlocked :
    (first second : ℕ) (key : JsString) (timer timer' : ℕ) (s : System)
    → any (is_task first key) s.running ≡ true
    → any (λ e. is_key key e.0 && (e.1 == timer)) s.manager.timeouts ≡ true
    → (second == first) ≡ false
    → (t : System) × Run (overtaken first second key timer timer') s t
      × (is_locked key t.manager ≡ false)
      × (any (is_task second key) t.running ≡ true)
overtaken_unlocked first second key timer timer' s runs set ne =
    let s1 = expire key s in
    let s2 = enter second key timer' s1 in
    let s3 = leave first key s2 in
    (
      s3,
      next (expired key timer) (entered second key timer' ∷ left first key ∷ []) s s1 s3
          (expires key timer s set)
          (next (entered second key timer') (left first key ∷ []) s1 s2 s3
            (enters second key timer' s1 (is_locked-force_release key s.manager))
            (next (left first key) [] s2 s3 s3
              (leaves first key s2 (still_runs (second, key) (is_task first key) s.running runs))
              (done s3))),
      is_locked-release_same key s2.manager,
      (rw (ne, ==_refl second, ===_refl key) refl),
    )
