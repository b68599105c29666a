-- ===== src/Lock.antt =====
-- backend/src/middleware/lockManager.ts: the in-memory locks on keys, their 30-second timers, and the
-- tasks that run under them.
pub mod Exclusion
pub mod Expiry
mod Tests
use starknet.Common.{
  ℕ, ◌≡◌, Option, none, some, Bool, true, false, not, ◌&&◌, List, [], ◌∷◌, JsString, ◌===◌, ◌==◌,
  any, filter, if◌then◌else◌,
}

-- The two maps: the locked keys, and the timer of each key.
pub record LockManager : Type 0 where
  pub locks : List JsString
  pub timeouts : List (JsString × ℕ)

abbrev pub no_locks : LockManager
no_locks = record { locks = []; timeouts = [] }

abbrev pub is_key : JsString → JsString → Bool
is_key key k = k === key

-- `Map.delete` of the locks
abbrev pub delete_lock : JsString → List JsString → List JsString
delete_lock key = filter (λ k. not (is_key key k))

abbrev pub delete_timeout : JsString → List (JsString × ℕ) → List (JsString × ℕ)
delete_timeout key = filter (λ e. not (is_key key e.0))

unfoldable pub is_locked : JsString → LockManager → Bool
is_locked key m = any (is_key key) m.locks

-- `releaseLock`
unfoldable pub release_lock : JsString → LockManager → LockManager
release_lock key m = record {
  locks = delete_lock key m.locks;
  timeouts = delete_timeout key m.timeouts;
}

-- `withLock` up to the call of its function: the lock is set, and its timer.
unfoldable pub set_lock : JsString → ℕ → LockManager → LockManager
set_lock key timer m = record {
  locks = key ∷ delete_lock key m.locks;
  timeouts = (key, timer) ∷ delete_timeout key m.timeouts;
}

-- `withLock` around a function that does not wait: it runs at once. `none` where the key is locked.
unfoldable pub with_lock {ℓ κ} :
    {S : Type ℓ} {R : Type κ}
    → JsString
    → ℕ
    → (S → S × R)
    → LockManager
    → S
    → LockManager × S × Option R
unfolding is_locked release_lock set_lock
with_lock key timer f m s =
    let (s', r) = f s in
    if is_locked key m then (m, s, none) else (release_lock key (set_lock key timer m), s', some r)

-- The timer's callback
unfoldable pub force_release : JsString → LockManager → LockManager
unfolding is_locked release_lock
force_release key m = if is_locked key m then release_lock key m else m

-- The locks, and the functions that run under one: a task's number and its key.
pub record System : Type 0 where
  pub manager : LockManager
  pub running : List (ℕ × JsString)

abbrev pub is_task : ℕ → JsString → ℕ × JsString → Bool
is_task task key e = (e.0 == task) && is_key key e.1

abbrev pub remove_first {ℓ} : {A : Type ℓ} → (A → Bool) → List A → List A
remove_first p [] = []
remove_first p (x ∷ xs) = if p x then xs else x ∷ remove_first p xs

abbrev pub enter : ℕ → JsString → ℕ → System → System
enter task key timer s = record {
  manager = set_lock key timer s.manager;
  running = (task, key) ∷ s.running;
}

-- The function returned or threw: `finally`.
abbrev pub leave : ℕ → JsString → System → System
leave task key s = record {
  manager = release_lock key s.manager;
  running = remove_first (is_task task key) s.running;
}

abbrev pub expire : JsString → System → System
expire key s = record s { manager = force_release key s.manager }

pub data Event : Type 0 where
  entered : ℕ → JsString → ℕ → Event
  refused : JsString → Event
  left : ℕ → JsString → Event
  expired : JsString → ℕ → Event

-- What may happen: a call enters where its key is free and is refused where it is not, a running
-- function ends, and a timer that is still set fires.
pub data Step : Event → System → System → Type 0 where
  enters :
      (task : ℕ) (key : JsString) (timer : ℕ) (s : System)
      → is_locked key s.manager ≡ false
      → Step (entered task key timer) s (enter task key timer s)
  refuses : (key : JsString) (s : System) → is_locked key s.manager ≡ true → Step (refused key) s s
  leaves :
      (task : ℕ) (key : JsString) (s : System)
      → any (is_task task key) s.running ≡ true
      → Step (left task key) s (leave task key s)
  expires :
      (key : JsString) (timer : ℕ) (s : System)
      → any (λ e. is_key key e.0 && (e.1 == timer)) s.manager.timeouts ≡ true
      → Step (expired key timer) s (expire key s)

pub data Run : List Event → System → System → Type 0 where
  done : (s : System) → Run [] s s
  next : (e : Event) (es : List Event) (s t u : System) → Step e s t → Run es t u → Run (e ∷ es) s u
