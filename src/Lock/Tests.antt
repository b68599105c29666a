-- ===== src/Lock/Tests.antt =====
-- Two tasks on one key (backend/src/middleware/lockManager.ts).
use starknet.Common.{true, false, ◌≡◌, refl, List, [], ◌∷◌, JsString, codes, ◌===◌, ◌==◌, any, ◌&&◌}
use starknet.Lock.{
  no_locks, System, is_locked, set_lock, enter, leave, is_task, Event, entered, refused, left,
  enters, refuses, leaves, Run, done, next,
}
use starknet.Lock.Exclusion.{Exclusive, Run-Exclusive}
use starknet.Lock.Expiry.{overtaken, overtaken_unlocked}

abbrev key : JsString
key = codes "k"

abbrev idle : System
idle = record { manager = no_locks; running = [] }

abbrev held : System
held = enter 1 key 100 idle

idle-Exclusive : Exclusive idle
unfolding is_locked
idle-Exclusive k = refl

abbrev events : List Event
events = entered 1 key 100 ∷ refused key ∷ left 1 key ∷ []

held_locked : is_locked key held.manager ≡ true
unfolding is_locked set_lock ◌===◌
held_locked = refl

task_runs : any (is_task 1 key) held.running ≡ true
unfolding ◌===◌
task_runs = refl

idle_free : is_locked key idle.manager ≡ false
unfolding is_locked
idle_free = refl

events-Run : Run events idle (leave 1 key held)
events-Run =
    next (entered 1 key 100) (refused key ∷ left 1 key ∷ []) idle held (leave 1 key held)
      (enters 1 key 100 idle idle_free)
      (next (refused key) (left 1 key ∷ []) held held (leave 1 key held)
        (refuses key held held_locked)
        (next (left 1 key) [] held (leave 1 key held) (leave 1 key held)
          (leaves 1 key held task_runs) (done (leave 1 key held))))

Run-Exclusive_example : Exclusive (leave 1 key held)
Run-Exclusive_example = Run-Exclusive events idle (leave 1 key held) events-Run refl idle-Exclusive

held_timer : any (λ e. (e.0 === key) && (e.1 == 100)) held.manager.timeouts ≡ true
unfolding set_lock ◌===◌
held_timer = refl

overtaken_unlocked_example :
    (t : System) × Run (overtaken 1 2 key 100 101) held t
    × (is_locked key t.manager ≡ false)
    × (any (is_task 2 key) t.running ≡ true)
overtaken_unlocked_example = overtaken_unlocked 1 2 key 100 101 held task_runs held_timer refl
