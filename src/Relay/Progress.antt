-- ===== src/Relay/Progress.antt =====
-- How far a cycle of backend/src/services/BitcoinHeaderRelayService.ts gets where nothing fails.
use starknet.Common.{ℕ, zero, suc, ◌+◌, ◌-◌, ◌≤◌, ◌≡◌, ap, ◌∙◌, false, some, List, ltb, arith}
use Prim.Native.Nat.{min}
use native.Mathlib.Numerals.{add-one}
use starknet.Relay.{
  World, State, hash_returned, root_words, store_times, set_last_relayed_height, relay_loop,
  start_height, end_height, relay_cycle,
}
use starknet.Relay.Cycle.{cycle_lem}

-- The header of the height is given, and a hash is returned when it is sent.
abbrev pub Reachable : World → ℕ → Type 0
Reachable w h =
    (words : List ℕ) × (root_words w h ≡ some words) × (k : ℕ) × (w.submission h ≡ hash_returned k)

relay_loop_progress :
    (w : World) (n h : ℕ) (s : State)
    → ((k : ℕ) → Reachable w k)
    → (relay_loop w (suc n) h s).last_relayed ≡ some (h + n)
unfolding relay_loop
relay_loop_progress w zero h s r =
    let (words, e, k, a) = r h in rw (e, relay_loop, a) (ap some (omega arith))
relay_loop_progress w (suc n) h s r =
    let (words, e, k, a) = r h in
    rw (e, relay_loop, a)
      (relay_loop_progress w n (h + 1) (set_last_relayed_height h (store_times k h words s)) r
        ∙ ap some (omega arith))

-- Where each header is given and a hash returned for it, a cycle that has something to do moves the persisted height to the tip, or by ten
-- heights if the tip is further away.
pub relay_cycle_progress :
    (w : World) (s : State) (tip : ℕ)
    → w.tip ≡ some tip
    → ((k : ℕ) → Reachable w k)
    → start_height s.last_relayed tip ≤ tip
    → (relay_cycle w s).last_relayed ≡ some (min (start_height s.last_relayed tip + 9) tip)
relay_cycle_progress w s tip e r le =
    let start = start_height s.last_relayed tip in
    let n = end_height start tip - start in
    let due : ltb tip start ≡ false = ground arith in
    rw (cycle_lem w s tip e, due, add-one n)
      (relay_loop_progress w n start s r ∙ ap some (omega arith))
