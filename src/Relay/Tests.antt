-- ===== src/Relay/Tests.antt =====
-- Concrete cycles of the relay (backend/src/services/BitcoinHeaderRelayService.ts).
use starknet.Common.{◌-◌, ℕ, zero, suc, ◌≡◌, refl, some, [], ◌∷◌, JsString, arith}
use starknet.Spv.{merkle_root_to_u32_array, parse_merkle_root_from_header}
use starknet.Transaction.Hex.{from_hex}
use starknet.Relay.{State, World, hash_returned, root_words, relay_cycle}
use starknet.Relay.Progress.{Reachable, relay_cycle_progress}

abbrev some_digits : ℕ → JsString
some_digits zero = []
some_digits (suc n) = 48 ∷ some_digits n

abbrev good_world : World
good_world = record {
  tip = some 20;
  header = λ h. some (some_digits 160);
  submission = λ h. hash_returned 1;
}

abbrev behind : State
behind = record { last_relayed = some 5; stored = (5, []) ∷ [] }

all-Reachable : (k : ℕ) → Reachable good_world k
unfolding root_words parse_merkle_root_from_header merkle_root_to_u32_array from_hex
all-Reachable k = (0 ∷ 0 ∷ 0 ∷ 0 ∷ 0 ∷ 0 ∷ 0 ∷ 0 ∷ [], refl, 1, refl)

relay_cycle_progress_example : (relay_cycle good_world behind).last_relayed ≡ some 15
relay_cycle_progress_example =
    relay_cycle_progress good_world behind 20 refl all-Reachable (omega arith)

-- The first transaction of the cycle is reverted.
abbrev reverting_world : World
reverting_world = record good_world { submission = λ h. hash_returned (h - 6) }
