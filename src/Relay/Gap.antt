-- ===== src/Relay/Gap.antt =====
-- What a reverted transaction leaves behind (backend/src/services/BitcoinHeaderRelayService.ts).
use starknet.Common.{ℕ, ◌≤◌, ◌≡◌, ◌≢◌, some, List, [], ◌∷◌, All}
use starknet.Relay.{World, State, Stored, relay_cycle}

-- One cycle after the other
unfoldable pub relay_cycles : List World → State → State
unfolding relay_cycle
relay_cycles [] s = s
relay_cycles (w ∷ ws) s = relay_cycles ws (relay_cycle w s)

-- The contract holds no header of the height.
abbrev pub Lacks : ℕ → List Stored → Type 0
Lacks h st = All (λ x. x.0 ≢ h) st

-- The contract holds no header of the height, and the persisted height has reached it.
record Misses (h : ℕ) (s : State) : Type 0 where
  last : ℕ
  persisted : s.last_relayed ≡ some last
  reached : h ≤ last
  lacks : Lacks h s.stored
