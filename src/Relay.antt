-- ===== src/Relay.antt =====
-- backend/src/services/BitcoinHeaderRelayService.ts: the relay of Bitcoin block headers to the
-- HeaderStore contract. What the explorer and the chain answer is an argument.
pub mod Cycle
pub mod Progress
pub mod Gap
pub mod Retry
pub mod Header
mod Tests
use starknet.Common.{
  codes, includes, get_or_else, ◌||◌, ℕ, zero, suc, ◌+◌, ◌-◌, ◌*◌, ◌^◌, Bool, true, false, Option,
  none, some, List, [], ◌∷◌, ◌++◌, JsString, ltb, leb, if◌then◌else◌,
}
use Prim.Native.Nat.{min}
use starknet.Spv.{merkle_root_to_u32_array, parse_merkle_root_from_header}
use starknet.Transaction.{◌>>=◌}

-- A header stored by the contract: its height and its merkle root.
abbrev pub Stored : Type 0
Stored = ℕ × List ℕ

-- The persisted height (`none` stands for -1, no row), and what the contract has been sent, the latest
-- first.
pub record State : Type 0 where
  pub last_relayed : Option ℕ
  pub stored : List Stored

-- How `relayHeader` ends, with the number of its transactions that the contract executes: it returns the
-- hash of the first one that the node takes, without waiting for it, so that this one may still be reverted,
-- and of those whose answer was lost, which it sent again, each may be executed as well.
pub data Submission : Type 0 where
  hash_returned error_thrown : ℕ → Submission

-- What the outside answers in one cycle: the height of the tip, each header's text, each submission.
pub record World : Type 0 where
  pub tip : Option ℕ
  pub header : ℕ → Option JsString
  pub submission : ℕ → Submission

-- The words that are sent for a height.
unfoldable pub root_words : World → ℕ → Option (List ℕ)
root_words w h = do
  header_hex ← w.header h
  merkle_root ← parse_merkle_root_from_header header_hex
  merkle_root_to_u32_array merkle_root

abbrev pub store : ℕ → List ℕ → State → State
store h words s = record s { stored = (h, words) ∷ s.stored }

-- What the contract has been sent once `k` transactions with the same header are executed.
abbrev pub store_times : ℕ → ℕ → List ℕ → State → State
store_times zero h words s = s
store_times (suc k) h words s = store h words (store_times k h words s)

abbrev pub set_last_relayed_height : ℕ → State → State
set_last_relayed_height h s = record s { last_relayed = some h }

-- The loop over the heights, by the number of rounds left; an error ends it.
unfoldable pub relay_loop : World → ℕ → ℕ → State → State
relay_loop w zero h s = s
relay_loop w (suc n) h s = elim (root_words w h) [
  | none ↦ s
  | some words ↦ elim (w.submission h) [
    | hash_returned k ↦ relay_loop w n (h + 1) (set_last_relayed_height h (store_times k h words s))
    | error_thrown k ↦ store_times k h words s
  ]
]

abbrev pub start_height : Option ℕ → ℕ → ℕ
start_height none tip = tip
start_height (some last) tip = last + 1

abbrev pub end_height : ℕ → ℕ → ℕ
end_height start tip = min (start + 9) tip

-- `relayCycle`
unfoldable pub relay_cycle : World → State → State
unfolding relay_loop root_words
relay_cycle w s = elim w.tip [
  | none ↦ s
  | some tip ↦
      let start = start_height s.last_relayed tip in
      if ltb tip start then s else relay_loop w (end_height start tip - start + 1) start s
]

-- Retrying a call up to `retries` times: the attempt numbered `attempt` is made when all before it
-- failed. The pauses before each further attempt are collected, in milliseconds.
unfoldable pub with_retries {ℓ} : {A : Type ℓ} → ℕ → (ℕ → Option A) → ℕ → Option A × List ℕ
with_retries zero call attempt = (none, [])
with_retries (suc n) call attempt = elim (call attempt) [
  | some a ↦ (some a, [])
  | none ↦
      let (r, pauses) = with_retries n call (attempt + 1) in
      (r, if ltb 0 n then min (500 * 2 ^ attempt) 5000 ∷ pauses else pauses)
]

-- `fetchBlockHashAtHeight`, `fetchBlockHeader` and `fetchTipHeight`: three attempts each, by what the
-- explorer answers each time (`none` for a status that is not OK, an error or the time-out).
unfoldable pub fetch_block_hash_at_height : (ℕ → Option JsString) → Option JsString × List ℕ
unfolding with_retries
fetch_block_hash_at_height answers = with_retries 3 answers 0

unfoldable pub fetch_block_header : (ℕ → Option JsString) → Option JsString × List ℕ
unfolding with_retries
fetch_block_header answers = with_retries 3 answers 0

unfoldable pub fetch_tip_height : (ℕ → Option JsString) → Option JsString × List ℕ
unfolding with_retries
fetch_tip_height answers = with_retries 3 answers 0

-- What one attempt to send `store_header` ends with: its transaction hash, or an error's message.
pub data Execution : Type 0 where
  transaction_hash : JsString → Execution
  execution_error : JsString → Execution

-- Funding issues are not retried.
unfoldable pub is_permanent : JsString → Bool
is_permanent message =
    includes message (codes "insufficient") || includes message (codes "balance is smaller")

-- The loop of `relayHeader` by the attempts left, with the pauses made, in milliseconds.
unfoldable pub relay_header : ℕ → (ℕ → Execution) → ℕ → Option JsString → Execution × List ℕ
unfolding is_permanent
relay_header zero execute attempt last_error =
    (execution_error (get_or_else last_error (codes "Failed to relay header after retries")), [])
relay_header (suc n) execute attempt last_error = elim (execute attempt) [
  | transaction_hash hash ↦ (transaction_hash hash, [])
  | execution_error message ↦
      let (r, pauses) = relay_header n execute (attempt + 1) (some message) in
      if is_permanent message
      then (execution_error message, [])
      else (r, if ltb 0 n then min (1000 * 2 ^ attempt) 10000 ∷ pauses else pauses)
]
