-- ===== src/Calldata.antt =====
-- The calls of the contracts in backend/src/services/StarknetService.ts: executeDeposit, executeSpvDeposit
-- and withdraw, with the elements of their calldata.
pub mod Decode
mod Tests
use starknet.Common.{
  true, false, ◌&&◌, ℕ, ◌+◌, ◌/◌, ◌%◌, ◌^◌, Bool, Option, none, some, List, [], ◌∷◌, ◌++◌, map,
  JsString, codes, includes, to_lower_case, ◌||◌, length, if◌then◌else◌,
}

-- An element of the calldata: a number, which the source writes in decimal, or a text that it passes on.
pub data Felt : Type 0 where
  number : ℕ → Felt
  text : JsString → Felt

pub record Call : Type 0 where
  pub contract_address : JsString
  pub entrypoint : JsString
  pub calldata : List Felt

pub record Config : Type 0 where
  pub vault_contract : JsString
  pub mockbtc_contract : JsString

-- `uint256.bnToUint256`
abbrev pub low : ℕ → ℕ
low n = n % 2 ^ 128

abbrev pub high : ℕ → ℕ
high n = n / 2 ^ 128

-- The two calls of `executeDeposit`
unfoldable pub deposit_calls : Config → JsString → ℕ → List Call
deposit_calls c commitment amount =
    record {
      contract_address = c.mockbtc_contract;
      entrypoint = codes "mint";
      calldata = text c.vault_contract ∷ number (low amount) ∷ number (high amount) ∷ [];
    }
    ∷ record {
      contract_address = c.vault_contract;
      entrypoint = codes "deposit";
      calldata = text commitment ∷ [];
    }
    ∷ []

-- `words.flatMap`
abbrev pub flatten : List (List ℕ) → List Felt
flatten [] = []
flatten (ws ∷ wss) = map number ws ++ flatten wss

pub record SpvParams : Type 0 where
  pub commitment : JsString
  pub block_height : ℕ
  pub tx_pos : ℕ
  pub raw_tx_bytes : List ℕ
  pub vout_index : ℕ
  pub merkle_proof_words : List (List ℕ)

-- `rawTxSpan` and `merkleSpan`: a span is its length and its elements.
abbrev pub raw_tx_span : List ℕ → List Felt
raw_tx_span bs = number (length bs) ∷ map number bs

abbrev pub merkle_span : List (List ℕ) → List Felt
merkle_span wss = number (length wss) ∷ flatten wss

unfoldable pub spv_calldata : SpvParams → List Felt
spv_calldata p =
    text p.commitment
    ∷ number p.block_height
    ∷ number p.tx_pos
    ∷ (raw_tx_span p.raw_tx_bytes ++ number p.vout_index ∷ merkle_span p.merkle_proof_words)

unfoldable pub spv_deposit_call : Config → SpvParams → Call
unfolding spv_calldata
spv_deposit_call c p = record {
  contract_address = c.vault_contract;
  entrypoint = codes "deposit";
  calldata = spv_calldata p;
}

pub record WithdrawParams : Type 0 where
  pub nullifier_hash : JsString
  pub proof : List JsString
  pub recipient : JsString
  pub amount : ℕ

unfoldable pub withdraw_calldata : WithdrawParams → List Felt
withdraw_calldata p =
    text p.nullifier_hash
    ∷ number (length p.proof)
    ∷ (map text p.proof ++ text p.recipient ∷ number (low p.amount) ∷ number (high p.amount) ∷ [])

unfoldable pub withdraw_call : Config → WithdrawParams → Call
unfolding withdraw_calldata
withdraw_call c p = record {
  contract_address = c.vault_contract;
  entrypoint = codes "withdraw";
  calldata = withdraw_calldata p;
}

-- What `account.execute` ends with: the hash of the transaction, or the message of an error.
pub data Executed : Type 0 where
  sent : JsString → Executed
  not_sent : JsString → Executed

-- The error that a method throws: `balance` says whether it looks for the text on the balance too, and
-- `prefix` is what it introduces another error with.
abbrev pub execution_error : Bool → JsString → JsString → JsString
execution_error balance prefix m =
    let lower = to_lower_case m in
    if (balance && includes lower (codes "balance is smaller"))
      || includes lower (codes "insufficient")
    then codes "INSUFFICIENT SEPOLIA ETH"
    else prefix ++ m

abbrev pub rethrow : Bool → JsString → Executed → Executed
rethrow balance prefix (sent hash) = sent hash
rethrow balance prefix (not_sent m) = not_sent (execution_error balance prefix m)

-- The account of the server, if it is configured.
abbrev pub Account : Type 0
Account = Option (List Call → Executed)

abbrev pub submit : Bool → JsString → Account → List Call → Executed
submit balance prefix none calls =
    not_sent (codes "INSUFFICIENT SEPOLIA ETH: No relayer account configured")
submit balance prefix (some execute) calls = rethrow balance prefix (execute calls)

unfoldable pub execute_deposit : Config → Account → JsString → ℕ → Executed
unfolding deposit_calls
execute_deposit c account commitment amount =
    submit true (codes "Deposit execution failed: ") account (deposit_calls c commitment amount)

unfoldable pub execute_spv_deposit : Config → Account → SpvParams → Executed
unfolding spv_deposit_call
execute_spv_deposit c account p =
    submit false (codes "SPV deposit failed: ") account (spv_deposit_call c p ∷ [])

unfoldable pub withdraw : Config → Account → WithdrawParams → Executed
unfolding withdraw_call
withdraw c account p =
    submit true (codes "Withdraw execution failed: ") account (withdraw_call c p ∷ [])
