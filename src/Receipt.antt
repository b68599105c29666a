-- ===== src/Receipt.antt =====
-- Receipts of Starknet transactions in backend/src/services/StarknetService.ts: the normal form of a hash,
-- what the provider's answers turn into, and the checks of deposit and withdrawal events.
pub mod Hash
use starknet.Common.{
  ℕ, Bool, true, false, not, ◌&&◌, ◌||◌, Option, none, some, List, [], ◌∷◌, ◌++◌, JsString, codes,
  starts_with, includes, drop, length, to_lower_case, pad_start, remove_prefix_mark, ◌===◌, ◌==◌,
  leb, any, find?, if◌then◌else◌, is_some, truthy, get_or_else,
}

pub record Event : Type 0 where
  pub from_address : JsString
  pub keys : List JsString
  pub values : List JsString

-- The receipt as the provider gives it; its status is SUCCEEDED or another.
pub record TransactionReceipt : Type 0 where
  pub transaction_hash : JsString
  pub block_number : ℕ
  pub execution_succeeded : Bool
  pub events : List Event

-- The `0x` form of 64 digits: shorter hashes are padded.
unfoldable pub pad_hash : JsString → JsString
pad_hash raw =
    let hex = if starts_with raw (codes "0x") then drop 2 raw else raw in
    codes "0x" ++ pad_start 64 48 hex

abbrev pub is_hex_unit : ℕ → Bool
is_hex_unit c = (leb 48 c && leb c 57) || (leb 65 c && leb c 70) || (leb 97 c && leb c 102)

-- `/^0x[0-9a-fA-F]{60,64}$/`
unfoldable pub validate_tx_hash_format : JsString → Bool
validate_tx_hash_format s =
    starts_with s (codes "0x")
    && leb 62 (length s)
    && leb (length s) 66
    && not (any (λ c. not (is_hex_unit c)) (drop 2 s))

-- What the provider answers.
pub data ProviderAnswer : Type 0 where
  receipt : TransactionReceipt → ProviderAnswer
  no_receipt : ProviderAnswer
  provider_error : JsString → ProviderAnswer

-- What `getTransactionReceipt` ends with.
pub data ReceiptResult : Type 0 where
  received : TransactionReceipt → ReceiptResult
  invalid_format : ReceiptResult
  transaction_not_found : ReceiptResult
  other_error : JsString → ReceiptResult

abbrev pub or_hash : JsString → TransactionReceipt → TransactionReceipt
or_hash tx_hash r = record r {
  transaction_hash = if truthy r.transaction_hash then r.transaction_hash else tx_hash;
}

abbrev pub result_of_answer : JsString → ProviderAnswer → ReceiptResult
result_of_answer tx_hash (receipt r) = received (or_hash tx_hash r)
result_of_answer tx_hash no_receipt = transaction_not_found
result_of_answer tx_hash (provider_error message) =
    if includes message (codes "not found") || includes message (codes "404")
    then transaction_not_found
    else other_error message

-- `getTransactionReceipt`, by what the provider answers for each hash.
unfoldable pub get_transaction_receipt : (JsString → ProviderAnswer) → JsString → ReceiptResult
unfolding pad_hash validate_tx_hash_format
get_transaction_receipt provider raw =
    let tx_hash = pad_hash raw in
    if not (validate_tx_hash_format tx_hash)
    then invalid_format
    else result_of_answer tx_hash (provider tx_hash)

-- `events.find`: the first event of the vault that has keys and data.
abbrev pub is_deposit : JsString → Event → Bool
is_deposit vault_address e =
    to_lower_case e.from_address === vault_address
    && not (length e.keys == 0)
    && not (length e.values == 0)

abbrev pub normalised : JsString → JsString
normalised s = remove_prefix_mark (to_lower_case s)

-- What `verifyDepositEvent` ends with: a result, or the error of a mismatch.
pub data DepositResult : Type 0 where
  unverified : ℕ → DepositResult
  verified : ℕ → ℕ → JsString → DepositResult
  mismatch : JsString → DepositResult

abbrev pub first_or_empty : List JsString → JsString
first_or_empty [] = []
first_or_empty (d ∷ ds) = d

-- `verifyDepositEvent` on a receipt; `timestamp` is what the block says, if it can be had.
unfoldable pub verify_deposit_event :
    JsString → JsString → Option ℕ → TransactionReceipt → DepositResult
verify_deposit_event contract expected timestamp r =
    elim (find? (is_deposit (to_lower_case contract)) r.events) [
      | none ↦ unverified r.block_number
      | some e ↦
          let actual = first_or_empty e.values in
          if normalised expected === normalised actual
          then verified r.block_number (get_or_else timestamp 0) actual
          else mismatch actual
    ]

-- `verifyWithdrawalEvent` on a receipt
unfoldable pub verify_withdrawal_event : JsString → JsString → TransactionReceipt → Bool
verify_withdrawal_event contract expected r =
    any
      (λ e.
        to_lower_case e.from_address === to_lower_case contract
        && any (λ d. normalised d === normalised expected) e.values)
      r.events
