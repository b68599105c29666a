-- ===== src/Vault/Transactions.antt =====
-- GET /api/transactions/:address of backend/src/routes/transactions.ts: the page of transactions that a
-- request gets, and the pages that a client gets by following the cursors. The columns block_timestamp
-- and execution_status are left out. The numbers of the query are natural numbers.
use starknet.Receipt.{
  TransactionReceipt, ReceiptResult, received, invalid_format, transaction_not_found, other_error,
}
use starknet.Vault.{Vaults, Store, Kind, deposit, withdraw, TransactionRow}
use starknet.Common.{
  to_lower_case, find?, ℕ, Bool, true, false, ◌&&◌, Option, none, some, List, [], ◌∷◌, map,
  JsString, ◌===◌, ◌==◌, ltb, leb, length, take, any, filter, sort_by, get_or_else, if◌then◌else◌,
}

abbrev pub newest_first : TransactionRow → TransactionRow → Bool
newest_first a b = leb b.timestamp a.timestamp

abbrev pub is_kind : Option Kind → Kind → Bool
is_kind none k = true
is_kind (some deposit) deposit = true
is_kind (some withdraw) withdraw = true
is_kind _ _ = false

-- `vault_id IN (…)`, and `type = ?` where the request asks for it
abbrev pub matches : List JsString → Option Kind → TransactionRow → Bool
matches ids kind r = any (λ id. r.vault_id === id) ids && is_kind kind r.kind

-- `timestamp < ?`
abbrev pub before : Option ℕ → TransactionRow → Bool
before none r = true
before (some cursor) r = ltb r.timestamp cursor

-- `Math.min(parseInt(limit ?? '20'), 100)`
abbrev pub limit_of : Option ℕ → ℕ
limit_of limit = let n = get_or_else limit 20 in if leb n 100 then n else 100

unfoldable pub page_rows :
    List JsString → Option Kind → Option ℕ → ℕ → List TransactionRow → List TransactionRow
page_rows ids kind cursor limit rows =
    take limit (sort_by newest_first (filter (λ r. matches ids kind r && before cursor r) rows))

abbrev pub last? {ℓ} : {A : Type ℓ} → List A → Option A
last? [] = none
last? (x ∷ []) = some x
last? (x ∷ y ∷ ys) = last? (y ∷ ys)

-- What a row shows of the chain.
pub data OnChain : Type 0 where
  confirmed : ℕ → OnChain
  not_found pending : OnChain

abbrev pub on_chain : ReceiptResult → OnChain
on_chain (received r) = confirmed r.block_number
on_chain transaction_not_found = not_found
on_chain invalid_format = pending
on_chain (other_error m) = pending

abbrev pub enrich : (JsString → ReceiptResult) → TransactionRow → TransactionRow × OnChain
enrich receipts r = (r, on_chain (receipts r.tx_hash))

-- A page with the cursor of the next one, or status 500.
pub data Page : Type 0 where
  page : List (TransactionRow × OnChain) → Option ℕ → Page
  failure : Page

-- `rows.length === limit ? String(rows[rows.length - 1]!.timestamp) : null`, which throws on an empty page
-- with limit 0.
abbrev pub next_page : (JsString → ReceiptResult) → ℕ → List TransactionRow → Page
next_page receipts limit rows =
    if length rows == limit
    then elim (last? rows) [
      | none ↦ failure
      | some r ↦ page (map (enrich receipts) rows) (some r.timestamp)
    ]
    else page (map (enrich receipts) rows) none

unfoldable pub page_for :
    (JsString → ReceiptResult)
    → List JsString
    → Option Kind
    → Option ℕ
    → ℕ
    → List TransactionRow
    → Page
unfolding page_rows
page_for receipts [] kind cursor limit rows = page [] none
page_for receipts (id ∷ ids) kind cursor limit rows =
    next_page receipts limit (page_rows (id ∷ ids) kind cursor limit rows)

abbrev pub vault_ids : JsString → Vaults → List JsString
vault_ids address t = map (λ v. v.id) (filter (λ v. v.owner_address === address) t)

-- GET /api/transactions/:address
unfoldable pub list_transactions :
    (JsString → ReceiptResult) → JsString → Option Kind → Option ℕ → Option ℕ → Store → Page
unfolding page_for
list_transactions receipts address kind cursor limit s =
    page_for receipts (vault_ids address s.vaults) kind cursor (limit_of limit) s.transactions

-- What GET /api/transactions/tx/:txHash answers behind its middleware: the row, and what the chain says.
pub data ChainAnswer : Type 0 where
  on_chain_receipt : TransactionReceipt → ChainAnswer
  not_found_on_chain : ChainAnswer
  chain_error : ChainAnswer

abbrev pub chain_answer : ReceiptResult → ChainAnswer
chain_answer (received r) = on_chain_receipt r
chain_answer transaction_not_found = not_found_on_chain
chain_answer invalid_format = chain_error
chain_answer (other_error m) = chain_error

abbrev pub find_by_hash : JsString → List TransactionRow → Option TransactionRow
find_by_hash hash rows = find? (λ r. r.tx_hash === hash) rows

unfoldable pub transaction_details :
    (JsString → ReceiptResult) → JsString → Store → Option TransactionRow × ChainAnswer
transaction_details receipts hash s =
    (find_by_hash hash s.transactions, chain_answer (receipts hash))

-- GET /api/transactions/verify/:txHash: whether an event of the contract is there, the kind of the row if so,
-- and the receipt; status 500 is a failure.
pub data VerifyAnswer : Type 0 where
  verified : Bool → Option Kind → TransactionReceipt → VerifyAnswer
  not_on_chain verify_failure : VerifyAnswer

abbrev pub has_event_of : JsString → TransactionReceipt → Bool
has_event_of contract r =
    any (λ e. to_lower_case e.from_address === to_lower_case contract) r.events

abbrev pub kind_of : Option TransactionRow → Option Kind
kind_of none = none
kind_of (some r) = some r.kind

unfoldable pub verify_transaction :
    JsString → (JsString → ReceiptResult) → JsString → Store → VerifyAnswer
verify_transaction contract receipts hash s = elim (receipts hash) [
  | received r ↦
      let own = has_event_of contract r in
      verified own (if own then kind_of (find_by_hash hash s.transactions) else none) r
  | transaction_not_found ↦ not_on_chain
  | invalid_format ↦ verify_failure
  | other_error m ↦ verify_failure
]
