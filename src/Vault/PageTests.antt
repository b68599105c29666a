-- ===== src/Vault/PageTests.antt =====
-- Concrete pages of transactions (backend/src/routes/transactions.ts).
use starknet.Receipt.{ReceiptResult, transaction_not_found}
use starknet.Vault.{Store, deposit, TransactionRow}
use starknet.Vault.Samples.{store, owner}
use starknet.Vault.Transactions.{list_transactions, enrich, vault_ids, not_found, page_rows}
use starknet.Vault.Cursor.{collect}
use starknet.Vault.Pages.{history, list_transactions_complete}
use starknet.Common.{ℕ, ◌≡◌, refl, none, some, [], ◌∷◌, map, JsString, codes, ◌===◌, sort_by, arith}

abbrev transaction : JsString → ℕ → TransactionRow
transaction hash at = record {
  id = hash;
  vault_id = codes "v";
  tx_hash = hash;
  kind = deposit;
  amount_encrypted = codes "e";
  block_number = none;
  timestamp = at;
}

abbrev no_receipts : JsString → ReceiptResult
no_receipts h = transaction_not_found

abbrev listed : Store
listed = record store {
  transactions =
      transaction (codes "1") 10 ∷ transaction (codes "2") 30 ∷ transaction (codes "3") 20 ∷ [];
}

list_transactions_complete_example :
    collect 4 (λ c. list_transactions no_receipts owner none c (some 2) listed) none
    ≡ some (
        map (enrich no_receipts) (history (vault_ids owner listed.vaults) none listed.transactions))
unfolding ◌===◌
list_transactions_complete_example =
    list_transactions_complete no_receipts owner none (some 2) 4 listed (omega arith)
      ((omega arith, (omega arith, tt)), ((omega arith, tt), (tt, tt))) (omega arith)

-- Two transactions of the same second: with a limit of 1, the second one is on no page.
abbrev tied : Store
tied = record store { transactions = transaction (codes "1") 10 ∷ transaction (codes "2") 10 ∷ [] }

tied_lost :
    collect 4 (λ c. list_transactions no_receipts owner none c (some 1) tied) none
    ≡ some ((transaction (codes "1") 10, not_found) ∷ [])
unfolding ◌===◌ list_transactions page_rows sort_by
tied_lost = refl
