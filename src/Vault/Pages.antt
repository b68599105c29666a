-- ===== src/Vault/Pages.antt =====
-- Following the cursors of GET /api/transactions/:address (backend/src/routes/transactions.ts).
use starknet.Receipt.{ReceiptResult}
use starknet.Vault.{Store, Kind, TransactionRow}
use starknet.Vault.Transactions.{
  newest_first, matches, before, limit_of, page_rows, enrich, next_page, page_for, vault_ids,
  list_transactions,
}
use starknet.Vault.Cursor.{collect, Newer, collect_lem}
use starknet.Common.{
  length-filter, length-sort_by, ℕ, zero, suc, ◌<◌, ◌≡◌, ◌≢◌, refl, sym, ap, ◌∙◌, true, false,
  Option, none, some, List, [], ◌∷◌, map, JsString, length, take, filter, sort_by, AllPairs,
  AllPairs-filter, AllPairs-zip, sort_by-Ordered, sort_by-AllPairs, sort_by-filter, filter_and,
  arith,
}
use mathlib.Core.Path.{fun_ext}

filter_always : (xs : List TransactionRow) → filter (before none) xs ≡ xs
filter_always [] = refl
filter_always (x ∷ xs) = ap (λ t. x ∷ t) (filter_always xs)

filter_never : (kind : Option Kind) (xs : List TransactionRow) → filter (matches [] kind) xs ≡ []
filter_never kind [] = refl
filter_never kind (x ∷ xs) = filter_never kind xs

-- All transactions of some vaults, the newest first.
abbrev pub history : List JsString → Option Kind → List TransactionRow → List TransactionRow
history ids kind rows = sort_by newest_first (filter (matches ids kind) rows)

newest_first_trans :
    (a b c : TransactionRow)
    → newest_first a b ≡ true
    → newest_first b c ≡ true
    → newest_first a c ≡ true
newest_first_trans a b c h k = ground (arith, h, k)

newest_first_total : (a b : TransactionRow) → newest_first a b ≡ false → newest_first b a ≡ true
newest_first_total a b h = ground (arith, h)

page_rows_lem :
    (ids : List JsString) (kind : Option Kind) (c : Option ℕ) (limit : ℕ)
    (rows : List TransactionRow)
    → page_rows ids kind c limit rows ≡ take limit (filter (before c) (history ids kind rows))
unfolding page_rows
page_rows_lem ids kind c limit rows =
    ap (λ xs. take limit (sort_by newest_first xs)) (filter_and (matches ids kind) (before c) rows)
    ∙ ap (take limit) (
        sort_by-filter newest_first newest_first_trans newest_first_total (before c)
          (filter (matches ids kind) rows))

abbrev Apart : TransactionRow → TransactionRow → Type 0
Apart a b = a.timestamp ≢ b.timestamp

history-Newer :
    (ids : List JsString) (kind : Option Kind) (rows : List TransactionRow)
    → AllPairs Apart rows
    → AllPairs Newer (history ids kind rows)
history-Newer ids kind rows h =
    AllPairs-zip Apart (λ a b. newest_first a b ≡ true) Newer (λ a b x y. ground (arith, x, y))
      (history ids kind rows)
      (sort_by-AllPairs newest_first Apart (λ a b x y. x (sym y)) (filter (matches ids kind) rows)
        (AllPairs-filter Apart (matches ids kind) rows h))
      (sort_by-Ordered newest_first (λ a b. newest_first a b ≡ true) newest_first_trans (λ a b x. x)
        newest_first_total (filter (matches ids kind) rows))

pages_for :
    (receipts : JsString → ReceiptResult) (ids : List JsString) (kind : Option Kind) (limit n : ℕ)
    (rows : List TransactionRow)
    → 0 < limit
    → AllPairs Apart rows
    → length rows < n
    → collect n (λ c. page_for receipts ids kind c limit rows) none
      ≡ some (map (enrich receipts) (history ids kind rows))
unfolding page_for sort_by
pages_for receipts [] kind limit zero rows p a h = absurd (omega arith)
pages_for receipts [] kind limit (suc n) rows p a h =
    sym (ap (λ xs. some (map (enrich receipts) (sort_by newest_first xs))) (filter_never kind rows))
pages_for receipts (id ∷ ids) kind limit n rows p a h =
    let all = history (id ∷ ids) kind rows in
    let same = filter_always all in
    let size : length (filter (before none) all) < n = omega (
      arith,
      ap length same,
      length-sort_by newest_first (filter (matches (id ∷ ids) kind) rows),
      length-filter (matches (id ∷ ids) kind) rows,
      h,
    ) in
    ap (λ f. collect n f none)
      (fun_ext (λ c. ap (next_page receipts limit) (page_rows_lem (id ∷ ids) kind c limit rows)))
    ∙ collect_lem receipts limit p all (history-Newer (id ∷ ids) kind rows a) n none size
    ∙ ap (λ xs. some (map (enrich receipts) xs)) same

-- Whoever asks for the transactions of an address and follows the cursors, with a limit above 0, gets all of
-- them, each once and the newest first, each with what the chain says of it, and comes to an end, provided
-- that no two transactions have the same timestamp.
pub list_transactions_complete :
    (receipts : JsString → ReceiptResult) (address : JsString) (kind : Option Kind)
    (limit : Option ℕ) (n : ℕ) (s : Store)
    → 0 < limit_of limit
    → AllPairs (λ a b. a.timestamp ≢ b.timestamp) s.transactions
    → length s.transactions < n
    → collect n (λ c. list_transactions receipts address kind c limit s) none
      ≡ some (map (enrich receipts) (history (vault_ids address s.vaults) kind s.transactions))
unfolding list_transactions
list_transactions_complete receipts address kind limit n s p a h =
    pages_for receipts (vault_ids address s.vaults) kind (limit_of limit) n s.transactions p a h
