-- ===== src/Vault/Cursor.antt =====
-- Pages of rows that are in order, joined along their cursors (backend/src/routes/transactions.ts).
use mathlib.Core.Option.{some-injective}
use starknet.Receipt.{ReceiptResult}
use starknet.Vault.{TransactionRow}
use starknet.Vault.Transactions.{before, last?, OnChain, enrich, Page, page, failure, next_page}
use starknet.Common.{
  ℕ, zero, suc, ◌<◌, ◌≡◌, refl, sym, ap, ◌∙◌, subst, true, false, Option, none, some, List, [], ◌∷◌,
  ◌++◌, map, JsString, ◌==◌, length, take, drop, filter, All, AllPairs, All-map, All-take,
  AllPairs-filter, filter_weaken, filter_passing, filter_passes, take_all, take-append-drop,
  length-take, length-drop, arith, inl, inr, Bool-cases,
}
use mathlib.Core.List.{map-append}
use mathlib.Core.Option

abbrev pub Entry : Type 0
Entry = TransactionRow × OnChain

-- What is added to a page by the pages that follow it.
abbrev pub join_rest : (Option ℕ → Option (List Entry)) → Page → Option (List Entry)
join_rest follow failure = none
join_rest follow (page rows none) = some rows
join_rest follow (page rows (some c)) = Option.map (λ t. rows ++ t) (follow (some c))

-- What a client gets by following the cursors for up to `n` pages, if that is all.
abbrev pub collect : ℕ → (Option ℕ → Page) → Option ℕ → Option (List Entry)
collect zero f c = none
collect (suc n) f c = join_rest (collect n f) (f c)

abbrev pub Newer : TransactionRow → TransactionRow → Type 0
Newer a b = b.timestamp < a.timestamp

last?-All {ℓ κ} :
    {A : Type ℓ} (P : A → Type κ) (xs : List A) (l : A) → All P xs → last? xs ≡ some l → P l
last?-All P [] l h e = cc
last?-All P (x ∷ []) l h e = subst P (some-injective x l e) h.0
last?-All P (x ∷ y ∷ ys) l h e = last?-All P (y ∷ ys) l h.1 e

last?-some {ℓ} : {A : Type ℓ} (xs : List A) → 0 < length xs → (l : A) × (last? xs ≡ some l)
last?-some [] h = absurd (omega arith)
last?-some (x ∷ []) h = (x, refl)
last?-some (x ∷ y ∷ ys) h = last?-some (y ∷ ys) (omega arith)

-- The rows before the last one of a page are those that follow the page.
filter-cursor :
    (k : ℕ) (xs : List TransactionRow) (l : TransactionRow)
    → AllPairs Newer xs
    → last? (take k xs) ≡ some l
    → filter (before (some l.timestamp)) xs ≡ drop k xs
filter-cursor zero xs l o e = cc
filter-cursor (suc k) [] l o e = cc
filter-cursor (suc zero) (x ∷ xs) l o e =
    let same : x ≡ l = some-injective x l e in
    let all : All (λ y. before (some l.timestamp) y ≡ true) xs =
      All-map (Newer x) (λ y. before (some l.timestamp) y ≡ true)
        (λ y h. ground (arith, ap (λ r. r.timestamp) same)) xs o.0 in
    ground (arith, ap (λ r. r.timestamp) same, filter_passing (before (some l.timestamp)) xs all)
filter-cursor (suc (suc k)) (x ∷ []) l o e =
    let same : x ≡ l = some-injective x l e in ground (arith, ap (λ r. r.timestamp) same)
filter-cursor (suc (suc k)) (x ∷ y ∷ ys) l o e =
    let older : Newer x l =
      last?-All (Newer x) (take (suc k) (y ∷ ys)) l (All-take (Newer x) (suc k) (y ∷ ys) o.0) e in
    ground (arith, older, filter-cursor (suc k) (y ∷ ys) l o.1 e)

before_weaken :
    (c : Option ℕ) (l x : TransactionRow)
    → before c l ≡ true
    → before (some l.timestamp) x ≡ true
    → before c x ≡ true
before_weaken none l x h k = refl
before_weaken (some c) l x h k = ground (arith, h, k)

next_page_last :
    (receipts : JsString → ReceiptResult) (limit : ℕ) (xs : List TransactionRow)
    → (length xs == limit) ≡ false
    → next_page receipts limit xs ≡ page (map (enrich receipts) xs) none
next_page_last receipts limit xs e = ground (arith, e)

next_page_full :
    (receipts : JsString → ReceiptResult) (limit : ℕ) (xs : List TransactionRow)
    (l : TransactionRow)
    → (length xs == limit) ≡ true
    → last? xs ≡ some l
    → next_page receipts limit xs ≡ page (map (enrich receipts) xs) (some l.timestamp)
next_page_full receipts limit xs l e f = ground (arith, e, f)

module _ (receipts : JsString → ReceiptResult) (limit : ℕ) (positive : 0 < limit)
    (rows : List TransactionRow) (ordered : AllPairs Newer rows) where
  abbrev pub rows_from : Option ℕ → List TransactionRow
  rows_from c = filter (before c) rows

  -- The page that starts at a cursor, of rows that are in order.
  abbrev pub page_at : Option ℕ → Page
  page_at c = next_page receipts limit (take limit (filter (before c) rows))

  -- The rows from a cursor on are the same, whether those before it are looked at or not.
  rest_lem :
      (c : Option ℕ) (l : TransactionRow)
      → last? (take limit (filter (before c) rows)) ≡ some l
      → filter (before (some l.timestamp)) rows ≡ drop limit (filter (before c) rows)
  rest_lem c l e =
      let p : before c l ≡ true =
        last?-All (λ r. before c r ≡ true) (take limit (filter (before c) rows)) l
          (All-take (λ r. before c r ≡ true) limit (filter (before c) rows)
            (filter_passes (before c) rows))
          e in
      sym
        (filter_weaken (before c) (before (some l.timestamp)) (λ x h. before_weaken c l x p h) rows)
      ∙ filter-cursor limit (filter (before c) rows) l
          (AllPairs-filter Newer (before c) rows ordered) e

  -- The pages from a cursor on are all rows from it on.
  pub collect_lem :
      (n : ℕ) (c : Option ℕ)
      → length (filter (before c) rows) < n
      → collect n page_at c ≡ some (map (enrich receipts) (filter (before c) rows))
  collect_lem zero c h = absurd (omega arith)
  collect_lem (suc n) c h = elim (Bool-cases (length (take limit (rows_from c)) == limit)) [
    | inr e ↦
        let all : take limit (rows_from c) ≡ (rows_from c) =
          take_all (rows_from c) limit (ground (arith, e, length-take limit (rows_from c))) in
        ap (join_rest (collect n page_at))
          (next_page_last receipts limit (take limit (rows_from c)) e)
        ∙ ap (λ xs. some (map (enrich receipts) xs)) all
    | inl e ↦
        let size : length (take limit (rows_from c)) ≡ limit = ground (arith, e) in
        let (l, f) = last?-some (take limit (rows_from c)) (omega (arith, size)) in
        let rest = rest_lem c l f in
        let shorter : length (filter (before (some l.timestamp)) rows) < n = omega (
          arith,
          ap length rest,
          length-drop limit (rows_from c),
          length-take limit (rows_from c),
          size,
          h,
        ) in
        ap (join_rest (collect n page_at))
          (next_page_full receipts limit (take limit (rows_from c)) l e f)
        ∙ ap (Option.map (λ u. map (enrich receipts) (take limit (rows_from c)) ++ u)) (
            collect_lem n (some l.timestamp) shorter
            ∙ ap (λ xs. some (map (enrich receipts) xs)) rest)
        ∙ ap some (
            sym (map-append (enrich receipts) (take limit (rows_from c)) (drop limit (rows_from c)))
            ∙ ap (map (enrich receipts)) (take-append-drop limit (rows_from c)))
  ]
