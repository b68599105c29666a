-- ===== src/Vault/Confirmed.antt =====
-- What POST /confirm-deposit leaves in the tables (backend/src/routes/vault.ts).
use starknet.Circuit.{Waited, reverted, poll_failed, not_confirmed, confirmed}
use starknet.Receipt.{
  Event, is_deposit, normalised, TransactionReceipt, DepositResult, unverified, mismatch,
  ReceiptResult, invalid_format, transaction_not_found, other_error, received, verified,
  verify_deposit_event,
}
use starknet.Vault.{
  active, deposit, CommitmentRow, is_vault_status, pending, Vault, Store, stored, get_vault,
  insert_transaction, update_vault,
}
use starknet.Vault.Deposit.{
  set_block, Confirmation, confirm_deposit, confirmed_at, store_deposit, activate, deposit_row,
  conclude_deposit, verify_deposit, after_wait,
}
use starknet.Vault.Rows.{get_vault-update}
use starknet.Common.{
  false, List, Option, to_lower_case, length, ◌==◌, ◌===◌, ===_iff, ===_ne, find?, find?-split, All,
  subst, Bool-cases, sym, Option-cases, ℕ, ◌≡◌, refl, ap, ◌∙◌, some, [], ◌∷◌, ◌++◌, JsString, arith,
  inl, inr,
}

store_deposit_lem :
    (e : Confirmation) (v : Vault) (hash : JsString) (block : ℕ) (s s' : Store)
    → store_deposit e v hash block s ≡ stored s'
    → (s'.vaults ≡ update_vault v.id (activate hash) s.vaults)
      × (s'.commitments ≡ set_block v.id block s.commitments)
      × (s'.transactions ≡ s.transactions ++ deposit_row e v hash block ∷ [])
unfolding store_deposit insert_transaction
store_deposit_lem e v hash block s s' h = ground arith

conclude_deposit_lem :
    (e : Confirmation) (v : Vault) (hash : JsString) (d : DepositResult) (s : Store)
    (block time : ℕ)
    → (conclude_deposit e v hash d s).0 ≡ confirmed_at block time
    → (c : JsString) × (d ≡ verified block time c)
      × (store_deposit e v hash block s ≡ stored (conclude_deposit e v hash d s).1)
conclude_deposit_lem e v hash (unverified b) s block time h = cc
conclude_deposit_lem e v hash (mismatch c) s block time h = cc
conclude_deposit_lem e v hash (verified b t c) s block time h = (c, ground arith, ground arith)

-- The receipt that confirms a deposit.
abbrev pub IsVerified : Confirmation → Vault → ReceiptResult → ℕ → ℕ → Type 0
IsVerified e v w block time =
    (r : TransactionReceipt) × (c : JsString) × (w ≡ received r)
    × (verify_deposit_event e.contract v.commitment e.block_time r ≡ verified block time c)

verify_deposit_lem :
    (e : Confirmation) (v : Vault) (hash : JsString) (w : ReceiptResult) (s : Store)
    (block time : ℕ)
    → (verify_deposit e v hash w s).0 ≡ confirmed_at block time
    → IsVerified e v w block time
      × (store_deposit e v hash block s ≡ stored (verify_deposit e v hash w s).1)
verify_deposit_lem e v hash (received r) s block time h =
    let d = verify_deposit_event e.contract v.commitment e.block_time r in
    let q = conclude_deposit_lem e v hash d s block time h in ((r, q.0, refl, q.1), q.2)
verify_deposit_lem e v hash invalid_format s block time h = cc
verify_deposit_lem e v hash transaction_not_found s block time h = cc
verify_deposit_lem e v hash (other_error m) s block time h = cc

after_wait_lem :
    (e : Confirmation) (v : Vault) (hash : JsString) (w : Waited) (s : Store) (block time : ℕ)
    → (after_wait e v hash w s).0 ≡ confirmed_at block time
    → ((b : ℕ) × (w ≡ confirmed b))
      × IsVerified e v e.receipt block time
      × (store_deposit e v hash block s ≡ stored (after_wait e v hash w s).1)
after_wait_lem e v hash (confirmed b) s block time h =
    let q = verify_deposit_lem e v hash e.receipt s block time h in ((b, refl), q.0, q.1)
after_wait_lem e v hash reverted s block time h = cc
after_wait_lem e v hash (poll_failed m) s block time h = cc
after_wait_lem e v hash (not_confirmed n) s block time h = cc

-- The receipt has an event of the contract whose first value is the commitment; `0x` and the case of letters do
-- not count.
pub record Carries (contract commitment : JsString) (r : TransactionReceipt) : Type 0 where
  pub event : Event
  pub before : List Event
  pub after : List Event
  pub there : r.events ≡ before ++ event ∷ after
  pub own : to_lower_case event.from_address ≡ to_lower_case contract
  pub value : JsString
  pub values : List JsString
  pub first_value : event.values ≡ value ∷ values
  pub same : normalised commitment ≡ normalised value

first_value_lem :
    (xs : List JsString)
    → (length xs == 0) ≡ false
    → (x : JsString) × (ys : List JsString) × (xs ≡ x ∷ ys)
first_value_lem [] h = cc
first_value_lem (x ∷ ys) h = (x, ys, refl)

verify_deposit_event-Carries :
    (contract commitment : JsString) (t : Option ℕ) (r : TransactionReceipt) (block time : ℕ)
    (c : JsString)
    → verify_deposit_event contract commitment t r ≡ verified block time c
    → Carries contract commitment r × (block ≡ r.block_number)
unfolding verify_deposit_event
verify_deposit_event-Carries contract commitment t r block time c h =
    elim (Option-cases (find? (is_deposit (to_lower_case contract)) r.events)) [
      | inl f ↦ absurd (ground arith)
      | inr (e, f) ↦
          let (before, after, there, passes, _) =
            find?-split (is_deposit (to_lower_case contract)) r.events e f in
          let (x, xs, q) = first_value_lem e.values (ground (arith, passes)) in
          elim (Bool-cases (normalised commitment === normalised x)) [
            | inr n ↦ absurd (ground (arith, f, q, n, h))
            | inl y ↦ (
              record {
                event = e;
                before = before;
                after = after;
                there = there;
                own =
                    (===_iff (to_lower_case e.from_address) (to_lower_case contract)).0
                      (ground (arith, passes));
                value = x;
                values = xs;
                first_value = q;
                same = (===_iff (normalised commitment) (normalised x)).0 y;
              },
              ground (arith, f, q, y, h),
            )
          ]
    ]

set_block_lem :
    (id : JsString) (block : ℕ) (t : List CommitmentRow)
    → All (λ c. c.vault_id ≡ id → c.block_number ≡ some block) (set_block id block t)
set_block_lem id block [] = tt
set_block_lem id block (c ∷ t) = elim (Bool-cases (c.vault_id === id)) [
  | inl e ↦ rw e ((λ q. refl), set_block_lem id block t)
  | inr e ↦ rw e ((λ q. absurd (===_ne c.vault_id id e q)), set_block_lem id block t)
]

-- What is confirmed, step by step.
confirmed_lem :
    (e : Confirmation) (id hash : JsString) (s : Store) (block time : ℕ)
    → (confirm_deposit e id hash s).0 ≡ confirmed_at block time
    → let s' = (confirm_deposit e id hash s).1 in
      (v : Vault) × (get_vault id s.vaults ≡ some v)
      × (v.status ≡ pending)
      × ((b : ℕ) × (e.waited ≡ confirmed b))
      × IsVerified e v e.receipt block time
      × (s'.vaults ≡ update_vault v.id (activate hash) s.vaults)
      × (s'.commitments ≡ set_block v.id block s.commitments)
      × (s'.transactions ≡ s.transactions ++ deposit_row e v hash block ∷ [])
unfolding confirm_deposit
confirmed_lem e id hash s block time h = elim (Option-cases (get_vault id s.vaults)) [
  | inl f ↦ absurd (ground arith)
  | inr (v, f) ↦ elim (Bool-cases (is_vault_status v.status pending)) [
    | inr p ↦ absurd (ground arith)
    | inl p ↦
        let r : confirm_deposit e id hash s ≡ after_wait e v hash e.waited s = ground arith in
        let q = after_wait_lem e v hash e.waited s block time (sym (ap (λ x. x.0) r) ∙ h) in
        let k =
          store_deposit_lem e v hash block s (confirm_deposit e id hash s).1
            (q.2 ∙ ap (λ x. stored x.1) (sym r)) in
        (v, f, ground arith, q.0, q.1, k.0, k.1, k.2)
  ]
]

-- A deposit is confirmed only for a pending vault, once its transaction has succeeded and its receipt carries
-- an event of the contract with the commitment of the vault; the vault is then found as active with that
-- transaction and otherwise as it was, its commitments have the block of the receipt, and the transaction
-- is listed as a deposit in that block.
pub confirm_deposit-IsVerified :
    (e : Confirmation) (id hash : JsString) (s : Store) (block time : ℕ)
    → (confirm_deposit e id hash s).0 ≡ confirmed_at block time
    → let s' = (confirm_deposit e id hash s).1 in
      (v : Vault) × (r : TransactionReceipt) × (get_vault id s.vaults ≡ some v)
      × (v.status ≡ pending)
      × ((b : ℕ) × (e.waited ≡ confirmed b))
      × (e.receipt ≡ received r)
      × Carries e.contract v.commitment r
      × (block ≡ r.block_number)
      × (get_vault id s'.vaults ≡ some (record v { status = active; deposit_tx_hash = some hash }))
      × All (λ c. c.vault_id ≡ v.id → c.block_number ≡ some block) s'.commitments
      × (s'.transactions
          ≡ s.transactions
            ++ record {
              id = e.transaction_id;
              vault_id = v.id;
              tx_hash = hash;
              kind = deposit;
              amount_encrypted = v.encrypted_amount;
              block_number = some block;
              timestamp = e.now;
            }
              ∷ [])
confirm_deposit-IsVerified e id hash s block time h =
    let (v, f, p, w, (r, c, got, ok), vs, cs, ts) = confirmed_lem e id hash s block time h in
    let k = verify_deposit_event-Carries e.contract v.commitment e.block_time r block time c ok in
    (
      v,
      r,
      f,
      p,
      w,
      got,
      k.0,
      k.1,
      ap (get_vault id) vs ∙ get_vault-update id (activate hash) s.vaults v (λ u. refl) f,
      subst (All (λ c. c.vault_id ≡ v.id → c.block_number ≡ some block)) (sym cs)
          (set_block_lem v.id block s.commitments),
      ts,
    )
