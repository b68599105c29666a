-- ===== src/Vault/Executed.antt =====
-- A nullifier is recorded once (backend/src/routes/withdraw.ts).
use starknet.Circuit.{Waited, confirmed, reverted, poll_failed, not_confirmed}
use starknet.Receipt.{
  ReceiptResult, received, invalid_format, transaction_not_found, other_error,
  verify_withdrawal_event,
}
use starknet.Vault.{
  active, is_vault_status, Vault, Vaults, Store, NullifierRow, stored, get_vault,
  insert_transaction, update_vault,
}
use starknet.Vault.Allows.{DbResult-cases}
use starknet.Vault.Execute.{
  Payload, Token, signed, expired_token, invalid_token, Execution, ExecuteResponse, executed,
  insert_nullifier, update_withdrawn, nullifier_row, set_withdrawn, store_withdrawal,
  conclude_withdrawal, verify_withdrawal, after_wait, execute_signed, execute,
}
use starknet.Common.{
  find?-passes, subst, ℕ, ◌+◌, ◌≤◌, ◌≡◌, refl, ◌⊎◌, Bool, true, false, ◌||◌, Option, none, some,
  List, [], ◌∷◌, ◌++◌, JsString, ◌===◌, ===_iff, any, if◌then◌else◌, arith, Bool-cases,
  Option-cases, inl, inr,
}

-- The nullifier of a withdrawal that is executed
abbrev pub executed_nullifier : ExecuteResponse → Option JsString
executed_nullifier (executed block n owner) = some n
executed_nullifier _ = none

abbrev pub is_recorded : JsString → Store → Bool
is_recorded n s = any (λ r. r.nullifier_hash === n) s.nullifiers

-- The nullifier was not recorded, and is now; the vault is marked.
abbrev pub Records : JsString → JsString → JsString → Store → Store → Type 0
Records id hash n s s' =
    (is_recorded n s ≡ false)
    × (e : Execution) × (s'.nullifiers ≡ s.nullifiers ++ nullifier_row e id hash n ∷ [])
    × (s'.vaults ≡ update_vault id (set_withdrawn hash n) s.vaults)

store_withdrawal_lem :
    (e : Execution) (v : Vault) (hash n : JsString) (block : ℕ) (s s' : Store)
    → store_withdrawal e v hash n block s ≡ stored s'
    → (is_recorded n s ≡ false)
      × (s'.nullifiers ≡ s.nullifiers ++ nullifier_row e v.id hash n ∷ [])
      × (s'.vaults ≡ update_vault v.id (set_withdrawn hash n) s.vaults)
unfolding store_withdrawal insert_nullifier update_withdrawn insert_transaction
store_withdrawal_lem e v hash n block s s' h = ground arith

-- Either nothing is executed and nothing changes, or the nullifier of the answer is recorded.
abbrev Outcome : JsString → JsString → Store → ExecuteResponse × Store → Type 0
Outcome id hash s r =
    ((executed_nullifier r.0 ≡ none) × (r.1 ≡ s))
    ⊎ ((n : JsString) × (executed_nullifier r.0 ≡ some n) × Records id hash n s r.1)

conclude-Outcome :
    (e : Execution) (v : Vault) (hash : JsString) (p : Payload) (block : ℕ) (b : Bool) (s : Store)
    → Outcome v.id hash s (conclude_withdrawal e v hash p block b s)
conclude-Outcome e v hash p block false s = inl (refl, refl)
conclude-Outcome e v hash p block true s =
    elim (DbResult-cases (store_withdrawal e v hash p.nullifier_hash block s)) [
      | inr (x, q) ↦ rw (q, conclude_withdrawal) (inl (refl, refl))
      | inl (s', q) ↦
          let l = store_withdrawal_lem e v hash p.nullifier_hash block s s' q in
          rw (q, conclude_withdrawal) (inr (p.nullifier_hash, refl, (l.0, e, l.1, l.2)))
    ]

verify-Outcome :
    (e : Execution) (v : Vault) (hash : JsString) (p : Payload) (block : ℕ) (w : ReceiptResult)
    (s : Store)
    → Outcome v.id hash s (verify_withdrawal e v hash p block w s)
verify-Outcome e v hash p block (received r) s =
    conclude-Outcome e v hash p block (verify_withdrawal_event e.contract p.nullifier_hash r) s
verify-Outcome e v hash p block invalid_format s = inl (refl, refl)
verify-Outcome e v hash p block transaction_not_found s = inl (refl, refl)
verify-Outcome e v hash p block (other_error m) s = inl (refl, refl)

wait-Outcome :
    (e : Execution) (v : Vault) (hash : JsString) (p : Payload) (w : Waited) (s : Store)
    → Outcome v.id hash s (after_wait e v hash p w s)
wait-Outcome e v hash p (confirmed block) s = verify-Outcome e v hash p block e.receipt s
wait-Outcome e v hash p reverted s = inl (refl, refl)
wait-Outcome e v hash p (poll_failed m) s = inl (refl, refl)
wait-Outcome e v hash p (not_confirmed n) s = inl (refl, refl)

get_vault_id : (id : JsString) (t : Vaults) (v : Vault) → get_vault id t ≡ some v → v.id ≡ id
unfolding get_vault
get_vault_id id t v h = (===_iff v.id id).0 (find?-passes (λ u. u.id === id) t v h)

signed-Outcome :
    (e : Execution) (id hash : JsString) (p : Payload) (s : Store)
    → Outcome id hash s (execute_signed e id hash p s)
signed-Outcome e id hash p s = elim (Bool-cases (p.vault_id === id)) [
  | inr q ↦ rw (q, execute_signed, if◌then◌else◌) (inl (refl, refl))
  | inl q ↦ elim (Option-cases (get_vault id s.vaults)) [
    | inl f ↦ rw (q, execute_signed, if◌then◌else◌, f) (inl (refl, refl))
    | inr (v, f) ↦ elim (Bool-cases (is_vault_status v.status active)) [
      | inr a ↦ rw (q, execute_signed, if◌then◌else◌, f, a) (inl (refl, refl))
      | inl a ↦
          rw (q, execute_signed, if◌then◌else◌, f, a)
            (subst (λ k. Outcome k hash s (after_wait e v hash p e.waited s))
              (get_vault_id id s.vaults v f) (wait-Outcome e v hash p e.waited s))
    ]
  ]
]

execute-Outcome :
    (e : Execution) (id hash : JsString) (t : Token) (s : Store)
    → Outcome id hash s (execute e id hash t s)
unfolding execute
execute-Outcome e id hash (signed p) s = signed-Outcome e id hash p s
execute-Outcome e id hash expired_token s = inl (refl, refl)
execute-Outcome e id hash invalid_token s = inl (refl, refl)

-- One call of POST /api/withdraw/execute
pub record Call : Type 0 where
  pub execution : Execution
  pub vault_id : JsString
  pub tx_hash : JsString
  pub token : Token

abbrev pub call : Call → Store → ExecuteResponse × Store
call c s = execute c.execution c.vault_id c.tx_hash c.token s

abbrev pub is_nullifier : JsString → Option JsString → Bool
is_nullifier n none = false
is_nullifier n (some m) = m === n

-- How many of the calls execute a withdrawal with the nullifier.
abbrev pub executions_of : JsString → List Call → Store → ℕ
executions_of n [] s = 0
executions_of n (c ∷ cs) s =
    let r = call c s in
    (if is_nullifier n (executed_nullifier r.0) then 1 else 0) + executions_of n cs r.1

abbrev left_to_record : JsString → Store → ℕ
left_to_record n s = if is_recorded n s then 0 else 1

any-append_one :
    (n : JsString) (t : List NullifierRow) (r : NullifierRow)
    → any (λ b. b.nullifier_hash === n) (t ++ r ∷ [])
      ≡ (any (λ b. b.nullifier_hash === n) t || r.nullifier_hash === n)
any-append_one n [] r = ground arith
any-append_one n (x ∷ t) r = ground (arith, any-append_one n t r)

Records-left :
    (n m id hash : JsString) (s s' : Store)
    → Records id hash m s s'
    → (if m === n then 1 else 0) + left_to_record n s' ≤ left_to_record n s
Records-left n m id hash s s' (fresh, e, ns, vs) =
    let q = any-append_one n s.nullifiers (nullifier_row e id hash m) in
    rw (ns, q)
      (elim (Bool-cases (m === n)) [
        | inl p ↦
            let f : is_recorded n s ≡ false =
              subst (λ k. is_recorded k s ≡ false) ((===_iff m n).0 p) fresh in
            rw (f, p) (omega arith)
        | inr p ↦ rw p (ground arith)
      ])

call-left :
    (n : JsString) (c : Call) (s : Store)
    → (if is_nullifier n (executed_nullifier (call c s).0) then 1 else 0)
        + left_to_record n (call c s).1
      ≤ left_to_record n s
call-left n c s = elim (execute-Outcome c.execution c.vault_id c.tx_hash c.token s) [
  | inl (e, q) ↦ rw (e, q) (omega arith)
  | inr (m, e, r) ↦ rw e (Records-left n m c.vault_id c.tx_hash s (call c s).1 r)
]

executions_of-left :
    (n : JsString) (cs : List Call) (s : Store) → executions_of n cs s ≤ left_to_record n s
executions_of-left n [] s = omega arith
executions_of-left n (c ∷ cs) s =
    omega (arith, call-left n c s, executions_of-left n cs (call c s).1)

-- Whatever calls of POST /api/withdraw/execute follow each other, at most one executes a withdrawal with a
-- nullifier, and none does if the nullifier is recorded already.
pub executions_once :
    (n : JsString) (cs : List Call) (s : Store)
    → executions_of n cs s ≤ (if is_recorded n s then 0 else 1)
executions_once n cs s = executions_of-left n cs s
