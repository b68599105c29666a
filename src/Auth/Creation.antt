-- ===== src/Auth/Creation.antt =====
-- What createAuthorization of backend/src/services/WithdrawalAuthorizationService.ts adds to the table.
use starknet.Common.{
  ℕ, ◌≤◌, ◌≡◌, sym, subst, true, false, none, List, [], ◌∷◌, ◌++◌, JsString, codes, ◌===◌, ===_ne,
  starts_with, any, find?, All, AllPairs-concat, All-split, ◌⊎◌, length, arith, inl, inr,
}
use starknet.Auth.{Auths, ok, Params, new_row, clashes, insert_row, create_authorization}
use starknet.Auth.Table.{Apart, Unique, Unique-Holds, Holds}

-- The guards that let a row in.
abbrev pub Admissible : List JsString → JsString → Params → Auths → Type 0
Admissible vaults id p t =
    (starts_with p.bitcoin_address (codes "tb1") ≡ true)
    × (starts_with p.starknet_tx_hash (codes "0x") ≡ true)
    × (34 ≤ length p.starknet_tx_hash)
    × (any (λ v. v === p.vault_id) vaults ≡ true)
    × (find? (clashes p) t ≡ none)
    × (any (λ b. b.id === id) t ≡ false)

pub create_lem :
    (vaults : List JsString) (id : JsString) (now : ℕ) (p : Params) (t t' : Auths)
    → create_authorization vaults id now p t ≡ ok t'
    → Admissible vaults id p t × (t' ≡ t ++ new_row id now p ∷ [])
unfolding create_authorization insert_row
create_lem vaults id now p t t' e = ground arith

no_clash :
    (p : Params) (id : JsString) (now : ℕ) (t : Auths)
    → find? (clashes p) t ≡ none
    → any (λ b. b.id === id) t ≡ false
    → All (λ a. Apart a (new_row id now p)) t
no_clash p id now [] e f = tt
no_clash p id now (a ∷ t) e f = (
  (
    ===_ne a.id id (ground arith),
    ===_ne a.nullifier_hash p.nullifier_hash (ground arith),
    ===_ne a.starknet_tx_hash p.starknet_tx_hash (ground arith),
  ),
  no_clash p id now t (ground arith) (ground arith),
)

-- A row that is created leaves the keys unique, is found by its id and its nullifier, and hides no other
-- row.
pub create_authorization-Unique :
    (vaults : List JsString) (id : JsString) (now : ℕ) (p : Params) (t t' : Auths)
    → create_authorization vaults id now p t ≡ ok t'
    → Unique t
    → Unique t' × Holds (new_row id now p) t' × All (λ a. Holds a t') t
create_authorization-Unique vaults id now p t t' e u =
    let l = create_lem vaults id now p t t' e in
    let row = new_row id now p in
    let unique : Unique (t ++ row ∷ []) =
      AllPairs-concat Apart t row u (no_clash p id now t l.0.4 l.0.5) in
    let unique' : Unique t' = subst Unique (sym l.1) unique in
    let held =
      All-split (λ a. Holds a t') t (row ∷ [])
        (subst (All (λ a. Holds a t')) l.1 (Unique-Holds t' unique')) in
    (unique', held.1.0, held.0)

-- Once a burn has its authorization, no other can be created with the same nullifier or for the same
-- transaction on Starknet.
pub create_authorization_once :
    (vaults vaults' : List JsString) (id id' : JsString) (now now' : ℕ) (p p' : Params)
    (t t' t'' : Auths)
    → create_authorization vaults id now p t ≡ ok t'
    → (p.nullifier_hash ≡ p'.nullifier_hash) ⊎ (p.starknet_tx_hash ≡ p'.starknet_tx_hash)
    → ¬ (create_authorization vaults' id' now' p' t' ≡ ok t'')
create_authorization_once vaults vaults' id id' now now' p p' t t' t'' e same e' =
    let l = create_lem vaults id now p t t' e in
    let l' = create_lem vaults' id' now' p' t' t'' e' in
    let row = new_row id now p in
    let apart =
      All-split (λ a. Apart a (new_row id' now' p')) t (row ∷ [])
        (subst (All (λ a. Apart a (new_row id' now' p'))) l.1
          (no_clash p' id' now' t' l'.0.4 l'.0.5)) in
    elim same [ inl q ↦ apart.1.0.1 q | inr q ↦ apart.1.0.2 q ]
