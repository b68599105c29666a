-- ===== src/Vault/Rows.antt =====
-- Lookups in the table vaults after updates and insertions (backend/src/routes/vault.ts).
use starknet.Vault.{get_vault, Vault, Vaults, has_nullifier, get_vault_by_nullifier, update_vault}
use starknet.Vault.Burn.{is_burned}
use starknet.Vault.Withdraw.{mark_withdrawn}
use starknet.Common.{
  ap, ◌≡◌, refl, Bool, true, false, none, some, ◌++◌, JsString, ◌===◌, ===_refl, find?-update_where,
  find?-append_some, update_where, arith, Option-cases, inl, inr,
}

-- The vault of this nullifier has its withdrawal on Starknet.
unfoldable pub is_spent : JsString → Vaults → Bool
unfolding get_vault_by_nullifier
is_spent n t = elim (get_vault_by_nullifier n t) [ none ↦ false | some v ↦ is_burned v ]

-- A change that leaves the nullifier alone and undoes no withdrawal.
pub record KeepsBurn (f : Vault → Vault) : Type 0 where
  pub keep_nullifier : (v : Vault) → (f v).nullifier_hash ≡ v.nullifier_hash
  pub keep_burned : (v : Vault) → is_burned v ≡ true → is_burned (f v) ≡ true

has_nullifier-keep :
    (n : JsString) (f : Vault → Vault) (v : Vault)
    → KeepsBurn f
    → has_nullifier n (f v) ≡ has_nullifier n v
unfolding has_nullifier
has_nullifier-keep n f v k = rw (k.keep_nullifier v) refl

pub is_spent-update_where :
    (n : JsString) (p : Vault → Bool) (f : Vault → Vault) (t : Vaults)
    → KeepsBurn f
    → is_spent n t ≡ true
    → is_spent n (update_where p f t) ≡ true
unfolding is_spent get_vault_by_nullifier
is_spent-update_where n p f t k h =
    let q = find?-update_where (has_nullifier n) p f (λ v. has_nullifier-keep n f v k) t in
    elim (Option-cases (get_vault_by_nullifier n t)) [
      | inl e ↦ absurd (ground arith)
      | inr (v, e) ↦ ground (arith, q, k.keep_burned v)
    ]

pub is_spent-append :
    (n : JsString) (t u : Vaults) → is_spent n t ≡ true → is_spent n (t ++ u) ≡ true
unfolding is_spent get_vault_by_nullifier
is_spent-append n t u h = elim (Option-cases (get_vault_by_nullifier n t)) [
  | inl e ↦ absurd (ground arith)
  | inr (v, e) ↦ ground (arith, find?-append_some (has_nullifier n) t u v e)
]

pub mark_withdrawn-KeepsBurn : (hash address : JsString) → KeepsBurn (mark_withdrawn hash address)
mark_withdrawn-KeepsBurn hash address = record {
  keep_nullifier = λ v. refl;
  keep_burned = λ v h. refl;
}

-- The vault that a nullifier finds is spent once its row is marked.
pub is_spent-mark :
    (n hash address : JsString) (t : Vaults) (v : Vault)
    → get_vault_by_nullifier n t ≡ some v
    → is_spent n (update_vault v.id (mark_withdrawn hash address) t) ≡ true
unfolding is_spent get_vault_by_nullifier
is_spent-mark n hash address t v e =
    let q =
      find?-update_where (has_nullifier n) (λ u. u.id === v.id) (mark_withdrawn hash address)
        (λ u.
          has_nullifier-keep n (mark_withdrawn hash address) u
            (mark_withdrawn-KeepsBurn hash address))
        t in
    ground (arith, q, ===_refl v.id)

pub is_spent-find :
    (n : JsString) (t : Vaults) (v : Vault)
    → get_vault_by_nullifier n t ≡ some v
    → is_spent n t ≡ is_burned v
unfolding is_spent get_vault_by_nullifier
is_spent-find n t v e = rw (e, is_spent) refl

-- The nullifier of a marked row finds the row as it was marked.
pub get_vault_by_nullifier-mark :
    (n hash address : JsString) (t : Vaults) (v : Vault)
    → get_vault_by_nullifier n t ≡ some v
    → get_vault_by_nullifier n (update_vault v.id (mark_withdrawn hash address) t)
      ≡ some (mark_withdrawn hash address v)
unfolding get_vault_by_nullifier
get_vault_by_nullifier-mark n hash address t v e =
    let q =
      find?-update_where (has_nullifier n) (λ u. u.id === v.id) (mark_withdrawn hash address)
        (λ u.
          has_nullifier-keep n (mark_withdrawn hash address) u
            (mark_withdrawn-KeepsBurn hash address))
        t in
    ground (arith, q, ===_refl v.id)

-- The identifier of an updated row finds the row as it was updated.
pub get_vault-update :
    (id : JsString) (f : Vault → Vault) (t : Vaults) (v : Vault)
    → ((u : Vault) → (f u).id ≡ u.id)
    → get_vault id t ≡ some v
    → get_vault id (update_vault v.id f t) ≡ some (f v)
unfolding get_vault
get_vault-update id f t v k h =
    let q =
      find?-update_where (λ u. u.id === id) (λ u. u.id === v.id) f (λ u. ap (λ i. i === id) (k u))
        t in
    ground (arith, q, h, ===_refl v.id)
