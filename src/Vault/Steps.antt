-- ===== src/Vault/Steps.antt =====
-- What the parts of the handler of POST /withdraw do to the vaults and to the burns
-- (backend/src/routes/vault.ts).
use mathlib.Core.Option.{some-injective}
use starknet.Auth.{AuthError}
use starknet.Payout.{Broadcast, accepted, lost, rejected}
use starknet.Vault.{Vault, Store, null_or_hash, get_vault, get_vault_by_nullifier, update_vault}
use starknet.Vault.Burn.{
  send_burn, Server, Request, Surroundings, burned, burn_vault, record_burn, Response,
  is_invalid_owner, check_request, Check, refuse, proceed, check_vault,
}
use starknet.Vault.Withdraw.{
  close_paid, withdraw_vault, carry_out, pay_vault, close_vault, retry, finish_first,
  mark_withdrawn,
}
use starknet.Common.{
  ap, ap, ◌∙◌, ℕ, ◌≡◌, refl, true, Option, none, some, ◌∷◌, JsString, arith, Option-cases,
  Bool-cases, inl, inr, ◌⊎◌,
}

-- The answer to the withdrawal on Starknet is not lost, and names a hash that the table takes.
abbrev pub IsAnswered : Broadcast → Type 0
IsAnswered (accepted hash) = null_or_hash (some hash) ≡ true
IsAnswered (lost m) = ⊥
IsAnswered (rejected m) = Unit

-- Neither the vaults nor the burns change.
abbrev pub Keeps : Store → Store → Type 0
Keeps s s' = (s'.vaults ≡ s.vaults) × (s'.burns ≡ s.burns)

pub pay_vault-Keeps :
    (server : Server) (r : Request) (e : Surroundings) (id hash : JsString) (s : Store)
    → Keeps s (pay_vault server r e id hash s).1
unfolding pay_vault
pay_vault-Keeps server r e id hash s = elim (Option-cases (get_vault id s.vaults)) [
  | inl f ↦ rw (f, pay_vault) (refl, refl)
  | inr (v, f) ↦ elim (Option-cases (server.decrypt_amount v.encrypted_amount v.salt)) [
    | inl d ↦ rw (f, pay_vault, d) (refl, refl)
    | inr (amount, d) ↦ rw (f, pay_vault, d) (refl, refl)
  ]
]

pub pay_vault-some :
    (server : Server) (r : Request) (e : Surroundings) (id hash : JsString) (s : Store) (v : Vault)
    (amount : ℕ)
    → get_vault id s.vaults ≡ some v
    → server.decrypt_amount v.encrypted_amount v.salt ≡ some amount
    → (p : Option JsString × Option AuthError) × ((pay_vault server r e id hash s).0 ≡ some p)
unfolding pay_vault
pay_vault-some server r e id hash s v amount f d =
    elim (Option-cases (pay_vault server r e id hash s).0) [
      | inl q ↦ absurd (ground arith)
      | inr q ↦ q
    ]

pub retry-Keeps :
    (server : Server) (r : Request) (e : Surroundings) (v : Vault) (hash : JsString) (s : Store)
    → Keeps s (retry server r e v hash s).1
unfolding retry
retry-Keeps server r e v hash s =
    let k = pay_vault-Keeps server r e v.id hash s in
    elim (Option-cases (pay_vault server r e v.id hash s).0) [
      | inl q ↦ rw (q, retry) k
      | inr (p, q) ↦ rw (q, retry) k
    ]

pub close_vault_lem :
    (r : Request) (e : Surroundings) (v : Vault) (hash : JsString)
    (paid : Option JsString × Option AuthError) (s : Store)
    → null_or_hash (some hash) ≡ true
    → let s' = (close_vault r e v hash paid s).1 in
      (s'.vaults ≡ update_vault v.id (mark_withdrawn hash r.bitcoin_address) s.vaults)
      × (s'.burns ≡ s.burns)
      × (s'.world ≡ s.world)
unfolding close_vault
close_vault_lem r e v hash paid s h = ground arith

-- The handler has burned the vault: one burn more, and the row is marked.
abbrev pub Burns : Request → Vault → Store → Store → Type 0
Burns r v s s' =
    (hash : JsString) × (amount : ℕ) × (s'.burns ≡ (r.nullifier_hash, amount) ∷ s.burns)
    × (s'.vaults ≡ update_vault v.id (mark_withdrawn hash r.bitcoin_address) s.vaults)

close_paid-some :
    (r : Request) (e : Surroundings) (v : Vault) (hash : JsString)
    (q : Option (Option JsString × Option AuthError) × Store)
    (p : Option JsString × Option AuthError)
    → q.0 ≡ some p
    → close_paid r e v hash q ≡ close_vault r e v hash p q.1
close_paid-some r e v hash (none, s) p h = cc
close_paid-some r e v hash (some p', s) p h =
    ap (λ x. close_vault r e v hash x s) (some-injective p' p h)

pub finish_burned_lem :
    (server : Server) (r : Request) (e : Surroundings) (v u : Vault) (hash : JsString) (amount : ℕ)
    (s : Store)
    → get_vault v.id s.vaults ≡ some u
    → server.decrypt_amount u.encrypted_amount u.salt ≡ some amount
    → null_or_hash (some hash) ≡ true
    → let s' = (finish_first server r e v (burned hash, record_burn r.nullifier_hash amount s)).1 in
      (s'.burns ≡ (r.nullifier_hash, amount) ∷ s.burns)
      × (s'.vaults ≡ update_vault v.id (mark_withdrawn hash r.bitcoin_address) s.vaults)
unfolding finish_first
finish_burned_lem server r e v u hash amount s f d h =
    let s1 : Store = record_burn r.nullifier_hash amount s in
    let k = pay_vault-Keeps server r e v.id hash s1 in
    let p = pay_vault-some server r e v.id hash s1 u amount f d in
    let c = close_vault_lem r e v hash p.0 (pay_vault server r e v.id hash s1).1 h in
    let q =
      ap (λ x. x.1) (close_paid-some r e v hash (pay_vault server r e v.id hash s1) p.0 p.1) in
    (
      ap (λ x. x.burns) q ∙ c.1 ∙ k.1,
      ap (λ x. x.vaults) q
          ∙ c.0
          ∙ ap (update_vault v.id (mark_withdrawn hash r.bitcoin_address)) k.0,
    )

finish_burned :
    (server : Server) (r : Request) (e : Surroundings) (v u : Vault) (hash : JsString) (amount : ℕ)
    (s : Store)
    → get_vault v.id s.vaults ≡ some u
    → server.decrypt_amount u.encrypted_amount u.salt ≡ some amount
    → null_or_hash (some hash) ≡ true
    → Burns r v s (finish_first server r e v (burned hash, record_burn r.nullifier_hash amount s)).1
finish_burned server r e v u hash amount s f d h =
    let q = finish_burned_lem server r e v u hash amount s f d h in (hash, amount, q.0, q.1)

finish_sent :
    (server : Server) (r : Request) (e : Surroundings) (v u : Vault) (amount : ℕ) (s : Store)
    (b : Broadcast)
    → get_vault v.id s.vaults ≡ some u
    → server.decrypt_amount u.encrypted_amount u.salt ≡ some amount
    → IsAnswered b
    → let s' = (finish_first server r e v (send_burn r.nullifier_hash amount b s)).1 in
      Keeps s s' ⊎ Burns r v s s'
unfolding finish_first
finish_sent server r e v u amount s (accepted hash) f d a =
    inr (finish_burned server r e v u hash amount s f d a)
finish_sent server r e v u amount s (lost m) f d a = absurd a
finish_sent server r e v u amount s (rejected m) f d a = inl (refl, refl)

-- A first attempt either changes neither vaults nor burns, or burns the vault and marks it.
pub finish_first-Burns :
    (server : Server) (r : Request) (e : Surroundings) (v : Vault) (s : Store)
    → IsAnswered e.burn
    → let s' = (finish_first server r e v (burn_vault server r e v.id s)).1 in
      Keeps s s' ⊎ Burns r v s s'
unfolding finish_first burn_vault
finish_first-Burns server r e v s answered = elim (Option-cases (get_vault v.id s.vaults)) [
  | inl f ↦ rw (f, burn_vault) (inl (refl, refl))
  | inr (u, f) ↦ elim (Option-cases (server.decrypt_amount u.encrypted_amount u.salt)) [
    | inl d ↦ rw (f, burn_vault, d) (inl (refl, refl))
    | inr (amount, d) ↦ elim (Bool-cases (is_invalid_owner u.owner_address)) [
      | inl o ↦ rw (f, burn_vault, d, o) (inl (refl, refl))
      | inr o ↦ rw (f, burn_vault, d, o) (finish_sent server r e v u amount s e.burn f d answered)
    ]
  ]
]

pub Check-cases : (c : Check) → ((x : Response) × (c ≡ refuse x)) ⊎ ((v : Vault) × (c ≡ proceed v))
Check-cases (refuse x) = inl (x, refl)
Check-cases (proceed v) = inr (v, refl)

-- A request proceeds with the vault of its nullifier only.
check_request-find :
    (server : Server) (r : Request) (s : Store) (v : Vault)
    → check_request server r s ≡ proceed v
    → get_vault_by_nullifier r.nullifier_hash s.vaults ≡ some v
unfolding check_request check_vault
check_request-find server r s v h =
    elim (Option-cases (get_vault_by_nullifier r.nullifier_hash s.vaults)) [
      | inl e ↦ absurd (ground arith)
      | inr (u, e) ↦ ground arith
    ]

-- A whole request either changes neither vaults nor burns, or burns the vault of its nullifier, which had
-- no withdrawal before, and marks it.
pub withdraw_vault-Burns :
    (server : Server) (r : Request) (e : Surroundings) (s : Store)
    → IsAnswered e.burn
    → let s' = (withdraw_vault server r e s).1 in
      Keeps s s'
      ⊎ ((v : Vault) × (get_vault_by_nullifier r.nullifier_hash s.vaults ≡ some v)
          × (v.withdraw_tx_hash ≡ none)
          × Burns r v s s')
unfolding withdraw_vault carry_out
withdraw_vault-Burns server r e s answered = elim (Check-cases (check_request server r s)) [
  | inl (x, c) ↦ rw (c, withdraw_vault) (inl (refl, refl))
  | inr (v, c) ↦ elim (Option-cases v.withdraw_tx_hash) [
    | inr (hash, w) ↦ rw (c, withdraw_vault, w) (inl (retry-Keeps server r e v hash s))
    | inl w ↦ elim (finish_first-Burns server r e v s answered) [
      | inl k ↦ rw (c, withdraw_vault, w) (inl k)
      | inr b ↦ rw (c, withdraw_vault, w) (inr (v, check_request-find server r s v c, w, b))
    ]
  ]
]
