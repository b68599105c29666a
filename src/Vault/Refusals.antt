-- ===== src/Vault/Refusals.antt =====
-- Which requests POST /withdraw refuses (backend/src/routes/vault.ts).
use starknet.Auth.{AuthError}
use starknet.Payout.{Broadcast, accepted, lost, rejected}
use starknet.Vault.{active, withdrawn, Vault, Store, get_vault, get_vault_by_nullifier}
use starknet.Vault.Burn.{
  Server, Request, Surroundings, Response, bad_request, vault_not_found, server_error, success,
  is_burned, is_own_address, check_request, check_vault, proceed, burn_vault, is_invalid_owner,
  send_burn, record_burn,
}
use starknet.Vault.Withdraw.{
  withdraw_vault, carry_out, retry, finish_first, pay_vault, close_vault, close_paid,
}
use starknet.Vault.Steps.{Check-cases}
use starknet.Common.{
  ℕ, ◌≡◌, ◌≢◌, refl, ◌⊎◌, ◌↔◌, Bool, true, false, Option, none, some, JsString, codes, starts_with,
  arith, Bool-cases, Option-cases, inl, inr,
}

-- The vault that a request may go on with: the one of the nullifier, not withdrawn, and active unless its
-- withdrawal on Starknet is done; the address is one of the test network and not the server's.
abbrev pub Admitted : Server → Request → Store → Vault → Type 0
Admitted server r s v =
    (starts_with r.bitcoin_address (codes "tb1") ≡ true)
    × (is_own_address server r.bitcoin_address ≡ false)
    × (get_vault_by_nullifier r.nullifier_hash s.vaults ≡ some v)
    × (v.status ≢ withdrawn)
    × ((v.status ≡ active) ⊎ (is_burned v ≡ true))

-- A request gets past the checks, with a vault, exactly if it is admitted with that vault.
pub check_request-Admitted :
    (server : Server) (r : Request) (s : Store) (v : Vault)
    → (check_request server r s ≡ proceed v) ↔ Admitted server r s v
unfolding check_request check_vault
check_request-Admitted server r s v =
    elim (Option-cases (get_vault_by_nullifier r.nullifier_hash s.vaults)) [
      | inl e ↦ ground arith
      | inr (u, e) ↦ ground arith
    ]

-- The answers with status 400 and 404.
abbrev pub is_refusal : Response → Bool
is_refusal (bad_request x) = true
is_refusal vault_not_found = true
is_refusal server_error = false
is_refusal (success x) = false

-- The answer is no refusal, or nothing has changed.
abbrev Clean : Store → Response × Store → Type 0
Clean s r = (is_refusal r.0 ≡ false) ⊎ (r.1 ≡ s)

close_paid-Clean :
    (r : Request) (e : Surroundings) (v : Vault) (hash : JsString)
    (q : Option (Option JsString × Option AuthError) × Store)
    → is_refusal (close_paid r e v hash q).0 ≡ false
unfolding close_vault
close_paid-Clean r e v hash (none, s) = refl
close_paid-Clean r e v hash (some p, s) = ground arith

retry-Clean :
    (server : Server) (r : Request) (e : Surroundings) (v : Vault) (hash : JsString) (s : Store)
    → is_refusal (retry server r e v hash s).0 ≡ false
unfolding retry
retry-Clean server r e v hash s = elim (Option-cases (pay_vault server r e v.id hash s).0) [
  | inl q ↦ rw (q, retry) refl
  | inr (p, q) ↦ rw (q, retry) refl
]

sent-Clean :
    (server : Server) (r : Request) (e : Surroundings) (v : Vault) (amount : ℕ) (s : Store)
    (b : Broadcast)
    → Clean s (finish_first server r e v (send_burn r.nullifier_hash amount b s))
unfolding finish_first
sent-Clean server r e v amount s (accepted hash) = inl (
    close_paid-Clean r e v hash
      (pay_vault server r e v.id hash (record_burn r.nullifier_hash amount s)))
sent-Clean server r e v amount s (lost m) = inl refl
sent-Clean server r e v amount s (rejected m) = inl refl

burn-Clean :
    (server : Server) (r : Request) (e : Surroundings) (v : Vault) (s : Store)
    → Clean s (finish_first server r e v (burn_vault server r e v.id s))
unfolding finish_first burn_vault
burn-Clean server r e v s = elim (Option-cases (get_vault v.id s.vaults)) [
  | inl f ↦ rw (f, burn_vault) (inl refl)
  | inr (u, f) ↦ elim (Option-cases (server.decrypt_amount u.encrypted_amount u.salt)) [
    | inl d ↦ rw (f, burn_vault, d) (inl refl)
    | inr (amount, d) ↦ elim (Bool-cases (is_invalid_owner u.owner_address)) [
      | inl o ↦ rw (f, burn_vault, d, o) (inr refl)
      | inr o ↦ rw (f, burn_vault, d, o) (sent-Clean server r e v amount s e.burn)
    ]
  ]
]

-- A request that is refused with status 400 or 404 burns nothing, pays nothing and writes nothing.
pub withdraw_vault_refused :
    (server : Server) (r : Request) (e : Surroundings) (s : Store)
    → is_refusal (withdraw_vault server r e s).0 ≡ true
    → (withdraw_vault server r e s).1 ≡ s
unfolding withdraw_vault carry_out
withdraw_vault_refused server r e s h = elim clean [ inl q ↦ absurd (ground arith) | inr q ↦ q ]
  where
    clean : Clean s (withdraw_vault server r e s)
    clean = elim (Check-cases (check_request server r s)) [
      | inl (x, c) ↦ rw (c, withdraw_vault) (inr refl)
      | inr (v, c) ↦ elim (Option-cases v.withdraw_tx_hash) [
        | inr (hash, w) ↦ rw (c, withdraw_vault, w) (inl (retry-Clean server r e v hash s))
        | inl w ↦ rw (c, withdraw_vault, w) (burn-Clean server r e v s)
      ]
    ]
