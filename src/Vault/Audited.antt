-- ===== src/Vault/Audited.antt =====
-- What the audit writes back (backend/src/routes/audit.ts).
use starknet.Vault
use starknet.Vault.{VaultStatus, Vault, Vaults, TransactionRow}
use starknet.Vault.Audit.{
  Audit, AuditAnswer, answered, call_failed, Finality, audit_verify, verify_hash, verify_hashes,
  start_audit, deposit_hashes, is_simulated, audited, status_of, db_status, is_deposit_of,
  has_deposit, set_vault_status,
}
use starknet.Common.{
  Option-cases, ◌⊎◌, ◌≡◌, refl, sym, ap, ◌∙◌, subst, true, false, Option, none, some, List, [], ◌∷◌,
  JsString, ◌===◌, ===_iff, any, All, arith, Bool-cases, inl, inr,
}

-- The vaults with this deposit have this status.
abbrev HaveStatus : JsString → VaultStatus → Vaults → Type 0
HaveStatus h x t = All (λ v. has_deposit h v ≡ true → v.status ≡ x) t

set-HaveStatus :
    (h : JsString) (x : VaultStatus) (t : Vaults) → HaveStatus h x (set_vault_status h x t)
set-HaveStatus h x [] = tt
set-HaveStatus h x (v ∷ t) = (λ p. ground arith, set-HaveStatus h x t)

-- A vault has one deposit.
one_deposit :
    (g h : JsString) (o : Option JsString)
    → is_deposit_of g o ≡ true
    → is_deposit_of h o ≡ true
    → g ≡ h
one_deposit g h none p q = cc
one_deposit g h (some d) p q = sym ((===_iff d g).0 p) ∙ (===_iff d h).0 q

keep-HaveStatus :
    (g h : JsString) (x y : VaultStatus) (t : Vaults)
    → (g ≡ h → y ≡ x)
    → HaveStatus h x t
    → HaveStatus h x (set_vault_status g y t)
keep-HaveStatus g h x y [] e k = tt
keep-HaveStatus g h x y (v ∷ t) e k = (
  λ p. elim (Bool-cases (has_deposit g v)) [
    | inl q ↦ ground (arith, one_deposit g h v.deposit_tx_hash q, e)
    | inr q ↦ ground (arith, k.0)
  ],
  keep-HaveStatus g h x y t e k.1,
)

verify_hash-HaveStatus :
    (provider : JsString → AuditAnswer) (g h : JsString) (f : Finality) (a : Audit)
    → provider h ≡ answered f
    → HaveStatus h (db_status (status_of f)) a.vaults
    → HaveStatus h (db_status (status_of f)) (verify_hash provider g a).vaults
unfolding verify_hash
verify_hash-HaveStatus provider g h f a e k = elim (Bool-cases (is_simulated g)) [
  | inl q ↦ rw (q, verify_hash) k
  | inr q ↦ rw (q, verify_hash) (go (provider g) refl)
]
  where
    agree :
        (f' : Finality)
        → provider g ≡ answered f'
        → g ≡ h
        → db_status (status_of f') ≡ db_status (status_of f)
    agree f' r q =
        ap (λ x. elim x [ answered y ↦ db_status (status_of y) | call_failed ↦ Vault.pending ])
          (sym r ∙ ap provider q ∙ e)

    go :
        (x : AuditAnswer)
        → provider g ≡ x
        → HaveStatus h (db_status (status_of f)) (audited g x a).vaults
    go (answered f') r =
        keep-HaveStatus g h (db_status (status_of f)) (db_status (status_of f')) a.vaults
          (λ q. agree f' r q) k
    go call_failed r = k

verify_hashes-keep :
    (provider : JsString → AuditAnswer) (h : JsString) (f : Finality) (hs : List JsString)
    (a : Audit)
    → provider h ≡ answered f
    → HaveStatus h (db_status (status_of f)) a.vaults
    → HaveStatus h (db_status (status_of f)) (verify_hashes provider hs a).vaults
unfolding verify_hashes
verify_hashes-keep provider h f [] a e k = k
verify_hashes-keep provider h f (g ∷ hs) a e k =
    verify_hashes-keep provider h f hs (verify_hash provider g a) e
      (verify_hash-HaveStatus provider g h f a e k)

-- A hash that is looked up sets the status of its vaults.
verify_hash-set :
    (provider : JsString → AuditAnswer) (h : JsString) (f : Finality) (a : Audit)
    → provider h ≡ answered f
    → is_simulated h ≡ false
    → HaveStatus h (db_status (status_of f)) (verify_hash provider h a).vaults
unfolding verify_hash
verify_hash-set provider h f a e q =
    rw (q, verify_hash, e) (set-HaveStatus h (db_status (status_of f)) a.vaults)

verify_hashes-set :
    (provider : JsString → AuditAnswer) (h : JsString) (f : Finality) (hs : List JsString)
    (a : Audit)
    → provider h ≡ answered f
    → is_simulated h ≡ false
    → any (λ g. g === h) hs ≡ true
    → HaveStatus h (db_status (status_of f)) (verify_hashes provider hs a).vaults
unfolding verify_hashes
verify_hashes-set provider h f [] a e q m = cc
verify_hashes-set provider h f (g ∷ hs) a e q m = elim (Bool-cases (g === h)) [
  | inl p ↦ verify_hashes-keep provider h f hs (verify_hash provider g a) e (
      subst (λ k. HaveStatus h (db_status (status_of f)) (verify_hash provider k a).vaults)
        (sym ((===_iff g h).0 p)) (verify_hash-set provider h f a e q))
  | inr p ↦ verify_hashes-set provider h f hs (verify_hash provider g a) e q (ground arith)
]

-- No vault has the deposit, or its hash is listed.
listed_or_none :
    (h : JsString) (x : VaultStatus) (t : Vaults)
    → (any (λ g. g === h) (deposit_hashes t) ≡ true) ⊎ HaveStatus h x t
unfolding deposit_hashes
listed_or_none h x [] = inr tt
listed_or_none h x (v ∷ t) = elim (Option-cases v.deposit_tx_hash) [
  | inl d ↦ elim (listed_or_none h x t) [
    | inl m ↦ inl (rw (d, deposit_hashes) m)
    | inr k ↦ inr (λ p. absurd (ground arith), k)
  ]
  | inr (g, d) ↦ elim (Bool-cases (g === h)) [
    | inl q ↦ inl (rw (d, deposit_hashes, q) refl)
    | inr q ↦ elim (listed_or_none h x t) [
      | inl m ↦ inl (rw (d, deposit_hashes, q) m)
      | inr k ↦ inr (λ p. absurd (ground arith), k)
    ]
  ]
]

-- After an audit every vault whose deposit has a hash that is not simulated, and that the provider answers
-- for, is active if the answer says that the deposit succeeded, and pending if not, whatever its status was
-- before; a withdrawn vault is no exception.
pub audit_verify-HaveStatus :
    (provider : JsString → AuditAnswer) (h : JsString) (f : Finality) (t : Vaults)
    → provider h ≡ answered f
    → is_simulated h ≡ false
    → All
        (λ v. has_deposit h v ≡ true → v.status ≡ db_status (status_of f))
        (audit_verify provider t).vaults
unfolding audit_verify
audit_verify-HaveStatus provider h f t e q = elim (listed_or_none h (db_status (status_of f)) t) [
  | inl m ↦ verify_hashes-set provider h f (deposit_hashes t) (start_audit t) e q m
  | inr k ↦ verify_hashes-keep provider h f (deposit_hashes t) (start_audit t) e k
]
