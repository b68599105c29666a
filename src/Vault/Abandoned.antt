-- ===== src/Vault/Abandoned.antt =====
-- A withdrawal whose first payment fails (backend/src/routes/vault.ts): the burn is made, and nothing pays
-- it any more.
use starknet.Auth.{
  Auths, WithdrawalAuthorization, new_row, failed, processing, get_authorization_by_id,
  verify_authorization,
}
use starknet.Auth.Table.{Holds}
use starknet.Auth.Creation.{create_authorization-Unique}
use starknet.Payout.{
  Payment, settle, mark_failed, message, missing_configuration, invalid_recipient, World, Broadcast,
  rejected, thrown, send_bitcoin_with_authorization, send_bitcoin_to_address, set_status, Options,
}
use starknet.Payout.Send.{is_payable}
use starknet.Payout.Frame.{Stands, set_status-Stands}
use starknet.Vault.{Vault, Store, get_vault_by_nullifier, withdrawn}
use starknet.Vault.Burn.{
  record_burn, Server, Request, Surroundings, bad_request, already_withdrawn, is_own_address,
  check_request, check_vault,
}
use starknet.Vault.Withdraw.{withdraw_vault, mark_withdrawn, params_of, attempt_payout, pay_out}
use starknet.Vault.Steps.{close_vault_lem}
use starknet.Vault.Rows.{get_vault_by_nullifier-mark}
use starknet.Vault.Payments.{authorize_new, pay_out_authorized}
use starknet.Vault.First.{IsReady, ids, ready-withdraw, withdraw_vault_first}
use starknet.Common.{
  List, [], All, List, ℕ, ◌≡◌, refl, sym, subst, ap, ◌∙◌, Bool, true, false, none, some, ◌∷◌,
  JsString, codes, starts_with, arith, inl, inr, Bool-cases,
}

-- A vault that is withdrawn is refused, and nothing changes.
pub withdrawn_refused :
    (server : Server) (r : Request) (e : Surroundings) (s : Store) (v : Vault)
    → get_vault_by_nullifier r.nullifier_hash s.vaults ≡ some v
    → v.status ≡ withdrawn
    → starts_with r.bitcoin_address (codes "tb1") ≡ true
    → is_own_address server r.bitcoin_address ≡ false
    → withdraw_vault server r e s ≡ (bad_request already_withdrawn, s)
unfolding withdraw_vault check_request check_vault
withdrawn_refused server r e s v f w signet own = ground (arith, f, w, signet, own)

-- Whatever the address of the request is, nothing changes.
withdrawn_unchanged :
    (server : Server) (r : Request) (e : Surroundings) (s : Store) (v : Vault)
    → get_vault_by_nullifier r.nullifier_hash s.vaults ≡ some v
    → v.status ≡ withdrawn
    → (withdraw_vault server r e s).1 ≡ s
unfolding withdraw_vault check_request check_vault
withdrawn_unchanged server r e s v f w = ground (arith, f, w)

-- What requests that follow each other leave
abbrev pub withdraw_all : Server → List (Request × Surroundings) → Store → Store
withdraw_all server [] s = s
withdraw_all server (x ∷ xs) s = withdraw_all server xs (withdraw_vault server x.0 x.1 s).1

requests_unchanged :
    (server : Server) (n : JsString) (xs : List (Request × Surroundings)) (s : Store) (v : Vault)
    → get_vault_by_nullifier n s.vaults ≡ some v
    → v.status ≡ withdrawn
    → All (λ x. x.0.nullifier_hash ≡ n) xs
    → withdraw_all server xs s ≡ s
requests_unchanged server n [] s v f w h = refl
requests_unchanged server n (x ∷ xs) s v f w h =
    let same : get_vault_by_nullifier x.0.nullifier_hash s.vaults ≡ some v =
      subst (λ k. get_vault_by_nullifier k s.vaults ≡ some v) (sym h.0) f in
    rw (withdrawn_unchanged server x.0 x.1 s v same w) (requests_unchanged server n xs s v f w h.1)

-- A payment that the network refuses throws, and changes nothing by itself.
refused_lem :
    (configured : Bool) (p : Payment) (m : JsString) (w : World)
    → (m' : JsString) × (send_bitcoin_to_address configured p (rejected m) w ≡ (thrown m', w))
unfolding send_bitcoin_to_address
refused_lem false p m w = (message missing_configuration, refl)
refused_lem true p m w = elim (Bool-cases (starts_with p.0 (codes "tb1"))) [
  | inl t ↦ (m, rw (t, send_bitcoin_to_address) refl)
  | inr t ↦ (message invalid_recipient, rw (t, send_bitcoin_to_address) refl)
]

abbrev started : WithdrawalAuthorization → ℕ → World → World
started a now w = (set_status a.id processing none none now w).1

settled_lem :
    (configured : Bool) (a : WithdrawalAuthorization) (b : Broadcast) (now : ℕ) (w : World)
    → Holds a w.auths
    → is_payable a ≡ true
    → send_bitcoin_with_authorization configured a.id b now w
      ≡ settle a.id now (
          send_bitcoin_to_address configured (a.bitcoin_address, a.amount_sats) b (started a now w))
unfolding send_bitcoin_with_authorization get_authorization_by_id verify_authorization
settled_lem configured a b now w h p = ground (arith, h.by_id, h.by_nullifier)

-- A payment that the network refuses leaves its row failed.
send_rejected :
    (configured : Bool) (a : WithdrawalAuthorization) (m : JsString) (now : ℕ) (w : World)
    → Holds a w.auths
    → is_payable a ≡ true
    → (m' : JsString) × (send_bitcoin_with_authorization configured a.id (rejected m) now w
        ≡ mark_failed a.id now m' (started a now w))
send_rejected configured a m now w h p =
    let q = refused_lem configured (a.bitcoin_address, a.amount_sats) m (started a now w) in
    (q.0, settled_lem configured a (rejected m) now w h p ∙ ap (settle a.id now) q.1)

attempt_rejected :
    (o : Options) (e : Surroundings) (a : WithdrawalAuthorization) (m : JsString) (w : World)
    → Holds a w.auths
    → is_payable a ≡ true
    → o.use_covenants ≡ false
    → e.network ≡ rejected m
    → Stands a.id failed (attempt_payout o e a.id w).1.auths
unfolding attempt_payout
attempt_rejected o e a m w h p c n =
    let q = send_rejected o.configured a m e.now w h p in
    let begun : Stands a.id processing (started a e.now w).auths =
      set_status-Stands a.id processing none none e.now w refl (a, h, refl, refl) in
    let done : Stands a.id failed (mark_failed a.id e.now q.0 (started a e.now w)).1.auths =
      set_status-Stands a.id failed none (some q.0) e.now (started a e.now w) refl begun in
    rw (n, c, q.1, attempt_payout) done

-- A first attempt that is ready, without covenants, whose payment the network refuses: the burn is made,
-- and the authorization is left failed. As long as no other event than requests for that nullifier intervenes
-- (an audit would open the vault again), these change nothing, and each request to an admissible address is
-- answered that the vault is withdrawn already.
pub withdraw_vault_abandoned :
    (server : Server) (r r' : Request) (e e' : Surroundings) (v : Vault) (amount : ℕ)
    (hash m : JsString) (s : Store) (t : Auths) (between : List (Request × Surroundings))
    → IsReady server r e v amount hash s t
    → server.options.use_covenants ≡ false
    → e.network ≡ rejected m
    → All (λ x. x.0.nullifier_hash ≡ r.nullifier_hash) between
    → r'.nullifier_hash ≡ r.nullifier_hash
    → starts_with r'.bitcoin_address (codes "tb1") ≡ true
    → is_own_address server r'.bitcoin_address ≡ false
    → let s' = (withdraw_vault server r e s).1 in
      (s'.burns ≡ (r.nullifier_hash, amount) ∷ s.burns)
      × Stands e.authorization_id failed s'.world.auths
      × (withdraw_all server between s' ≡ s')
      × (withdraw_vault server r' e' (withdraw_all server between s')
          ≡ (bad_request already_withdrawn, s'))
withdraw_vault_abandoned server r r' e e' v amount hash m s t between h c n all same signet own =
    let first = withdraw_vault_first server r e v amount hash s t h in
    let s' = (withdraw_vault server r e s).1 in
    let p = params_of r v.id hash amount in
    let row = new_row e.authorization_id e.now p in
    let held =
      (create_authorization-Unique (ids s) e.authorization_id e.now p s.world.auths t h.created
        h.unique).1 in
    let w' = record s.world { auths = t } in
    let paid = pay_out server.options (ids s) e p s.world in
    let q : s'.world.auths ≡ (attempt_payout server.options e e.authorization_id w').1.auths =
      ap (λ x. x.1.world.auths) (ready-withdraw server r e v amount hash s t h)
      ∙ ap (λ x. x.auths)
          (close_vault_lem r e v hash paid.0
            (record (record_burn r.nullifier_hash amount s) { world = paid.1 }) h.hashed).2
      ∙ ap (λ x. x.auths)
          (pay_out_authorized server.options (ids s) e p s.world w' e.authorization_id
            (authorize_new (ids s) e p s.world t h.created)) in
    let closed : get_vault_by_nullifier r.nullifier_hash s'.vaults
        ≡ some (mark_withdrawn hash r.bitcoin_address v) =
      ap (get_vault_by_nullifier r.nullifier_hash) first.1
      ∙ get_vault_by_nullifier-mark r.nullifier_hash hash r.bitcoin_address s.vaults v h.found in
    let same_store : withdraw_all server between s' ≡ s' =
      requests_unchanged server r.nullifier_hash between s'
        (mark_withdrawn hash r.bitcoin_address v) closed refl all in
    let found : get_vault_by_nullifier r'.nullifier_hash s'.vaults
        ≡ some (mark_withdrawn hash r.bitcoin_address v) =
      subst
        (λ k. get_vault_by_nullifier k s'.vaults ≡ some (mark_withdrawn hash r.bitcoin_address v))
        (sym same) closed in
    (
      first.0,
      subst (Stands e.authorization_id failed) (sym q)
          (attempt_rejected server.options e row m w' held refl c n),
      same_store,
      rw same_store (
          withdrawn_refused server r' e' s' (mark_withdrawn hash r.bitcoin_address v) found refl
            signet own),
    )
