-- ===== src/Vault/Payments.antt =====
-- What step 5 of POST /withdraw pays (backend/src/routes/vault.ts).
use starknet.Auth
use starknet.Auth.{
  Auths, WithdrawalAuthorization, ok, Params, is_status, completed, new_row, write_status,
  update_where_id, update_status, get_authorization_by_nullifier, create_authorization, clashes,
}
use starknet.Auth.Table.{Holds, Holds-update_self, write_status-KeepsKeys, Unique}
use starknet.Auth.Creation.{create_lem, create_authorization-Unique}
use starknet.Payout.{World, Payment, Broadcast, Options, send, set_status}
use starknet.Payout.Send.{delivered, is_payable, send-payments}
use starknet.Payout.Poll.{execute_covenant_withdrawal-payments}
use starknet.Vault.Burn.{Surroundings}
use starknet.Vault.Withdraw.{
  pay_authorized, authorized, reset_failed, authorize, race, note_txid, attempt_payout, pay_out,
}
use starknet.Common.{
  ℕ, ◌≡◌, refl, sym, subst, ap, ◌∙◌, Bool, not, ◌&&◌, ◌||◌, Option, none, some, List, [], ◌∷◌, ◌++◌,
  JsString, codes, starts_with, find?, if◌then◌else◌, arith, Bool-cases, inl, inr,
}

-- What one attempt pays for a row that the table holds.
abbrev pub attempt_of : Options → Broadcast → WithdrawalAuthorization → List Payment
attempt_of o b a =
    if o.use_covenants
      || (is_payable a && o.configured && starts_with a.bitcoin_address (codes "tb1"))
    then delivered (a.bitcoin_address, a.amount_sats) b
    else []

send-attempt_of :
    (o : Options) (a : WithdrawalAuthorization) (b : Broadcast) (now : ℕ) (w : World)
    → Holds a w.auths
    → (send o a.id b now w).1.payments ≡ attempt_of o b a ++ w.payments
send-attempt_of o a b now w h = elim (Bool-cases o.use_covenants) [
  | inl c ↦ rw c (execute_covenant_withdrawal-payments a b w h)
  | inr c ↦ rw c (send-payments o.configured a b now w h)
]

set_status-payments :
    (id : JsString) (s : Auth.Status) (txid m : Option JsString) (now : ℕ) (w : World)
    → (set_status id s txid m now w).1.payments ≡ w.payments
unfolding update_status
set_status-payments id s txid m now w = ground arith

note_txid-payments :
    (id : JsString) (now : ℕ) (txid : Option JsString) (w : World)
    → (note_txid id now txid w).payments ≡ w.payments
note_txid-payments id now none w = refl
note_txid-payments id now (some txid) w = set_status-payments id completed (some txid) none now w

attempt_payout-payments :
    (o : Options) (e : Surroundings) (a : WithdrawalAuthorization) (w : World)
    → Holds a w.auths
    → (attempt_payout o e a.id w).1.payments ≡ attempt_of o e.network a ++ w.payments
unfolding attempt_payout
attempt_payout-payments o e a w h =
    let r = send o a.id e.network e.now w in
    note_txid-payments a.id e.now (race e.in_time r.0) r.1 ∙ send-attempt_of o a e.network e.now w h

-- The row that the payment finds, once a failed one is reset.
abbrev pub retried : ℕ → WithdrawalAuthorization → WithdrawalAuthorization
retried now a =
    if is_status a.status Auth.failed then write_status Auth.pending none none now a else a

reset_failed-Holds :
    (a : WithdrawalAuthorization) (now : ℕ) (w : World)
    → Holds a w.auths
    → Holds (retried now a) (reset_failed a now w).auths
unfolding update_status
reset_failed-Holds a now w h = elim (Bool-cases (is_status a.status Auth.failed)) [
  | inl f ↦ rw f (
      Holds-update_self a (write_status Auth.pending none none now) w.auths
        (write_status-KeepsKeys Auth.pending none none now) h)
  | inr f ↦ rw f h
]

authorize_again :
    (vaults : List JsString) (e : Surroundings) (p : Params) (a : WithdrawalAuthorization)
    (w : World)
    → Holds a w.auths
    → p.nullifier_hash ≡ a.nullifier_hash
    → authorize vaults e p w ≡ (authorized a.id, reset_failed a e.now w)
unfolding authorize get_authorization_by_nullifier
authorize_again vaults e p a w h n =
    let q : get_authorization_by_nullifier p.nullifier_hash w.auths ≡ some a =
      subst (λ m. get_authorization_by_nullifier m w.auths ≡ some a) (sym n) h.by_nullifier in
    rw (q, authorize) refl

pub pay_out_authorized :
    (o : Options) (vaults : List JsString) (e : Surroundings) (p : Params) (w w' : World)
    (id : JsString)
    → authorize vaults e p w ≡ (authorized id, w')
    → (pay_out o vaults e p w).1 ≡ (attempt_payout o e id w').1
unfolding pay_out
pay_out_authorized o vaults e p w w' id q = ap (λ r. (pay_authorized o e r).1) q

attempt_payout_again :
    (o : Options) (e : Surroundings) (a : WithdrawalAuthorization) (w : World)
    → Holds a w.auths
    → (attempt_payout o e a.id (reset_failed a e.now w)).1.payments
      ≡ attempt_of o e.network (retried e.now a) ++ w.payments
attempt_payout_again o e a w h = elim (Bool-cases (is_status a.status Auth.failed)) [
  | inl f ↦
      let c = write_status Auth.pending none none e.now a in
      let w' = (set_status a.id Auth.pending none none e.now w).1 in
      let held : Holds c w'.auths =
        subst (λ (b : Bool). Holds (if b then c else a) (if b then w' else w).auths) f
          (reset_failed-Holds a e.now w h) in
      rw f (
        attempt_payout-payments o e c w' held
        ∙ ap (λ l. attempt_of o e.network c ++ l)
            (set_status-payments a.id Auth.pending none none e.now w))
  | inr f ↦ rw f (attempt_payout-payments o e a w h)
]

retried-attempt_of :
    (o : Options) (b : Broadcast) (now : ℕ) (a : WithdrawalAuthorization)
    → attempt_of o b (retried now a) ≡ (
        if o.use_covenants
          || (not (is_status a.status completed)
              && o.configured
              && starts_with a.bitcoin_address (codes "tb1"))
        then delivered (a.bitcoin_address, a.amount_sats) b
        else [])
retried-attempt_of o b now a = ground arith

-- A retry pays what the table records, to the address that the table records, unless the row is completed;
-- with covenants it pays even then.
pub pay_out_again :
    (o : Options) (vaults : List JsString) (e : Surroundings) (p : Params)
    (a : WithdrawalAuthorization) (w : World)
    → Holds a w.auths
    → p.nullifier_hash ≡ a.nullifier_hash
    → (pay_out o vaults e p w).1.payments
      ≡ (if o.use_covenants
            || (not (is_status a.status completed)
                && o.configured
                && starts_with a.bitcoin_address (codes "tb1"))
          then delivered (a.bitcoin_address, a.amount_sats) e.network
          else [])
        ++ w.payments
pay_out_again o vaults e p a w h n =
    ap (λ v. v.payments)
      (pay_out_authorized o vaults e p w (reset_failed a e.now w) a.id
        (authorize_again vaults e p a w h n))
    ∙ attempt_payout_again o e a w h
    ∙ ap (λ l. l ++ w.payments) (retried-attempt_of o e.network e.now a)

no_nullifier :
    (p : Params) (t : Auths)
    → find? (clashes p) t ≡ none
    → get_authorization_by_nullifier p.nullifier_hash t ≡ none
unfolding get_authorization_by_nullifier
no_nullifier p [] h = refl
no_nullifier p (a ∷ t) h = ground (arith, no_nullifier p t)

pub authorize_new :
    (vaults : List JsString) (e : Surroundings) (p : Params) (w : World) (t : Auths)
    → create_authorization vaults e.authorization_id e.now p w.auths ≡ ok t
    → authorize vaults e p w ≡ (authorized e.authorization_id, record w { auths = t })
unfolding authorize
authorize_new vaults e p w t c =
    let l = create_lem vaults e.authorization_id e.now p w.auths t c in
    rw (no_nullifier p w.auths l.0.4, authorize, c) refl

-- A first attempt pays the amount of the request to its address, if the mode of payment can pay and the
-- network delivers.
pub pay_out_new :
    (o : Options) (vaults : List JsString) (e : Surroundings) (p : Params) (w : World) (t : Auths)
    → Unique w.auths
    → create_authorization vaults e.authorization_id e.now p w.auths ≡ ok t
    → (pay_out o vaults e p w).1.payments
      ≡ (if o.use_covenants || o.configured
          then delivered (p.bitcoin_address, p.amount_sats) e.network
          else [])
        ++ w.payments
pay_out_new o vaults e p w t u c =
    let row = new_row e.authorization_id e.now p in
    let l = create_lem vaults e.authorization_id e.now p w.auths t c in
    let k = create_authorization-Unique vaults e.authorization_id e.now p w.auths t c u in
    let paid : attempt_of o e.network row ≡ (
        if o.use_covenants || o.configured
        then delivered (p.bitcoin_address, p.amount_sats) e.network
        else []) =
      ground (arith, l.0.0) in
    ap (λ v. v.payments)
      (pay_out_authorized o vaults e p w (record w { auths = t }) e.authorization_id
        (authorize_new vaults e p w t c))
    ∙ attempt_payout-payments o e row (record w { auths = t }) k.1
    ∙ ap (λ l'. l' ++ w.payments) paid
