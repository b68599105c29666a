-- ===== src/Payout/Frame.antt =====
-- The row that a step of the payment code works on stands in the table afterwards, and the other
-- rows are left alone.
use starknet.Common.{
  ℕ, Bool, true, false, not, ◌&&◌, ◌≡◌, ◌≢◌, refl, sym, subst, Option, none, some, [], ◌∷◌,
  JsString, if◌then◌else◌, arith, Bool-cases, Option-cases, inl, inr, ◌⊎◌,
}
use starknet.Auth.{
  Auths, WithdrawalAuthorization, Status, pending, processing, completed, failed, is_status,
  missing, update_status, write_status, update_where_id, get_authorization_by_id,
  verify_authorization, valid, refused, Verdict, Refusal,
}
use starknet.Auth.Table.{Holds, Holds-update_self, Holds-update_ne, write_status-KeepsKeys}
use starknet.Payout.{
  World, Payment, Broadcast, accepted, lost, rejected, Reply, returned, thrown, set_status,
  mark_completed, settle, broadcast, send_bitcoin_to_address, send_bitcoin_with_authorization,
  execute_covenant_withdrawal, send, conclude, process_authorization, Options, message, no_txid,
  Answers, verify_starknet_transaction,
}

-- The table holds a row with this identifier, in this status.
abbrev pub Stands : JsString → Status → Auths → Type 0
Stands id s t = (c : WithdrawalAuthorization) × Holds c t × (c.id ≡ id) × (c.status ≡ s)

-- A call of `updateStatus` that is allowed.
abbrev pub allowed : Status → Option JsString → Bool
allowed s txid = not (is_status s completed && missing txid)

pub set_status-Stands :
    (id : JsString) (s : Status) (txid m : Option JsString) (now : ℕ) (w : World) {s' : Status}
    → allowed s txid ≡ true
    → Stands id s' w.auths
    → Stands id s (set_status id s txid m now w).1.auths
unfolding update_status
set_status-Stands id s txid m now w a (c, h, i, _) =
    let e : (set_status id s txid m now w).1.auths
        ≡ update_where_id c.id (write_status s txid m now) w.auths =
      ground arith in
    (
      write_status s txid m now c,
      subst (Holds (write_status s txid m now c)) (sym e) (
          Holds-update_self c (write_status s txid m now) w.auths
            (write_status-KeepsKeys s txid m now) h),
      i,
      refl,
    )

Verdict-cases :
    (v : Verdict)
    → ((r : Refusal) × (v ≡ refused r)) ⊎ ((a : WithdrawalAuthorization) × (v ≡ valid a))
Verdict-cases (refused r) = inl (r, refl)
Verdict-cases (valid a) = inr (a, refl)

-- The table after the call: written to, or as it was if the call throws.
set_status_lem :
    (id : JsString) (s : Status) (txid m : Option JsString) (now : ℕ) (w : World)
    → (set_status id s txid m now w).1.auths
      ≡ (if allowed s txid then update_where_id id (write_status s txid m now) w.auths else w.auths)
unfolding update_status
set_status_lem id s txid m now w = ground arith

-- A row with another identifier stays as it is.
pub set_status-Holds :
    (c : WithdrawalAuthorization) (id : JsString) (s : Status) (txid m : Option JsString) (now : ℕ)
    (w : World)
    → c.id ≢ id
    → Holds c w.auths
    → Holds c (set_status id s txid m now w).1.auths
set_status-Holds c id s txid m now w ne h =
    subst (Holds c) (sym (set_status_lem id s txid m now w)) (go (allowed s txid))
  where
    go :
        (b : Bool)
        → Holds c (if b then update_where_id id (write_status s txid m now) w.auths else w.auths)
    go true =
        Holds-update_ne c id (write_status s txid m now) w.auths
          (write_status-KeepsKeys s txid m now) ne h
    go false = h

-- The three ways in which an attempt ends leave the other rows as they are.
pub broadcast_auths :
    (p : Payment) (b : Broadcast) (w : World) → (broadcast p b w).1.auths ≡ w.auths
broadcast_auths p (accepted txid) w = refl
broadcast_auths p (lost m) w = refl
broadcast_auths p (rejected m) w = refl

pub send_bitcoin_to_address_auths :
    (configured : Bool) (p : Payment) (b : Broadcast) (w : World)
    → (send_bitcoin_to_address configured p b w).1.auths ≡ w.auths
unfolding send_bitcoin_to_address
send_bitcoin_to_address_auths configured p b w = ground (arith, broadcast_auths p b w)

module _ (c : WithdrawalAuthorization) (id : JsString) (ne : c.id ≢ id) (now : ℕ) where
  mark_completed-Holds :
      (txid : JsString) (w : World)
      → Holds c w.auths
      → Holds c (mark_completed id now txid w).1.auths
  unfolding update_status
  mark_completed-Holds [] w h =
      set_status-Holds c id failed none (some (message no_txid)) now w ne h
  mark_completed-Holds (x ∷ txid) w h =
      set_status-Holds c id completed (some (x ∷ txid)) none now w ne h

  settle-Holds : (r : Reply) (w : World) → Holds c w.auths → Holds c (settle id now (r, w)).1.auths
  settle-Holds (returned txid) w h = mark_completed-Holds txid w h
  settle-Holds (thrown m) w h = set_status-Holds c id failed none (some m) now w ne h

  conclude-Holds :
      (r : Reply) (w : World) → Holds c w.auths → Holds c (conclude id now (r, w)).auths
  unfolding update_status
  conclude-Holds (returned []) w h = set_status-Holds c id pending none none now w ne h
  conclude-Holds (returned (x ∷ txid)) w h =
      set_status-Holds c id completed (some (x ∷ txid)) none now w ne h
  conclude-Holds (thrown m) w h = set_status-Holds c id pending none none now w ne h

  pub send_bitcoin_with_authorization-Holds :
      (configured : Bool) (b : Broadcast) (w : World)
      → Holds c w.auths
      → Holds c (send_bitcoin_with_authorization configured id b now w).1.auths
  unfolding send_bitcoin_with_authorization
  send_bitcoin_with_authorization-Holds configured b w h =
      elim (Option-cases (get_authorization_by_id id w.auths)) [
        | inl e ↦ rw (e, send_bitcoin_with_authorization) h
        | inr (a, e) ↦ elim (Verdict-cases (verify_authorization a.nullifier_hash w.auths)) [
          | inl (r, v) ↦ rw (e, send_bitcoin_with_authorization, v) h
          | inr (a', v) ↦
              rw (e, send_bitcoin_with_authorization, v) (sent (a.bitcoin_address, a.amount_sats))
        ]
      ]
    where
      w' : World
      w' = (set_status id processing none none now w).1

      sent :
          (p : Payment)
          → Holds c (settle id now (send_bitcoin_to_address configured p b w')).1.auths
      sent p =
          settle-Holds (send_bitcoin_to_address configured p b w').0
            (send_bitcoin_to_address configured p b w').1
            (subst (Holds c) (sym (send_bitcoin_to_address_auths configured p b w'))
              (set_status-Holds c id processing none none now w ne h))

  execute_covenant_withdrawal-Holds :
      (b : Broadcast) (w : World)
      → Holds c w.auths
      → Holds c (execute_covenant_withdrawal id b w).1.auths
  unfolding execute_covenant_withdrawal
  execute_covenant_withdrawal-Holds b w h =
      elim (Option-cases (get_authorization_by_id id w.auths)) [
        | inl e ↦ rw (e, execute_covenant_withdrawal) h
        | inr (a, e) ↦
            rw (e, execute_covenant_withdrawal)
              (subst (Holds c) (sym (broadcast_auths (a.bitcoin_address, a.amount_sats) b w)) h)
      ]

  send-Holds :
      (o : Options) (b : Broadcast) (w : World)
      → Holds c w.auths
      → Holds c (send o id b now w).1.auths
  send-Holds o b w h = elim (Bool-cases o.use_covenants) [
    | inl e ↦ rw e (execute_covenant_withdrawal-Holds b w h)
    | inr e ↦ rw e (send_bitcoin_with_authorization-Holds o.configured b w h)
  ]

-- The turn of one row leaves every other row as it is.
pub process_authorization-Holds :
    (c a : WithdrawalAuthorization) (o : Options) (e : Answers) (now : ℕ) (w : World)
    → c.id ≢ a.id
    → Holds c w.auths
    → Holds c (process_authorization o a e now w).auths
unfolding process_authorization
process_authorization-Holds c a o e now w ne h =
    elim (Bool-cases (verify_starknet_transaction e.receipt)) [
      | inl final ↦
          rw (final, process_authorization)
            (conclude-Holds c a.id ne now (send o a.id e.network now w').0
              (send o a.id e.network now w').1 (send-Holds c a.id ne now o e.network w' started))
      | inr later ↦
          rw (later, process_authorization)
            (set_status-Holds c a.id pending none none now w' ne started)
    ]
  where
    w' : World
    w' = (set_status a.id processing none none now w).1

    started : Holds c w'.auths
    started = set_status-Holds c a.id processing none none now w ne h
