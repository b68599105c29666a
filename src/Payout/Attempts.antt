-- ===== src/Payout/Attempts.antt =====
-- How one attempt to pay ends: what is thrown, and what the table then holds
-- (backend/src/services/BitcoinBroadcastService.ts, BitcoinCovenantService.ts, WithdrawalProcessor.ts).
use starknet.Common.{
  ◌⊎◌, ℕ, Bool, true, false, ◌≡◌, refl, sym, subst, none, some, [], ◌∷◌, JsString, arith,
  Bool-cases, inl, inr,
}
use starknet.Auth.{
  Auths, WithdrawalAuthorization, Status, pending, processing, completed, failed, write_status,
  update_status, get_authorization_by_id, verify_authorization, valid,
}
use starknet.Auth.Table.{Holds, Holds-update_self, write_status-KeepsKeys}
use starknet.Payout.{
  World, Broadcast, Reply, returned, thrown, set_status, conclude, send, broadcast, accepted, lost,
  rejected, settle, Options, execute_covenant_withdrawal, send_bitcoin_with_authorization,
  send_bitcoin_to_address, message, no_txid,
}
use starknet.Payout.Frame.{
  Stands, set_status-Stands, broadcast_auths, send_bitcoin_to_address_auths,
}
use starknet.Payout.Poll.{takes}

Reply-cases : (r : Reply) → ((x : JsString) × (r ≡ returned x)) ⊎ ((m : JsString) × (r ≡ thrown m))
Reply-cases (returned x) = inl (x, refl)
Reply-cases (thrown m) = inr (m, refl)

verify_processing :
    (c : WithdrawalAuthorization) (w : World)
    → Holds c w.auths
    → c.status ≡ processing
    → verify_authorization c.nullifier_hash w.auths ≡ valid c
unfolding verify_authorization
verify_processing c w h s = ground (arith, h.by_nullifier)

-- The table holds a row with this identifier.
abbrev Present : JsString → Auths → Type 0
Present id t = (s : Status) × Stands id s t

module _ (id : JsString) (now : ℕ) where
  settle-Present :
      (r : Reply) (w : World) → Present id w.auths → Present id (settle id now (r, w)).1.auths
  unfolding update_status
  settle-Present (returned []) w h =
      (failed, set_status-Stands id failed none (some (message no_txid)) now w refl h.1)
  settle-Present (returned (x ∷ txid)) w h =
      (completed, set_status-Stands id completed (some (x ∷ txid)) none now w refl h.1)
  settle-Present (thrown m) w h = (failed, set_status-Stands id failed none (some m) now w refl h.1)

  pub conclude-thrown :
      (m : JsString) (r : Reply × World)
      → r.0 ≡ thrown m
      → Present id r.1.auths
      → Stands id pending (conclude id now r).auths
  conclude-thrown m (returned txid, w) e h = cc
  conclude-thrown m (thrown m', w) e h = set_status-Stands id pending none none now w refl h.1

  pub conclude-returned :
      (x : ℕ) (txid : JsString) (r : Reply × World)
      → r.0 ≡ returned (x ∷ txid)
      → Present id r.1.auths
      → Stands id completed (conclude id now r).auths
  unfolding update_status
  conclude-returned x txid (thrown m, w) e h = cc
  conclude-returned x txid (returned [], w) e h = cc
  conclude-returned x txid (returned (y ∷ txid'), w) e h =
      set_status-Stands id completed (some (y ∷ txid')) none now w refl h.1

pub started-Holds :
    (a : WithdrawalAuthorization) (now : ℕ) (w : World)
    → Holds a w.auths
    → Holds
        (write_status processing none none now a)
        (set_status a.id processing none none now w).1.auths
unfolding update_status
started-Holds a now w h =
    Holds-update_self a (write_status processing none none now) w.auths
      (write_status-KeepsKeys processing none none now) h

covenant_lem :
    (c : WithdrawalAuthorization) (b : Broadcast) (w : World)
    → Holds c w.auths
    → execute_covenant_withdrawal c.id b w ≡ broadcast (c.bitcoin_address, c.amount_sats) b w
unfolding execute_covenant_withdrawal get_authorization_by_id
covenant_lem c b w h = ground (arith, h.by_id)

module _ (c : WithdrawalAuthorization) (b : Broadcast) (now : ℕ) (w : World) (h : Holds c w.auths)
    (s : c.status ≡ processing) where
  abbrev started : World
  started = (set_status c.id processing none none now w).1

  abbrev attempt : Bool → Reply × World
  attempt configured =
      send_bitcoin_to_address configured (c.bitcoin_address, c.amount_sats) b started

  authorized_lem :
      (configured : Bool)
      → send_bitcoin_with_authorization configured c.id b now w
        ≡ settle c.id now (attempt configured)
  unfolding send_bitcoin_with_authorization get_authorization_by_id
  authorized_lem configured = ground (arith, h.by_id, verify_processing c w h s)

  attempt-Present : (configured : Bool) → Present c.id (attempt configured).1.auths
  attempt-Present configured = (
    processing,
    subst (Stands c.id processing)
        (sym
          (send_bitcoin_to_address_auths configured (c.bitcoin_address, c.amount_sats) b started))
        (set_status-Stands c.id processing none none now w refl (c, h, refl, s)),
  )

  -- An attempt keeps the row of its identifier.
  pub send-Present : (o : Options) → Present c.id (send o c.id b now w).1.auths
  send-Present o = elim (Bool-cases o.use_covenants) [
    | inl e ↦
        rw (e, covenant_lem c b w h)
          (
            processing,
            subst (Stands c.id processing)
                (sym (broadcast_auths (c.bitcoin_address, c.amount_sats) b w)) (c, h, refl, s),
          )
    | inr e ↦
        rw (e, authorized_lem o.configured)
          (settle-Present c.id now (attempt o.configured).0 (attempt o.configured).1
            (attempt-Present o.configured))
  ]

  -- Where the mode takes the row and the network accepts, the txid is returned.
  pub send_accepted :
      (o : Options) (x : ℕ) (txid : JsString)
      → b ≡ accepted (x ∷ txid)
      → takes o c ≡ true
      → (send o c.id b now w).0 ≡ returned (x ∷ txid)
  unfolding send_bitcoin_to_address update_status
  send_accepted o x txid e k = ground (arith, covenant_lem c b w h, authorized_lem o.configured)

  -- A reply that came without an accepting network is an error.
  pub send_thrown :
      (o : Options) (m : JsString)
      → (b ≡ rejected m) ⊎ (b ≡ lost m)
      → (m' : JsString) × ((send o c.id b now w).0 ≡ thrown m')
  unfolding send_bitcoin_to_address update_status
  send_thrown o m e = elim (Reply-cases (send o c.id b now w).0) [
    | inl (txid, r) ↦ absurd (ground (arith, covenant_lem c b w h, authorized_lem o.configured))
    | inr t ↦ t
  ]

  -- So is that for a row that the mode does not take.
  pub send_not_taken :
      (o : Options) → takes o c ≡ false → (m' : JsString) × ((send o c.id b now w).0 ≡ thrown m')
  unfolding send_bitcoin_to_address update_status
  send_not_taken o k = elim (Reply-cases (send o c.id b now w).0) [
    | inl (txid, r) ↦ absurd (ground (arith, covenant_lem c b w h, authorized_lem o.configured))
    | inr t ↦ t
  ]
