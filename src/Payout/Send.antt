-- ===== src/Payout/Send.antt =====
-- What one call of sendBitcoinWithAuthorization does, on every branch.
use starknet.Payout.Frame.{send_bitcoin_with_authorization-Holds}
use starknet.Common.{
  ℕ, Bool, ◌&&◌, ◌||◌, ◌≡◌, refl, sym, subst, none, some, List, [], ◌∷◌, ◌++◌, JsString, codes,
  starts_with, if◌then◌else◌, arith, Bool-cases, inl, inr, ◌===◌, ===_iff, ===_ne,
}
use starknet.Auth.{
  Auths, WithdrawalAuthorization, pending, processing, completed, is_status, already_used,
  get_authorization_by_id, update_status, verify_authorization, write_status, update_where_id,
}
use starknet.Auth.Table.{Holds, Holds-update_self, write_status-KeepsKeys}
use starknet.Payout.{
  World, Payment, Broadcast, accepted, lost, rejected, returned, thrown, message,
  invalid_authorization, send_bitcoin_with_authorization,
}

-- A row that may be paid: nothing was sent for it yet, as far as its status says.
abbrev pub is_payable : WithdrawalAuthorization → Bool
is_payable a = is_status a.status pending || is_status a.status processing

-- What the network keeps of an attempt.
abbrev pub delivered : Payment → Broadcast → List Payment
delivered p (accepted txid) = p ∷ []
delivered p (lost m) = p ∷ []
delivered p (rejected m) = []

-- The call pays the recorded amount to the recorded address, once, if the row is pending or in
-- processing, the sender is configured, the address is one of the test network and the network
-- takes the transaction; in all other cases it pays nothing.
pub send-payments :
    (configured : Bool) (a : WithdrawalAuthorization) (b : Broadcast) (now : ℕ) (w : World)
    → Holds a w.auths
    → (send_bitcoin_with_authorization configured a.id b now w).1.payments
      ≡ (if is_payable a && configured && starts_with a.bitcoin_address (codes "tb1")
          then delivered (a.bitcoin_address, a.amount_sats) b
          else [])
        ++ w.payments
unfolding send_bitcoin_with_authorization get_authorization_by_id verify_authorization update_status
send-payments configured a b now w h = ground (arith, h.by_id, h.by_nullifier)

-- The row after a payment that went through.
abbrev pub paid : JsString → ℕ → WithdrawalAuthorization → WithdrawalAuthorization
paid txid now a =
    write_status completed (some txid) none now (write_status processing none none now a)

-- The table after a payment that went through.
abbrev after_paid : JsString → JsString → ℕ → Auths → Auths
after_paid id txid now t =
    update_where_id id (write_status completed (some txid) none now)
      (update_where_id id (write_status processing none none now) t)

Holds-after_paid :
    (a : WithdrawalAuthorization) (txid : JsString) (now : ℕ) (t : Auths)
    → Holds a t
    → Holds (paid txid now a) (after_paid a.id txid now t)
Holds-after_paid a txid now t h =
    Holds-update_self (write_status processing none none now a)
      (write_status completed (some txid) none now)
      (update_where_id a.id (write_status processing none none now) t)
      (write_status-KeepsKeys completed (some txid) none now)
      (Holds-update_self a (write_status processing none none now) t
        (write_status-KeepsKeys processing none none now) h)

-- A call that returns has sent one payment, and its row is completed with the txid returned.
pub send_returned :
    (configured : Bool) (a : WithdrawalAuthorization) (b : Broadcast) (now : ℕ) (w : World)
    (txid : JsString)
    → Holds a w.auths
    → (send_bitcoin_with_authorization configured a.id b now w).0 ≡ returned txid
    → ((send_bitcoin_with_authorization configured a.id b now w).1.payments
        ≡ (a.bitcoin_address, a.amount_sats) ∷ w.payments)
      × ((send_bitcoin_with_authorization configured a.id b now w).1.auths
          ≡ after_paid a.id txid now w.auths)
unfolding send_bitcoin_with_authorization get_authorization_by_id verify_authorization update_status
send_returned configured a (accepted m) now w txid h e = ground (arith, h.by_id, h.by_nullifier)
send_returned configured a (lost m) now w txid h e = ground (arith, h.by_id, h.by_nullifier)
send_returned configured a (rejected m) now w txid h e = ground (arith, h.by_id, h.by_nullifier)

-- A row that is completed is refused, and nothing changes.
pub send_completed :
    (configured : Bool) (a : WithdrawalAuthorization) (b : Broadcast) (now : ℕ) (w : World)
    → Holds a w.auths
    → a.status ≡ completed
    → send_bitcoin_with_authorization configured a.id b now w
      ≡ (thrown (message (invalid_authorization already_used)), w)
unfolding send_bitcoin_with_authorization get_authorization_by_id verify_authorization
send_completed configured a b now w h e = ground (arith, h.by_id, h.by_nullifier)

-- One call: the identifier of the authorization, what the network answers, and the clock.
abbrev pub Call : Type 0
Call = JsString × Broadcast × ℕ

-- Calls of sendBitcoinWithAuthorization, one after the other.
abbrev pub send_all : Bool → List Call → World → World
send_all configured [] w = w
send_all configured ((id, b, now) ∷ cs) w =
    send_all configured cs (send_bitcoin_with_authorization configured id b now w).1

-- A call, for whichever authorization, leaves a completed row as it is.
send-keeps_completed :
    (configured : Bool) (a : WithdrawalAuthorization) (id : JsString) (b : Broadcast) (now : ℕ)
    (w : World)
    → a.status ≡ completed
    → Holds a w.auths
    → Holds a (send_bitcoin_with_authorization configured id b now w).1.auths
send-keeps_completed configured a id b now w e h = elim (Bool-cases (a.id === id)) [
  | inl same ↦
      subst (λ i. Holds a (send_bitcoin_with_authorization configured i b now w).1.auths)
        ((===_iff a.id id).0 same)
        (subst (λ x. Holds a x.1.auths) (sym (send_completed configured a b now w h e)) h)
  | inr other ↦
      send_bitcoin_with_authorization-Holds a id (===_ne a.id id other) now configured b w h
]

send_all-keeps_completed :
    (configured : Bool) (a : WithdrawalAuthorization) (cs : List Call) (w : World)
    → a.status ≡ completed
    → Holds a w.auths
    → Holds a (send_all configured cs w).auths
send_all-keeps_completed configured a [] w e h = h
send_all-keeps_completed configured a ((id, b, now) ∷ cs) w e h =
    send_all-keeps_completed configured a cs
      (send_bitcoin_with_authorization configured id b now w).1 e
      (send-keeps_completed configured a id b now w e h)

-- After a call of sendBitcoinWithAuthorization that returned, and any further calls of it, for this and for
-- other authorizations, a call for the same one throws that Bitcoin was already sent, pays nothing and
-- writes nothing, whatever the network would answer, for a row that the table finds by its id and its
-- nullifier, and as long as nothing but these calls writes to the table.
pub send_twice :
    (configured : Bool) (a : WithdrawalAuthorization) (b b' : Broadcast) (now now' : ℕ) (w : World)
    (txid : JsString) (calls : List Call)
    → Holds a w.auths
    → (send_bitcoin_with_authorization configured a.id b now w).0 ≡ returned txid
    → let w' =
        send_all configured calls (send_bitcoin_with_authorization configured a.id b now w).1 in
      send_bitcoin_with_authorization configured a.id b' now' w'
      ≡ (thrown (message (invalid_authorization already_used)), w')
send_twice configured a b b' now now' w txid calls h e =
    let w1 = (send_bitcoin_with_authorization configured a.id b now w).1 in
    let done : Holds (paid txid now a) w1.auths =
      subst (Holds (paid txid now a)) (sym (send_returned configured a b now w txid h e).1)
        (Holds-after_paid a txid now w.auths h) in
    send_completed configured (paid txid now a) b' now' (send_all configured calls w1)
      (send_all-keeps_completed configured (paid txid now a) calls w1 refl done) refl
