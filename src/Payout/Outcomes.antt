-- ===== src/Payout/Outcomes.antt =====
-- The status in which the turn of a row leaves it (backend/src/services/WithdrawalProcessor.ts).
use starknet.Common.{
  ◌∙◌, ℕ, Bool, true, false, ◌&&◌, ◌≡◌, refl, none, [], ◌∷◌, JsString, if◌then◌else◌, arith, truthy,
  Bool-cases, inl, inr,
}
use starknet.Auth.{WithdrawalAuthorization, pending, processing, completed, write_status}
use starknet.Auth.Table.{Holds}
use starknet.Payout.{
  World, Broadcast, thrown, set_status, conclude, send, accepted, lost, rejected,
  process_authorization, Options, Answers, verify_starknet_transaction,
}
use starknet.Payout.Frame.{Stands, set_status-Stands}
use starknet.Payout.Poll.{takes, process_authorization-payments}
use starknet.Payout.Attempts.{
  conclude-thrown, conclude-returned, started-Holds, send-Present, send_accepted, send_thrown,
  send_not_taken,
}

-- The network answers at once: it accepts, with a txid that is not empty, or it refuses.
abbrev pub IsPlain : Broadcast → Type 0
IsPlain (accepted txid) = truthy txid ≡ true
IsPlain (lost m) = ⊥
IsPlain (rejected m) = Unit

abbrev pub is_accepted : Broadcast → Bool
is_accepted (accepted txid) = true
is_accepted _ = false

-- The row of a turn ends completed if the burn counts as final, the mode takes the row and the network
-- accepts, and pending otherwise, provided that no answer of the network is lost.
pub process_authorization-Stands :
    (o : Options) (a : WithdrawalAuthorization) (e : Answers) (now : ℕ) (w : World)
    → Holds a w.auths
    → IsPlain e.network
    → Stands a.id
        (if verify_starknet_transaction e.receipt && takes o a && is_accepted e.network
          then completed
          else pending)
        (process_authorization o a e now w).auths
unfolding process_authorization
process_authorization-Stands o a e now w h plain =
    elim (Bool-cases (verify_starknet_transaction e.receipt)) [
      | inl final ↦ rw (final, process_authorization) (sent e.network plain)
      | inr later ↦
          rw (later, process_authorization)
            (set_status-Stands a.id pending none none now w' refl (c, hc, refl, refl))
    ]
  where
    w' : World
    w' = (set_status a.id processing none none now w).1

    c : WithdrawalAuthorization
    c = write_status processing none none now a

    hc : Holds c w'.auths
    hc = started-Holds a now w h

    failed_attempt :
        (b : Broadcast)
        → ((m : JsString) × ((send o a.id b now w').0 ≡ thrown m))
        → Stands a.id pending (conclude a.id now (send o a.id b now w')).auths
    failed_attempt b (m, r) =
        conclude-thrown a.id now m (send o a.id b now w') r (send-Present c b now w' hc refl o)

    sent :
        (b : Broadcast)
        → IsPlain b
        → Stands a.id
            (if takes o a && is_accepted b then completed else pending)
            (conclude a.id now (send o a.id b now w')).auths
    sent (rejected m) p = elim (Bool-cases (takes o a)) [
      | inl k ↦
          rw k
            (failed_attempt (rejected m) (send_thrown c (rejected m) now w' hc refl o m (inl refl)))
      | inr k ↦
          rw k
            (failed_attempt (rejected m) (send_thrown c (rejected m) now w' hc refl o m (inl refl)))
    ]
    sent (accepted []) p = cc
    sent (accepted (x ∷ txid)) p = elim (Bool-cases (takes o a)) [
      | inl k ↦ rw k (
          conclude-returned a.id now x txid (send o a.id (accepted (x ∷ txid)) now w')
            (send_accepted c (accepted (x ∷ txid)) now w' hc refl o x txid refl k)
            (send-Present c (accepted (x ∷ txid)) now w' hc refl o))
      | inr k ↦ rw k (
          failed_attempt (accepted (x ∷ txid))
            (send_not_taken c (accepted (x ∷ txid)) now w' hc refl o k))
    ]
    sent (lost m) p = absurd p

-- If the network takes the transaction and its answer is lost, the payment is made and the row is
-- pending again, so that the next poll finds it.
pub process_authorization_lost :
    (o : Options) (a : WithdrawalAuthorization) (e : Answers) (m : JsString) (now : ℕ) (w : World)
    → Holds a w.auths
    → e.network ≡ lost m
    → verify_starknet_transaction e.receipt ≡ true
    → takes o a ≡ true
    → ((process_authorization o a e now w).payments
        ≡ (a.bitcoin_address, a.amount_sats) ∷ w.payments)
      × Stands a.id pending (process_authorization o a e now w).auths
unfolding process_authorization
process_authorization_lost o a e m now w h lose final k =
    let w' : World = (set_status a.id processing none none now w).1 in
    let c : WithdrawalAuthorization = write_status processing none none now a in
    let hc : Holds c w'.auths = started-Holds a now w h in
    let failure = send_thrown c e.network now w' hc refl o m (inr lose) in
    (
      process_authorization-payments o a e now w h ∙ ground arith,
      rw (final, process_authorization)
          (conclude-thrown a.id now failure.0 (send o a.id e.network now w') failure.1
            (send-Present c e.network now w' hc refl o)),
    )
