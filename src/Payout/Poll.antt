-- ===== src/Payout/Poll.antt =====
-- What one poll of the processor pays (backend/src/services/WithdrawalProcessor.ts).
use starknet.Common.{
  AllPairs-map, ℕ, Bool, ◌&&◌, ◌||◌, ◌≡◌, ◌≢◌, refl, sym, ap, ◌∙◌, none, List, [], ◌∷◌, ◌++◌,
  JsString, codes, if◌then◌else◌, arith, starts_with, All, All-zip, All-filter, AllPairs,
  AllPairs-filter, sort_by-All, sort_by-AllPairs,
}
use mathlib.Core.List.{append_assoc}
use starknet.Auth.{
  Auths, WithdrawalAuthorization, processing, write_status, update_status, get_authorization_by_id,
}
use starknet.Auth.Table.{
  Holds, Holds-update_self, write_status-KeepsKeys, Apart, Apart-symm, Unique, Unique-Holds,
}
use starknet.Auth.Queries.{get_pending_authorizations}
use starknet.Payout.{
  World, Payment, Broadcast, Reply, returned, thrown, set_status, conclude, send, accepted, lost,
  rejected, process_authorization, process_each, process_authorizations, Options, Answers,
  verify_starknet_transaction, execute_covenant_withdrawal,
}
use starknet.Payout.Send.{delivered, send-payments}
use starknet.Payout.Frame.{process_authorization-Holds}

conclude-payments :
    (id : JsString) (now : ℕ) (r : Reply) (w : World)
    → (conclude id now (r, w)).payments ≡ w.payments
unfolding update_status
conclude-payments id now (returned txid) w = ground arith
conclude-payments id now (thrown m) w = ground arith

pub execute_covenant_withdrawal-payments :
    (a : WithdrawalAuthorization) (b : Broadcast) (w : World)
    → Holds a w.auths
    → (execute_covenant_withdrawal a.id b w).1.payments
      ≡ delivered (a.bitcoin_address, a.amount_sats) b ++ w.payments
unfolding execute_covenant_withdrawal get_authorization_by_id
execute_covenant_withdrawal-payments a (accepted txid) w h = ground (arith, h.by_id)
execute_covenant_withdrawal-payments a (lost m) w h = ground (arith, h.by_id)
execute_covenant_withdrawal-payments a (rejected m) w h = ground (arith, h.by_id)

-- The mode of payment takes this row: always with covenants, and otherwise if the sender is configured
-- and the address is one of the test network.
abbrev pub takes : Options → WithdrawalAuthorization → Bool
takes o a = o.use_covenants || (o.configured && starts_with a.bitcoin_address (codes "tb1"))

-- What the turn of a row pays.
abbrev pub payment_of : Options → Answers → WithdrawalAuthorization → List Payment
payment_of o e a =
    if verify_starknet_transaction e.receipt && takes o a
    then delivered (a.bitcoin_address, a.amount_sats) e.network
    else []

-- The turn of a row pays what the table records for it, whatever status the row has by then: the call
-- that marks it as processing does not look at the status, and with that it is payable again.
pub process_authorization-payments :
    (o : Options) (a : WithdrawalAuthorization) (e : Answers) (now : ℕ) (w : World)
    → Holds a w.auths
    → (process_authorization o a e now w).payments ≡ payment_of o e a ++ w.payments
unfolding process_authorization update_status
process_authorization-payments o a e now w h =
    let w' : World = (set_status a.id processing none none now w).1 in
    let c : WithdrawalAuthorization = write_status processing none none now a in
    let hc : Holds c w'.auths =
      Holds-update_self a (write_status processing none none now) w.auths
        (write_status-KeepsKeys processing none none now) h in
    ground (
      arith,
      send-payments o.configured c e.network now w' hc,
      execute_covenant_withdrawal-payments c e.network w' hc,
      conclude-payments a.id now (send o a.id e.network now w').0 (send o a.id e.network now w').1,
    )

module _ (o : Options) (answers : JsString → Answers) (now : ℕ) where
  -- What the rows of a poll are paid, the latest first.
  abbrev pub paid_by : Auths → List Payment
  paid_by [] = []
  paid_by (a ∷ as') = paid_by as' ++ payment_of o (answers a.id) a

  abbrev OtherId : WithdrawalAuthorization → WithdrawalAuthorization → Type 0
  OtherId a b = a.id ≢ b.id

  process_each-payments :
      (as' : Auths) (w : World)
      → All (λ a. Holds a w.auths) as'
      → AllPairs OtherId as'
      → (process_each o answers now as' w).payments ≡ paid_by as' ++ w.payments
  unfolding process_each
  process_each-payments [] w h d = refl
  process_each-payments (a ∷ as') w h d =
      let w' = process_authorization o a (answers a.id) now w in
      let later : All (λ b. Holds b w'.auths) as' =
        All-zip (OtherId a) (λ b. Holds b w.auths) (λ b. Holds b w'.auths)
          (λ b ne hb. process_authorization-Holds b a o (answers a.id) now w (λ e. ne (sym e)) hb)
          as' d.0 h.1 in
      process_each-payments as' w' later d.1
      ∙ ap (λ p. paid_by as' ++ p) (process_authorization-payments o a (answers a.id) now w h.0)
      ∙ sym (append_assoc (paid_by as') (payment_of o (answers a.id) a) w.payments)

  -- With no other activity in between, a poll of a table whose keys are unique pays each pending row
  -- at most once, its amount to its address: exactly those whose burn the processor takes for final,
  -- that the mode of payment takes and that the network delivers. It pays nothing else.
  pub process_authorizations-payments :
      (w : World)
      → Unique w.auths
      → (process_authorizations o answers now w).payments
        ≡ paid_by (get_pending_authorizations w.auths) ++ w.payments
  unfolding process_authorizations get_pending_authorizations
  process_authorizations-payments w u =
      process_each-payments (get_pending_authorizations w.auths) w
        (sort_by-All _ (λ a. Holds a w.auths) _
          (All-filter (λ a. Holds a w.auths) _ w.auths (Unique-Holds w.auths u)))
        (AllPairs-map Apart OtherId (λ a b h. h.0) _
          (sort_by-AllPairs _ Apart Apart-symm _ (AllPairs-filter Apart _ w.auths u)))
