-- ===== src/Vault/Once.antt =====
-- Over any sequence of requests a nullifier is burned at most once
-- (backend/src/routes/vault.ts, audit.ts, backend/src/services/WithdrawalProcessor.ts).
use starknet.Payout.{Answers, process_authorizations}
use starknet.Vault.{Store}
use starknet.Vault.Burn.{Server, Request, Surroundings}
use starknet.Vault.Withdraw.{withdraw_vault, mark_withdrawn}
use starknet.Vault.Deposit.{Crypto, Confirmation, prepare_deposit, confirm_deposit}
use starknet.Vault.Audit.{AuditAnswer, audit_verify, start_audit, deposit_hashes}
use starknet.Vault.Allows.{
  ledger_of, Allows, Keeps-Allows, verify_hashes-spent, prepares-Allows, confirms-Allows,
}
use starknet.Vault.Ledger.{LedgerStep, idle, burns, LedgerRun, done, step, LedgerRun-once}
use starknet.Vault.Rows.{
  is_spent, is_spent-update_where, is_spent-mark, is_spent-find, mark_withdrawn-KeepsBurn,
}
use starknet.Vault.Steps.{IsAnswered, withdraw_vault-Burns}
use starknet.Common.{
  ◌∙◌, All, ℕ, ◌+◌, ◌≤◌, refl, Option, List, [], ◌∷◌, JsString, ◌===◌, count_if, if◌then◌else◌, inl,
  inr,
}

-- Withdrawals, the two steps of a deposit and audits, as the server answers them, and the polls of the
-- processor. Direct deposits, deposits with a proof and the route that executes a withdrawal are left out.
pub data Event : Type 0 where
  withdraws : Request → Surroundings → Event
  prepares : Crypto → JsString → Option ℕ → ℕ → Option ℕ → ℕ → Event
  confirms : Confirmation → JsString → JsString → Event
  audits : (JsString → AuditAnswer) → Event
  processes : (JsString → Answers) → ℕ → Event

unfoldable pub handle : Server → Event → Store → Store
handle server (withdraws r e) s = (withdraw_vault server r e s).1
handle server (prepares c owner amount days balance now) s =
    (prepare_deposit c owner amount days balance now s).1
handle server (confirms e id hash) s = (confirm_deposit e id hash s).1
handle server (audits provider) s = record s { vaults = (audit_verify provider s.vaults).vaults }
handle server (processes answers now) s = record s {
  world = process_authorizations server.options answers now s.world;
}

unfoldable pub handle_all : Server → List Event → Store → Store
unfolding handle
handle_all server [] s = s
handle_all server (e ∷ es) s = handle_all server es (handle server e s)

-- The withdrawals on Starknet get an answer.
abbrev pub IsAnsweredEvent : Event → Type 0
IsAnsweredEvent (withdraws r e) = IsAnswered e.burn
IsAnsweredEvent (prepares c owner amount days balance now) = Unit
IsAnsweredEvent (confirms e id hash) = Unit
IsAnsweredEvent (audits provider) = Unit
IsAnsweredEvent (processes answers now) = Unit

withdraws-Allows :
    (server : Server) (r : Request) (e : Surroundings) (s : Store)
    → IsAnswered e.burn
    → Allows s (withdraw_vault server r e s).1
withdraws-Allows server r e s a = elim (withdraw_vault-Burns server r e s a) [
  | inl k ↦ Keeps-Allows s (withdraw_vault server r e s).1 k
  | inr (v, f, w, (hash, amount, b, t)) ↦
      burns r.nullifier_hash amount b (is_spent-find r.nullifier_hash s.vaults v f ∙ rw w refl)
        (rw t (is_spent-mark r.nullifier_hash hash r.bitcoin_address s.vaults v f))
        (λ n p. rw t (
          is_spent-update_where n (λ u. u.id === v.id) (mark_withdrawn hash r.bitcoin_address)
            s.vaults (mark_withdrawn-KeepsBurn hash r.bitcoin_address) p))
]

audits-Allows :
    (server : Server) (provider : JsString → AuditAnswer) (s : Store)
    → Allows s (handle server (audits provider) s)
unfolding handle audit_verify
audits-Allows server provider s =
    idle refl
      (λ n p. verify_hashes-spent provider n (deposit_hashes s.vaults) (start_audit s.vaults) p)

-- Each event of these five kinds is a step of the ledger.
handle-LedgerStep :
    (server : Server) (e : Event) (s : Store)
    → IsAnsweredEvent e
    → LedgerStep (ledger_of s) (ledger_of (handle server e s))
unfolding handle
handle-LedgerStep server (withdraws r e) s a = withdraws-Allows server r e s a
handle-LedgerStep server (prepares c owner amount days balance now) s a =
    prepares-Allows c owner amount days balance now s
handle-LedgerStep server (confirms e id hash) s a = confirms-Allows e id hash s
handle-LedgerStep server (audits provider) s a = audits-Allows server provider s
handle-LedgerStep server (processes answers now) s a =
    Keeps-Allows s (handle server (processes answers now) s) (refl, refl)

handle_all-LedgerRun :
    (server : Server) (es : List Event) (s : Store)
    → All IsAnsweredEvent es
    → LedgerRun (ledger_of s) (ledger_of (handle_all server es s))
unfolding handle_all
handle_all-LedgerRun server [] s a = done (ledger_of s)
handle_all-LedgerRun server (e ∷ es) s a =
    step (ledger_of s) (ledger_of (handle server e s))
      (ledger_of (handle_all server es (handle server e s))) (handle-LedgerStep server e s a.0)
      (handle_all-LedgerRun server es (handle server e s) a.1)

-- Whatever deposits, confirmations, withdrawals, audits and polls of the processor follow each other, the
-- server sends at most one withdrawal to the contract for a nullifier, and none if the vault that the
-- nullifier finds has its withdrawal already, provided that each withdrawal that the network takes is
-- answered, with a hash that the table accepts.
pub burns_once :
    (server : Server) (n : JsString) (es : List Event) (s : Store)
    → All IsAnsweredEvent es
    → count_if (λ b. b.0 === n) (handle_all server es s).burns
        + (if is_spent n s.vaults then 1 else 0)
      ≤ count_if (λ b. b.0 === n) s.burns + 1
burns_once server n es s a =
    LedgerRun-once n (ledger_of s) (ledger_of (handle_all server es s))
      (handle_all-LedgerRun server es s a)
