-- ===== src/Utxo.antt =====
-- Choosing unspent outputs and building payments: selectUtxos and createCovenantWithdrawal of
-- backend/src/services/BitcoinCovenantService.ts, and the same steps of sendBitcoinToAddress and
-- broadcastSignetTransaction in backend/src/services/BitcoinBroadcastService.ts. Amounts are in satoshis; signing and serialising
-- belong to the Bitcoin library.
pub mod Choice
pub mod Fewest
pub mod Balance
pub mod Payment
mod Tests
use starknet.Common.{
  ℕ, zero, suc, ◌+◌, ◌-◌, ◌*◌, ◌/◌, Bool, true, false, Option, none, some, List, [], ◌∷◌, ◌++◌,
  JsString, length, ltb, leb, ◌==◌, if◌then◌else◌, sort_by,
}

pub record Utxo : Type 0 where
  pub txid : JsString
  pub vout : ℕ
  pub value : ℕ

-- `utxos.reduce((s, u) => s + u.value, 0)`
abbrev pub sum_values : List Utxo → ℕ
sum_values [] = 0
sum_values (u ∷ us) = u.value + sum_values us

-- A transaction to sign: what it spends, and its outputs as pairs of address and amount.
pub record Plan : Type 0 where
  pub inputs : List Utxo
  pub outputs : List (JsString × ℕ)

abbrev pub largest_first : Utxo → Utxo → Bool
largest_first a b = leb b.value a.value

abbrev pub push : Utxo → Option (List Utxo × ℕ) → Option (List Utxo × ℕ)
push u none = none
push u (some (us, total)) = some (u ∷ us, total)

-- The loop: `count` outputs worth `total` are selected, and `fee` gives the fee for a number of inputs.
-- It returns what it selects from here on and the total reached, or `none` if the funds do not suffice.
unfoldable pub choose : (ℕ → ℕ) → ℕ → ℕ → ℕ → List Utxo → Option (List Utxo × ℕ)
choose fee amount count total [] = none
choose fee amount count total (u ∷ us) =
    let total' = total + u.value in
    let more = push u (choose fee amount (count + 1) total' us) in
    if leb (amount + fee (count + 1)) total' then some (u ∷ [], total') else more

-- `selectUtxos`
unfoldable pub select_utxos : (ℕ → ℕ) → ℕ → List Utxo → Option (List Utxo × ℕ)
unfolding choose
select_utxos fee amount utxos = choose fee amount 0 0 (sort_by largest_first utxos)

-- Recipient, and change above the dust limit back to the sender.
abbrev pub outputs_of : JsString → JsString → ℕ → ℕ → List (JsString × ℕ)
outputs_of recipient sender amount change =
    if ltb 546 change then (recipient, amount) ∷ (sender, change) ∷ [] else (recipient, amount) ∷ []

abbrev pub plan_of : (ℕ → ℕ) → JsString → JsString → ℕ → Option (List Utxo × ℕ) → Option Plan
plan_of fee recipient sender amount none = none
plan_of fee recipient sender amount (some (us, total)) = some (record {
  inputs = us;
  outputs = outputs_of recipient sender amount (total - amount - fee (length us));
})

-- The fee of a covenant withdrawal: `FEE_PER_INPUT`, 2000 for each input.
abbrev pub covenant_fee : ℕ → ℕ
covenant_fee n = 2000 * n

-- The transaction of `createCovenantWithdrawal`.
unfoldable pub create_covenant_withdrawal : JsString → JsString → ℕ → List Utxo → Option Plan
unfolding select_utxos
create_covenant_withdrawal covenant recipient amount utxos =
    if length utxos == 0
    then none
    else plan_of covenant_fee recipient covenant amount (select_utxos covenant_fee amount utxos)

-- `Math.ceil((n * 68 + 2 * 31 + 12) * feeRate)` at a fee rate of `num / den` satoshis.
abbrev pub estimated_fee : ℕ → ℕ → ℕ → ℕ
estimated_fee num den n = ((n * 68 + 2 * 31 + 12) * num + (den - 1)) / den

-- The loop of `sendBitcoinToAddress`, which leaves by `break` and keeps what it has if it never does.
unfoldable pub gather : (ℕ → ℕ) → ℕ → List Utxo → ℕ → ℕ → List Utxo → List Utxo × ℕ × ℕ
gather fee amount selected total estimated [] = (selected, total, estimated)
gather fee amount selected total estimated (u ∷ us) =
    let selected' = selected ++ u ∷ [] in
    let total' = total + u.value in
    let estimated' = fee (length selected') in
    let more = gather fee amount selected' total' estimated' us in
    if leb (amount + estimated') total' then (selected', total', estimated') else more

-- The transaction of `sendBitcoinToAddress`: the total is tested once more behind the loop.
unfoldable pub build_payment : (ℕ → ℕ) → JsString → JsString → ℕ → List Utxo → Option Plan
unfolding gather
build_payment fee sender recipient amount utxos =
    let (selected, total, estimated) = gather fee amount [] 0 0 (sort_by largest_first utxos) in
    if length utxos == 0
    then none
    else if ltb total (amount + estimated)
    then none
    else some (record {
      inputs = selected;
      outputs = outputs_of recipient sender amount (total - amount - estimated);
    })

-- `broadcastSignetTransaction`: a deposit to the vault, with the sender's and the vault's address set
-- in the environment or not.
unfoldable pub build_deposit :
    (ℕ → ℕ) → Option JsString → Option JsString → ℕ → List Utxo → Option Plan
unfolding build_payment
build_deposit fee none vault amount utxos = none
build_deposit fee (some sender) none amount utxos = none
build_deposit fee (some sender) (some vault) amount utxos =
    build_payment fee sender vault amount utxos
