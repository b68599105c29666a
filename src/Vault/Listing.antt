-- ===== src/Vault/Listing.antt =====
-- The queries of backend/src/routes/vault.ts: GET /:address and GET /:vaultId/details.
use starknet.Validators.{is_valid_address, is_valid_starknet_address}
use starknet.Vault.{
  VaultStatus, pending, active, withdrawn, is_vault_status, Vault, Vaults, get_vault,
}
use starknet.Common.{
  ℕ, Bool, false, not, ◌||◌, Option, none, some, List, map, JsString, ◌===◌, leb, filter, sort_by,
  if◌then◌else◌,
}

pub data OnChainStatus : Type 0 where
  on_chain not_registered unknown : OnChainStatus

-- One entry of the list; the salt, the amount and the hint are not among its fields.
pub record Entry : Type 0 where
  pub vault_id : JsString
  pub owner_address : JsString
  pub commitment : JsString
  pub lock_duration_days : ℕ
  pub created_at : ℕ
  pub unlock_at : ℕ
  pub status : VaultStatus
  pub is_unlocked : Bool
  pub deposit_tx_hash : Option JsString
  pub nullifier_hash : Option JsString
  pub on_chain_status : OnChainStatus

-- Statuses 400, 500 and 200
pub data BalanceResponse : Type 0 where
  invalid_address failed_balance : BalanceResponse
  balance_sats : ℕ → BalanceResponse

-- GET /api/vault/balance/:address; `answer` is what `getMockBTCBalance` gives, if it does not throw.
unfoldable pub balance : Option ℕ → JsString → BalanceResponse
balance answer address =
    if not (is_valid_starknet_address address)
    then invalid_address
    else elim answer [ none ↦ failed_balance | some n ↦ balance_sats n ]

-- What `isCommitmentOnChain` answers, if it does not throw.
abbrev pub registered : Option Bool → OnChainStatus
registered none = unknown
registered (some b) = if b then on_chain else not_registered

abbrev pub enrich : (JsString → Option Bool) → ℕ → Vault → Entry
enrich chain now v = record {
  vault_id = v.id;
  owner_address = v.owner_address;
  commitment = v.commitment;
  lock_duration_days = v.lock_duration_days;
  created_at = v.created_at;
  unlock_at = v.unlock_at;
  status = v.status;
  is_unlocked = leb v.unlock_at now;
  deposit_tx_hash = v.deposit_tx_hash;
  nullifier_hash = v.nullifier_hash;
  on_chain_status =
      if is_vault_status v.status active || is_vault_status v.status withdrawn
      then registered (chain v.commitment)
      else unknown;
}

-- GET /api/vault/:address: none is status 400.
unfoldable pub list_vaults : (JsString → Option Bool) → ℕ → JsString → Vaults → Option (List Entry)
list_vaults chain now address t =
    if not (is_valid_address address)
    then none
    else some (
        map (enrich chain now) (
          sort_by (λ a b. leb b.created_at a.created_at)
            (filter (λ v. v.owner_address === address) t)))

-- The answer of GET /api/vault/:vaultId/details
pub record Details : Type 0 where
  pub vault : Vault
  pub is_unlocked : Bool
  pub on_chain_confirmed : Bool
  pub live_block_number : ℕ

-- Statuses 404, 500 and 200
pub data DetailsResponse : Type 0 where
  not_found failed_lookup : DetailsResponse
  details : Details → DetailsResponse

-- `block` is what `getLiveBlockNumber` answers, if it does not throw; `chain` is `isCommitmentOnChain`, which
-- answers false on an error, and is not asked for a pending vault.
unfoldable pub vault_details :
    Option ℕ → (JsString → Bool) → ℕ → JsString → Vaults → DetailsResponse
vault_details block chain now id t = elim (get_vault id t) [
  | none ↦ not_found
  | some v ↦ elim block [
    | none ↦ failed_lookup
    | some n ↦ details (record {
      vault = v;
      is_unlocked = leb v.unlock_at now;
      on_chain_confirmed = if is_vault_status v.status pending then false else chain v.commitment;
      live_block_number = n;
    })
  ]
]
