-- ===== src/BurnProof/Generate.antt =====
-- generateBurnProof and getProofForAuthorization of backend/src/services/StarknetProofService.ts.
-- What getTransactionReceipt of backend/src/services/StarknetService.ts ends with is an argument.
use starknet.BurnProof.{StarknetBurnProof, Signer, SerializedProof, serialize_proof_data}
use starknet.Auth.{Auths, completed, is_status, get_authorization_by_id}
use starknet.Transaction.{◌>>=◌}
use starknet.Receipt.{Event, TransactionReceipt, ReceiptResult, received}
use starknet.BurnProof.Numerals.{big_int}
use starknet.Common.{
  decimal, ℕ, Bool, false, not, ◌&&◌, ◌||◌, Option, none, some, List, [], ◌∷◌, ◌++◌, JsString,
  codes, ◌===◌, includes, truthy, filter, find?, any, get_elem?, if◌then◌else◌,
}

pub record BurnEvent : Type 0 where
  pub amount : JsString
  pub nullifier : JsString
  pub recipient : JsString

-- `xs[i] || other`
abbrev pub elem_or : List JsString → ℕ → JsString → JsString
elem_or xs i other = elim (get_elem? xs i) [ none ↦ other | some x ↦ if truthy x then x else other ]

-- `event.keys?.[0]?.includes('Burn') || event.from_address === process.env.VAULT_CONTRACT_ADDRESS`
abbrev pub is_burn_event : Option JsString → Event → Bool
is_burn_event contract e =
    elim (get_elem? e.keys 0) [ none ↦ false | some k ↦ includes k (codes "Burn") ]
    || elim contract [ none ↦ false | some a ↦ e.from_address === a ]

-- `extractBurnEvent`
unfoldable pub extract_burn_event : Option JsString → TransactionReceipt → Option BurnEvent
extract_burn_event contract r = elim (find? (is_burn_event contract) r.events) [
  | none ↦ none
  | some e ↦ some (record {
    amount = elem_or e.values 1 (codes "0");
    nullifier = elem_or e.keys 1 (elem_or e.values 2 (codes "0x0"));
    recipient = elem_or e.values 0 (codes "0x0");
  })
]

-- What the two methods throw.
pub data BurnError : Type 0 where
  no_receipt not_finalized no_burn_event invalid_amount nullifier_used too_large no_signing_key
        authorization_not_found :
      BurnError

pub data ProofResult : Type 0 where
  proved : StarknetBurnProof → ProofResult
  thrown : BurnError → ProofResult

-- The environment: the address of the contract and the key.
pub record Environment : Type 0 where
  pub contract : Option JsString
  pub signer : Signer

abbrev pub is_spent : JsString → Auths → Bool
is_spent n t = any (λ a. a.nullifier_hash === n && is_status a.status completed) t

abbrev pub unsigned :
    JsString → JsString → ℕ → TransactionReceipt → BurnEvent → ℕ → StarknetBurnProof
unsigned tx_hash address now r e amount = record {
  tx_hash = tx_hash;
  amount = amount;
  nullifier = e.nullifier;
  recipient_btc = address;
  block_number = r.block_number;
  signature = [];
  timestamp = now;
}

-- Steps 6 and 7
unfoldable pub sign_proof : Signer → StarknetBurnProof → ProofResult
sign_proof signer p = elim (serialize_proof_data p) [
  | none ↦ thrown too_large
  | some x ↦ elim signer [
    | none ↦ thrown no_signing_key
    | some sign ↦ proved (record p { signature = sign x.buffer })
  ]
]

-- Steps 3 to 7
unfoldable pub prove_burn :
    Environment → JsString → JsString → ℕ → Auths → TransactionReceipt → BurnEvent → ProofResult
unfolding sign_proof
prove_burn env tx_hash address now t r e = elim (big_int e.amount) [
  | none ↦ thrown invalid_amount
  | some amount ↦
      if is_spent e.nullifier t
      then thrown nullifier_used
      else sign_proof env.signer (unsigned tx_hash address now r e amount)
]

-- `generateBurnProof`
unfoldable pub generate_burn_proof :
    Environment → ReceiptResult → JsString → JsString → ℕ → Auths → ProofResult
unfolding prove_burn extract_burn_event
generate_burn_proof env (received r) tx_hash address now t =
    if not r.execution_succeeded
    then thrown not_finalized
    else elim (extract_burn_event env.contract r) [
      | none ↦ thrown no_burn_event
      | some e ↦ prove_burn env tx_hash address now t r e
    ]
generate_burn_proof env _ tx_hash address now t = thrown no_receipt

-- A proof as `JSON.parse` gives it back from the cache, where its two bigints were written as texts.
pub record ParsedProof : Type 0 where
  pub tx_hash : JsString
  pub amount : JsString
  pub nullifier : JsString
  pub recipient_btc : JsString
  pub block_number : JsString
  pub signature : JsString
  pub timestamp : ℕ

-- `JSON.stringify`, whose replacer writes a bigint by `toString`, and then `JSON.parse`
abbrev pub stringify : StarknetBurnProof → ParsedProof
stringify p = record {
  tx_hash = p.tx_hash;
  amount = decimal p.amount;
  nullifier = p.nullifier;
  recipient_btc = p.recipient_btc;
  block_number = decimal p.block_number;
  signature = p.signature;
  timestamp = p.timestamp;
}

-- `serializeProofData` on a proof from the cache: it turns the two texts into bigints.
unfoldable pub serialize_parsed_proof : ParsedProof → Option SerializedProof
unfolding serialize_proof_data
serialize_parsed_proof c = do
  amount ← big_int c.amount
  block_number ← big_int c.block_number
  serialize_proof_data (record {
    tx_hash = c.tx_hash;
    amount = amount;
    nullifier = c.nullifier;
    recipient_btc = c.recipient_btc;
    block_number = block_number;
    signature = c.signature;
    timestamp = c.timestamp;
  })

-- A row of the table `starknet_proofs`
pub record CachedProof : Type 0 where
  pub authorization_id : JsString
  pub proof_data : ParsedProof
  pub created_at : ℕ

-- `INSERT OR REPLACE`
abbrev pub insert_or_replace : CachedProof → List CachedProof → List CachedProof
insert_or_replace c cache =
    filter (λ d. not (d.authorization_id === c.authorization_id)) cache ++ c ∷ []

-- Whether the statements that read the cache and write to it succeed; that they fail is only logged.
pub record Access : Type 0 where
  pub readable : Bool
  pub written : Bool

-- What `getProofForAuthorization` ends with: a new proof, one from the cache, or an error.
pub data GivenProof : Type 0 where
  made : StarknetBurnProof → GivenProof
  parsed : ParsedProof → GivenProof
  unproved : BurnError → GivenProof

abbrev pub keep_proof :
    Bool → JsString → ℕ → List CachedProof → ProofResult → GivenProof × List CachedProof
keep_proof written id now cache (proved p) = (
  made p,
  if written
      then insert_or_replace
          (record { authorization_id = id; proof_data = stringify p; created_at = now }) cache
      else cache,
)
keep_proof written id now cache (thrown x) = (unproved x, cache)

abbrev pub read_cache : Bool → JsString → List CachedProof → Option CachedProof
read_cache readable id cache =
    if readable then find? (λ c. c.authorization_id === id) cache else none

-- `getProofForAuthorization`
unfoldable pub get_proof_for_authorization :
    Environment
    → (JsString → ReceiptResult)
    → Access
    → JsString
    → ℕ
    → Auths
    → List CachedProof
    → GivenProof × List CachedProof
unfolding generate_burn_proof get_authorization_by_id
get_proof_for_authorization env receipts access id now t cache =
    elim (get_authorization_by_id id t) [
      | none ↦ (unproved authorization_not_found, cache)
      | some a ↦ elim (read_cache access.readable id cache) [
        | some c ↦ (parsed c.proof_data, cache)
        | none ↦ keep_proof access.written id now cache (
            generate_burn_proof env (receipts a.starknet_tx_hash) a.starknet_tx_hash
              a.bitcoin_address now t)
      ]
    ]
