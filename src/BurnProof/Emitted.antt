-- ===== src/BurnProof/Emitted.antt =====
-- The proof of a burn from the event that the vault emits (backend/src/services/StarknetProofService.ts).
use starknet.BurnProof.{
  StarknetBurnProof, proof_buffer, serialize_proof_data, copy, hash_bytes, address_to_script_hash,
}
use starknet.BurnProof.Layout.{write_le_lem}
use starknet.BurnProof.Numerals.{felt_text, place_value, big_int, big_int-felt_text}
use starknet.BurnProof.Generate.{
  Environment, proved, thrown, nullifier_used, BurnEvent, is_burn_event, extract_burn_event,
  is_spent, unsigned, sign_proof, prove_burn, generate_burn_proof, elem_or,
}
use starknet.Auth.{completed, is_status, Auths}
use starknet.Bytes.{Bytes, le_bytes}
use starknet.Receipt.{Event, TransactionReceipt, received}
use starknet.Common.{
  replicate, ◌&&◌, any, ℕ, ◌^◌, ◌<◌, ◌≡◌, ◌≢◌, refl, ap, ◌∙◌, true, false, none, some, List, [],
  ◌∷◌, ◌++◌, JsString, codes, includes, truthy, ◌===◌, ===_iff, ===_refl, get_elem?, find?,
  find?-append, All, if◌then◌else◌, arith, Option-cases, inl, inr,
}

-- An event that is not taken for the burn
abbrev pub IsOther : JsString → Event → Type 0
IsOther contract e =
    (e.from_address ≢ contract)
    × ((k : JsString) → get_elem? e.keys 0 ≡ some k → includes k (codes "Burn") ≡ false)

-- The events of a receipt in which the contract tells of the burn of a nullifier, with the two halves of
-- the amount as texts of felts.
pub record IsEmitted (contract nullifier : JsString) (low : List ℕ) (high : JsString)
    (r : TransactionReceipt) : Type 0 where
  pub before : List Event
  pub after : List Event
  pub selector : JsString
  pub recipient : JsString
  pub emitted :
      r.events
      ≡ before
        ++ record {
          from_address = contract;
          keys = selector ∷ nullifier ∷ [];
          values = recipient ∷ felt_text low ∷ high ∷ [];
        }
          ∷ after
  pub others : All (IsOther contract) before

IsOther-is_burn_event :
    (contract : JsString) (e : Event) → IsOther contract e → is_burn_event (some contract) e ≡ false
IsOther-is_burn_event contract e h = elim (Option-cases (get_elem? e.keys 0)) [
  | inl g ↦ ground (arith, ===_iff e.from_address contract, h.0)
  | inr (k, g) ↦ ground (arith, ===_iff e.from_address contract, h.0, h.1 k g)
]

no_burn_before :
    (contract : JsString) (es : List Event)
    → All (IsOther contract) es
    → find? (is_burn_event (some contract)) es ≡ none
no_burn_before contract [] h = refl
no_burn_before contract (e ∷ es) h =
    rw (IsOther-is_burn_event contract e h.0) (no_burn_before contract es h.1)

module _ (contract nullifier : JsString) (d : ℕ) (ds : List ℕ) (high : JsString)
    (r : TransactionReceipt) (h : IsEmitted contract nullifier (d ∷ ds) high r)
    (named : truthy nullifier ≡ true) where
  abbrev found_event : Event
  found_event = record {
    from_address = contract;
    keys = h.selector ∷ nullifier ∷ [];
    values = h.recipient ∷ felt_text (d ∷ ds) ∷ high ∷ [];
  }

  found_event-is_burn_event : is_burn_event (some contract) found_event ≡ true
  found_event-is_burn_event = ground (arith, ===_refl contract)

  burn_found : find? (is_burn_event (some contract)) r.events ≡ some found_event
  burn_found =
      ap (find? (is_burn_event (some contract))) h.emitted
      ∙ find?-append (is_burn_event (some contract)) h.before (found_event ∷ h.after)
          (no_burn_before contract h.before h.others)
      ∙ rw found_event-is_burn_event refl

  extract_burn_event-emitted :
      extract_burn_event (some contract) r
      ≡ some (record {
        amount = felt_text (d ∷ ds);
        nullifier = nullifier;
        recipient = elem_or (h.recipient ∷ []) 0 (codes "0x0");
      })
  unfolding extract_burn_event
  extract_burn_event-emitted = rw (burn_found, extract_burn_event, named) refl

-- Numbers of eight bytes have a place in the buffer.
proof_buffer-fits :
    (p : StarknetBurnProof)
    → p.amount < 2 ^ 64
    → p.block_number < 2 ^ 64
    → (x : Bytes) × (proof_buffer p ≡ some x)
unfolding proof_buffer
proof_buffer-fits p ha hb =
    let first = copy (hash_bytes p.tx_hash) 0 (replicate 112 0) in
    let last =
      copy (address_to_script_hash p.recipient_btc) 72
        (copy (hash_bytes p.nullifier) 40 (copy (le_bytes 8 p.amount) 32 first)) in
    (
      copy (le_bytes 8 p.block_number) 92 last,
      rw (write_le_lem p.amount 32 first ha, write_le_lem p.block_number 92 last hb) refl,
    )

sign_proof_lem :
    (sign : Bytes → JsString) (p : StarknetBurnProof) (x : Bytes)
    → proof_buffer p ≡ some x
    → sign_proof (some sign) p ≡ proved (record p { signature = sign x })
unfolding sign_proof serialize_proof_data
sign_proof_lem sign p x e = ground (arith, e)

prove_burn_lem :
    (env : Environment) (sign : Bytes → JsString) (tx_hash address : JsString) (now : ℕ) (t : Auths)
    (r : TransactionReceipt) (e : BurnEvent) (amount : ℕ) (x : Bytes)
    → env.signer ≡ some sign
    → big_int e.amount ≡ some amount
    → proof_buffer (unsigned tx_hash address now r e amount) ≡ some x
    → prove_burn env tx_hash address now t r e ≡ (
        if is_spent e.nullifier t
        then thrown nullifier_used
        else proved (record (unsigned tx_hash address now r e amount) { signature = sign x }))
unfolding prove_burn
prove_burn_lem env sign tx_hash address now t r e amount x c a b =
    rw (a, prove_burn, c, sign_proof_lem sign (unsigned tx_hash address now r e amount) x b) refl

-- For a transaction that succeeded and in which the configured contract, in the first event that is taken
-- for a burn, tells of the burn of a nullifier, generateBurnProof with a key gives the proof over that
-- nullifier, the lower half of the amount, whatever the upper half says, the block and the address that was
-- asked for, signed over its bytes, or throws if a completed authorization has the nullifier, provided that
-- the nullifier is not the empty text, and the half and the block fit eight bytes.
pub generate_burn_proof-emitted :
    (env : Environment) (contract nullifier high tx_hash address : JsString) (d : ℕ) (ds : List ℕ)
    (sign : Bytes → JsString) (now : ℕ) (t : Auths) (r : TransactionReceipt)
    → env.contract ≡ some contract
    → env.signer ≡ some sign
    → r.execution_succeeded ≡ true
    → IsEmitted contract nullifier (d ∷ ds) high r
    → truthy nullifier ≡ true
    → All (λ c. c < 16) (d ∷ ds)
    → place_value 16 0 (d ∷ ds) < 2 ^ 64
    → r.block_number < 2 ^ 64
    → let p : StarknetBurnProof = record {
      tx_hash = tx_hash;
      amount = place_value 16 0 (d ∷ ds);
      nullifier = nullifier;
      recipient_btc = address;
      block_number = r.block_number;
      signature = [];
      timestamp = now;
    } in
      (x : Bytes) × (proof_buffer p ≡ some x)
      × (generate_burn_proof env (received r) tx_hash address now t ≡ (
          if any (λ a. a.nullifier_hash === nullifier && is_status a.status completed) t
          then thrown nullifier_used
          else proved (record p { signature = sign x })))
unfolding generate_burn_proof
generate_burn_proof-emitted env contract nullifier high tx_hash address d ds sign now t r c k s h n
      g ha hb =
    let e : BurnEvent = record {
      amount = felt_text (d ∷ ds);
      nullifier = nullifier;
      recipient = elem_or (h.recipient ∷ []) 0 (codes "0x0");
    } in
    let amount = place_value 16 0 (d ∷ ds) in
    let (x, b) = proof_buffer-fits (unsigned tx_hash address now r e amount) ha hb in
    let found : extract_burn_event env.contract r ≡ some e =
      ap (λ o. extract_burn_event o r) c
      ∙ extract_burn_event-emitted contract nullifier d ds high r h n in
    (
      x,
      b,
      rw (s, found, generate_burn_proof)
          (prove_burn_lem env sign tx_hash address now t r e amount x k (big_int-felt_text d ds g)
            b),
    )
