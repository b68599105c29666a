-- ===== src/BurnProof/Tests.antt =====
-- Concrete burn proofs (backend/src/services/StarknetProofService.ts).
use starknet.BurnProof.{
  false, JsString, StarknetBurnProof, SerializedProof, Checker, proof_buffer,
  address_to_script_hash, serialize_proof_data, verify_proof,
}
use starknet.BurnProof.Numerals.{big_int}
use starknet.BurnProof.Generate.{
  Environment, proved, parsed, stringify, serialize_parsed_proof, generate_burn_proof,
  get_proof_for_authorization,
}
use starknet.BurnProof.Layout.{slot}
use starknet.BurnProof.Read.{read_proof, Spells, read_proof-serialize_proof_data}
use starknet.BurnProof.Recipient.{IsOpaque, pays, verify_proof_unbound}
use starknet.BurnProof.Emitted.{IsEmitted, generate_burn_proof-emitted}
use starknet.BurnProof.Cached.{Ask, ask, ask_all, get_proof_for_authorization_again}
use starknet.Auth.{WithdrawalAuthorization, completed, processing, get_authorization_by_id}
use starknet.Bytes.{Bytes}
use starknet.Receipt.{Event, TransactionReceipt, received, transaction_not_found}
use starknet.Transaction.Hex.{to_hex}
use mathlib.Core.Option.{some-injective}
use starknet.Common.{
  subst, includes, ◌≡◌, refl, true, none, some, [], ◌∷◌, ◌++◌, codes, length, replicate, ◌===◌,
  pad_start, arith,
}

abbrev burn_proof : StarknetBurnProof
burn_proof = record {
  tx_hash = codes "0xab";
  amount = 5000;
  nullifier = codes "0x1234";
  recipient_btc = codes "tb1qgua";
  block_number = 70000;
  signature = codes "00";
  timestamp = 7;
}

abbrev padded : Bytes → Bytes
padded bs = replicate 30 0 ++ bs

tx_hash-Spells : Spells (codes "0xab") (padded (0 ∷ 171 ∷ []))
unfolding to_hex pad_start
tx_hash-Spells = record {
  digits = codes "ab";
  marked = refl;
  padded = refl;
  size = refl;
  of_bytes = omega arith;
}

nullifier-Spells : Spells (codes "0x1234") (padded (18 ∷ 52 ∷ []))
unfolding to_hex pad_start
nullifier-Spells = record {
  digits = codes "1234";
  marked = refl;
  padded = refl;
  size = refl;
  of_bytes = omega arith;
}

read_proof-serialize_proof_data_example :
    (x : SerializedProof) × (serialize_proof_data burn_proof ≡ some x)
    × (length x.buffer ≡ 112)
    × (x.chunks ≡ x.buffer ∷ [])
    × (read_proof x.buffer
        ≡ some (record {
          hash = padded (0 ∷ 171 ∷ []);
          amount = 5000;
          nullifier = padded (18 ∷ 52 ∷ []);
          recipient = slot 20 (address_to_script_hash (codes "tb1qgua"));
          block_number = 70000;
        }))
read_proof-serialize_proof_data_example =
    read_proof-serialize_proof_data burn_proof (padded (0 ∷ 171 ∷ [])) (padded (18 ∷ 52 ∷ []))
      tx_hash-Spells nullifier-Spells (omega arith) (omega arith)

mine-IsOpaque : IsOpaque (codes "tb1qgua")
mine-IsOpaque = record { first = b'g'; others = codes "ua"; spelled = refl; no_digit = refl }

theirs-IsOpaque : IsOpaque (codes "tb1qxyz")
theirs-IsOpaque = record { first = b'x'; others = codes "yz"; spelled = refl; no_digit = refl }

-- A key that accepts one signature of one buffer only
abbrev key : Checker
key = some (λ buffer r s. r === 0 ∷ [])

verify_proof_unbound_example :
    verify_proof key (pays (codes "tb1qgua") burn_proof)
    ≡ verify_proof key (pays (codes "tb1qxyz") burn_proof)
verify_proof_unbound_example =
    verify_proof_unbound key burn_proof (codes "tb1qgua") (codes "tb1qxyz") mine-IsOpaque
      theirs-IsOpaque

abbrev transfer : Event
transfer = record { from_address = codes "0x2"; keys = codes "0x8" ∷ []; values = [] }

abbrev burn_receipt : TransactionReceipt
burn_receipt = record {
  transaction_hash = codes "0xab";
  block_number = 70000;
  execution_succeeded = true;
  events =
      transfer
      ∷ record {
        from_address = codes "0x1";
        keys = codes "0x9" ∷ codes "0x1234" ∷ [];
        values = codes "0x5" ∷ codes "0x1388" ∷ codes "0x0" ∷ [];
      }
      ∷ [];
}

abbrev environment : Environment
environment = record { contract = some (codes "0x1"); signer = some (λ buffer. codes "00") }

unnamed : (k : JsString) → some (codes "0x8") ≡ some k → includes k (codes "Burn") ≡ false
unfolding includes
unnamed k e =
    subst (λ k'. includes k' (codes "Burn") ≡ false) (some-injective (codes "0x8") k e) refl

burn_receipt-IsEmitted :
    IsEmitted (codes "0x1") (codes "0x1234") (1 ∷ 3 ∷ 8 ∷ 8 ∷ []) (codes "0x0") burn_receipt
burn_receipt-IsEmitted = record {
  before = transfer ∷ [];
  after = [];
  selector = codes "0x9";
  recipient = codes "0x5";
  emitted = refl;
  others = ((λ e. absurd (ground (arith, e)), unnamed), tt);
}

generate_burn_proof-emitted_example :
    (x : Bytes) × (proof_buffer (record burn_proof { signature = [] }) ≡ some x)
    × (generate_burn_proof environment (received burn_receipt) (codes "0xab") (codes "tb1qgua") 7 []
        ≡ proved burn_proof)
generate_burn_proof-emitted_example =
    generate_burn_proof-emitted environment (codes "0x1") (codes "0x1234") (codes "0x0")
      (codes "0xab") (codes "tb1qgua") 1 (3 ∷ 8 ∷ 8 ∷ []) (λ buffer. codes "00") 7 [] burn_receipt
      refl refl refl burn_receipt-IsEmitted refl
      (omega arith, (omega arith, (omega arith, (omega arith, tt)))) (omega arith) (omega arith)

-- An authorization that was completed after its proof was made
abbrev done : WithdrawalAuthorization
done = record {
  id = codes "a";
  vault_id = codes "v";
  nullifier_hash = codes "0x1234";
  starknet_tx_hash = codes "0xab";
  bitcoin_address = codes "tb1qgua";
  amount_sats = 5000;
  status = completed;
  created_at = 1;
  confirmed_at = some 2;
  bitcoin_txid = some (codes "t");
  error_message = none;
}

abbrev asking : Ask
asking = record {
  env = environment;
  receipts = λ h. received burn_receipt;
  access = record { readable = true; written = true };
  id = codes "a";
  now = 7;
  auths = record done { status = processing } ∷ [];
}

-- A call for another authorization, and one after the completion that finds no receipt
abbrev asking_other : Ask
asking_other = record asking {
  id = codes "b";
  auths = record done { id = codes "b"; status = processing } ∷ [];
}

abbrev asking_later : Ask
asking_later = record asking { receipts = λ h. transaction_not_found; auths = done ∷ [] }

get_proof_for_authorization_again_example :
    let cache' = ask_all (asking_other ∷ asking_later ∷ []) (ask asking []).1 in
    (ask asking_later cache' ≡ (parsed (stringify burn_proof), cache'))
    × (serialize_parsed_proof (stringify burn_proof) ≡ serialize_proof_data burn_proof)
unfolding ◌===◌ get_authorization_by_id get_proof_for_authorization includes big_int
    serialize_proof_data
get_proof_for_authorization_again_example =
    get_proof_for_authorization_again asking (asking_other ∷ asking_later ∷ []) asking_later []
      burn_proof done refl refl (refl, (refl, tt)) refl refl refl
