-- ===== src/BurnProof/Recipient.antt =====
-- What a burn proof of backend/src/services/StarknetProofService.ts says about the recipient: decodeBech32
-- reads the characters of an address as hexadecimal digits, and those of bech32 mostly are not.
use starknet.BurnProof.{
  StarknetBurnProof, Checker, decode_bech32, address_to_script_hash, proof_buffer,
  serialize_proof_data, verify_proof, check_signature,
}
use starknet.Transaction.Hex.{digit_value, from_hex}
use starknet.Common.{ℕ, ◌≡◌, refl, ap, none, [], ◌∷◌, ◌++◌, JsString, codes}

-- A signet address whose first character behind the witness version is no hexadecimal digit.
pub record IsOpaque (address : JsString) : Type 0 where
  pub first : ℕ
  pub others : JsString
  pub spelled : address ≡ codes "tb1q" ++ first ∷ others
  pub no_digit : digit_value first ≡ none

opaque_digits : (c : ℕ) (s : JsString) → digit_value c ≡ none → from_hex (c ∷ s) ≡ []
unfolding from_hex
opaque_digits c [] h = refl
opaque_digits c (d ∷ s) h = rw (h, from_hex) refl

opaque_lem : (a : JsString) → IsOpaque a → address_to_script_hash a ≡ []
unfolding address_to_script_hash decode_bech32
opaque_lem a k =
    rw (k.spelled, opaque_digits k.first k.others k.no_digit, address_to_script_hash) refl

abbrev pub pays : JsString → StarknetBurnProof → StarknetBurnProof
pays address p = record p { recipient_btc = address }

serialize_unbound :
    (p : StarknetBurnProof) (a b : JsString)
    → IsOpaque a
    → IsOpaque b
    → serialize_proof_data (pays a p) ≡ serialize_proof_data (pays b p)
unfolding serialize_proof_data proof_buffer
serialize_unbound p a b ha hb = rw (opaque_lem a ha, opaque_lem b hb) refl

-- The signature of a proof does not cover the recipient, where the character behind `tb1q` is no
-- hexadecimal digit: a proof that is accepted for one such address is accepted for every other one, with
-- the same signature.
pub verify_proof_unbound :
    (key : Checker) (p : StarknetBurnProof) (a b : JsString)
    → IsOpaque a
    → IsOpaque b
    → verify_proof key (pays a p) ≡ verify_proof key (pays b p)
unfolding verify_proof
verify_proof_unbound key p a b ha hb =
    ap (check_signature key p.signature) (serialize_unbound p a b ha hb)
