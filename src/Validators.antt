-- ===== src/Validators.antt =====
-- backend/src/middleware/validators.ts, validateBody.ts and validateTxHash.ts, and isValidAddress of
-- backend/src/services/CryptoService.ts: what a request must look like before a handler sees it.
pub mod Body
mod Tests
use starknet.Receipt.{is_hex_unit}
use starknet.Common.{
  is_space, ℕ, ◌+◌, ◌*◌, Bool, true, false, not, ◌&&◌, ◌||◌, Option, none, some, List, [], ◌∷◌,
  JsString, codes, ◌===◌, ◌==◌, starts_with, length, drop, ltb, leb, any, if◌then◌else◌, find?,
  includes, is_some,
}

-- `/^0x[0-9a-fA-F]{lo,hi}$/`
unfoldable pub matches_hex : ℕ → ℕ → JsString → Bool
matches_hex lo hi s =
    starts_with s (codes "0x")
    && leb (2 + lo) (length s)
    && leb (length s) (2 + hi)
    && not (any (λ c. not (is_hex_unit c)) (drop 2 s))

-- `isValidAddress` of the class CryptoService
unfoldable pub is_valid_address : JsString → Bool
unfolding matches_hex
is_valid_address s = matches_hex 63 66 s

unfoldable pub is_valid_starknet_address : JsString → Bool
unfolding matches_hex
is_valid_starknet_address s = matches_hex 63 64 s

unfoldable pub is_valid_bitcoin_signet_address : JsString → Bool
is_valid_bitcoin_signet_address s =
    starts_with s (codes "tb1") && leb 14 (length s) && leb (length s) 74

-- The timelock as a whole number of seconds; `now` is the clock in seconds.
unfoldable pub is_valid_timelock : ℕ → ℕ → Bool
is_valid_timelock now timelock = ltb now timelock && ltb timelock (now + 10 * 365 * 24 * 60 * 60)

unfoldable pub is_valid_preimage : JsString → Bool
is_valid_preimage s = leb 1 (length s) && leb (length s) 256

abbrev pub is_digit_unit : ℕ → Bool
is_digit_unit c = leb 48 c && leb c 57

unfoldable pub is_valid_felt : JsString → Bool
is_valid_felt s =
    (leb 1 (length s) && not (any (λ c. not (is_digit_unit c)) s))
    || (starts_with s (codes "0x")
        && leb 3 (length s)
        && not (any (λ c. not (is_hex_unit c)) (drop 2 s)))

-- A field of the body of a request: missing, or a value of one of the kinds that are told apart; a
-- number is known by whether it is `NaN`.
pub data Field : Type 0 where
  undefined : Field
  null_field : Field
  text : JsString → Field
  number : Bool → Field
  other_kind : Field

-- `val.trim().length === 0`
abbrev pub is_blank : JsString → Bool
is_blank s = not (any (λ c. not (is_space c)) s)

pub data BodyError : Type 0 where
  wrong_content_type no_body empty_body : BodyError
  missing_field invalid_type : JsString → BodyError

pub record Request : Type 0 where
  pub method : JsString
  pub content_type : Option JsString
  pub body : Option (List (JsString × Field))

-- `req.body[field]`
abbrev pub field_of : JsString → List (JsString × Field) → Field
field_of k [] = undefined
field_of k ((j, v) ∷ m) = if j === k then v else field_of k m

-- What is wrong with one required field, if anything.
unfoldable pub check_field : JsString → Field → Option BodyError
check_field k undefined = some (missing_field k)
check_field k null_field = some (missing_field k)
check_field k (text s) = if is_blank s then some (missing_field k) else none
check_field k (number nan) = if nan then some (invalid_type k) else none
check_field k other_kind = some (invalid_type k)

-- The loop over the required fields: the first error is the answer.
unfoldable pub check_fields : List JsString → List (JsString × Field) → Option BodyError
unfolding check_field
check_fields [] m = none
check_fields (k ∷ ks) m = elim (check_field k (field_of k m)) [
  | some e ↦ some e
  | none ↦ check_fields ks m
]

-- The methods whose content type is checked.
abbrev pub has_content : JsString → Bool
has_content m = m === codes "POST" || m === codes "PUT" || m === codes "PATCH"

abbrev pub is_json : Option JsString → Bool
is_json none = false
is_json (some t) = includes t (codes "application/json")

-- The checks of the body
unfoldable pub check_body : List JsString → Option (List (JsString × Field)) → Option BodyError
unfolding check_fields
check_body required none = some no_body
check_body required (some []) = some empty_body
check_body required (some (kv ∷ m)) = check_fields required (kv ∷ m)

-- `validateBody`: the error that is answered with status 400, or none if the request is passed on.
unfoldable pub validate_body : List JsString → Request → Option BodyError
unfolding check_body
validate_body required r =
    if has_content r.method && not (is_json r.content_type)
    then some wrong_content_type
    else check_body required r.body

-- `validateTxHash`, on the fields `txHash` of the body and of the route: whether the request passes.
unfoldable pub validate_tx_hash : Field → Field → Bool
unfolding matches_hex
validate_tx_hash in_body in_params = elim in_body [
  | undefined ↦ checked in_params
  | null_field ↦ checked in_params
  | text s ↦ matches_hex 63 64 s
  | number nan ↦ false
  | other_kind ↦ false
]
  where
    checked : Field → Bool
    checked undefined = true
    checked null_field = true
    checked (text s) = matches_hex 63 64 s
    checked (number nan) = false
    checked other_kind = false
