-- ===== src/Validators/Tests.antt =====
-- Runs of the validators, and the witnesses of the properties.
use starknet.Common.{
  ◌===◌, includes, ◌↔◌, some, none, [], ◌∷◌, starts_with, ◌≡◌, refl, true, false, codes,
}
use starknet.Validators.Body.{IsComplete, validate_body-IsComplete}
use starknet.Validators.{
  missing_field, check_field, check_fields, check_body, validate_body, Request, text, number,
  is_valid_timelock, is_valid_felt,
}

-- Half an hour, as a time and not as a moment, is in the past.
default_timelock : is_valid_timelock 1_700_000_000 1800 ≡ false
unfolding is_valid_timelock
default_timelock = refl

felts : (is_valid_felt (codes "0x1f") ≡ true) × (is_valid_felt (codes "1f") ≡ false)
unfolding is_valid_felt starts_with
felts = (refl, refl)

abbrev withdraw_request : Request
withdraw_request = record {
  method = codes "POST";
  content_type = some (codes "application/json; charset=utf-8");
  body = some ((codes "secret", text (codes "x")) ∷ (codes "amount", number false) ∷ []);
}

validate_body-IsComplete_example :
    (validate_body (codes "secret" ∷ codes "amount" ∷ []) withdraw_request ≡ none)
    ↔ IsComplete (codes "secret" ∷ codes "amount" ∷ []) withdraw_request
validate_body-IsComplete_example =
    validate_body-IsComplete (codes "secret" ∷ codes "amount" ∷ []) withdraw_request

accepted_request : validate_body (codes "secret" ∷ codes "amount" ∷ []) withdraw_request ≡ none
unfolding validate_body check_body check_fields check_field includes starts_with ◌===◌
accepted_request = refl

blank_field :
    validate_body
      (codes "secret" ∷ [])
      (record withdraw_request { body = some ((codes "secret", text (codes "  ")) ∷ []) })
    ≡ some (missing_field (codes "secret"))
unfolding validate_body check_body check_fields check_field includes starts_with ◌===◌
blank_field = refl
