-- ===== src/Validators/Body.antt =====
-- Which requests the middleware passes on (backend/src/middleware/validateBody.ts).
use mathlib.Core.Option.{some-injective}
use starknet.Common.{
  refl, sym, subst, subst, Bool-cases, ◌≡◌, true, false, not, ◌&&◌, Option, none, some, List, [],
  ◌∷◌, JsString, All, ◌↔◌, arith, ◌≢◌, inl, inr,
}
use starknet.Validators.{
  check_body, Field, undefined, null_field, text, number, other_kind, is_blank, Request, field_of,
  check_field, check_fields, has_content, is_json, validate_body,
}

-- A field that may be used: a text that is more than white space, or a number.
abbrev pub IsFilled : Field → Type 0
IsFilled (text s) = is_blank s ≡ false
IsFilled (number nan) = nan ≡ false
IsFilled _ = ⊥

-- A body with all the fields
abbrev pub HasFields : List JsString → Option (List (JsString × Field)) → Type 0
HasFields required b =
    (m : List (JsString × Field)) × (b ≡ some m)
    × (m ≢ [])
    × All (λ k. IsFilled (field_of k m)) required

-- A request that carries JSON, if its method carries anything, and all the fields.
pub record IsComplete (required : List JsString) (r : Request) : Type 0 where
  pub content : has_content r.method ≡ true → is_json r.content_type ≡ true
  pub fields : HasFields required r.body

check_field_iff : (k : JsString) (v : Field) → (check_field k v ≡ none) ↔ IsFilled v
unfolding check_field
check_field_iff k undefined = ground arith
check_field_iff k null_field = ground arith
check_field_iff k (text s) = ground arith
check_field_iff k (number nan) = ground arith
check_field_iff k other_kind = ground arith

check_fields_iff :
    (required : List JsString) (m : List (JsString × Field))
    → (check_fields required m ≡ none) ↔ All (λ k. IsFilled (field_of k m)) required
unfolding check_fields
check_fields_iff [] m = (λ e. tt, λ h. refl)
check_fields_iff (k ∷ ks) m =
    ground (arith, check_field_iff k (field_of k m), check_fields_iff ks m)

-- What the body has to hold for the fields to be looked at.
check_body_iff :
    (required : List JsString) (b : Option (List (JsString × Field)))
    → (check_body required b ≡ none) ↔ HasFields required b
unfolding check_body
check_body_iff required none = (λ e. cc, λ h. cc)
check_body_iff required (some []) = (λ e. cc, λ h. absurd (h.2 (sym (some-injective [] h.0 h.1))))
check_body_iff required (some (kv ∷ m)) = (
  λ e. (kv ∷ m, refl, λ q. cc, (check_fields_iff required (kv ∷ m)).0 e),
  λ h. (check_fields_iff required (kv ∷ m)).1 (
      subst (λ n. All (λ k. IsFilled (field_of k n)) required)
        (sym (some-injective (kv ∷ m) h.0 h.1)) h.3),
)

-- A request is passed on exactly if it carries JSON, where its method may carry a body, and its body has
-- all the required fields, each a text that is more than white space or a number other than `NaN`.
pub validate_body-IsComplete :
    (required : List JsString) (r : Request)
    → (validate_body required r ≡ none) ↔ IsComplete required r
unfolding validate_body
validate_body-IsComplete required r =
    elim (Bool-cases (has_content r.method && not (is_json r.content_type))) [
      | inl e ↦ (λ f. absurd (ground arith), λ c. absurd (ground (arith, c.content)))
      | inr e ↦ (
        λ f. record {
          content = λ h. ground arith;
          fields = (check_body_iff required r.body).0 (ground arith);
        },
        λ c. ground (arith, (check_body_iff required r.body).1 c.fields),
      )
    ]
