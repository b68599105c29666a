-- ===== src/Htlc/Rows.antt =====
-- Lookups in the table of contracts after its statements.
use mathlib.Core.Option
use starknet.Common.{
  find?-passes, ◌≡◌, refl, sym, subst, ap, ◌∙◌, true, false, some, List, [], ◌∷◌, ◌++◌, JsString,
  ◌===◌, ===_iff, find?, arith, Bool-cases, Option-cases, inl, inr,
}
use starknet.Htlc.{HtlcStatus, Htlc, has_id, get_by_id, with_status, update_status}

has_id-with_status :
    (k : JsString) (status : HtlcStatus) (id : JsString) (h : Htlc)
    → has_id k (with_status status id h) ≡ has_id k h
has_id-with_status k status id h = elim (Bool-cases (h.id === id)) [
  | inl e ↦ rw e refl
  | inr e ↦ rw e refl
]

pub get_by_id-update :
    (k : JsString) (status : HtlcStatus) (id : JsString) (rows : List Htlc)
    → get_by_id k (update_status status id rows)
      ≡ Option.map (with_status status id) (get_by_id k rows)
unfolding get_by_id update_status
get_by_id-update k status id [] = refl
get_by_id-update k status id (h ∷ rows) = elim (Bool-cases (h.id === k)) [
  | inl e ↦ rw (has_id-with_status k status id h, e) refl
  | inr e ↦ rw (has_id-with_status k status id h, e) (get_by_id-update k status id rows)
]

found :
    (k : JsString) (rows : List Htlc) (h : Htlc)
    → get_by_id k rows ≡ some h
    → find? (has_id k) rows ≡ some h
unfolding get_by_id
found k rows h e = e

pub get_by_id-has :
    (k : JsString) (rows : List Htlc) (h : Htlc) → get_by_id k rows ≡ some h → h.id ≡ k
unfolding get_by_id
get_by_id-has k rows h e = (===_iff h.id k).0 (find?-passes (has_id k) rows h e)

-- The row found after its status is written.
pub get_by_id-update_self :
    (k : JsString) (status : HtlcStatus) (rows : List Htlc) (h : Htlc)
    → get_by_id k rows ≡ some h
    → get_by_id k (update_status status k rows) ≡ some (record h { status = status })
get_by_id-update_self k status rows h e =
    get_by_id-update k status k rows
    ∙ ap (Option.map (with_status status k)) e
    ∙ ap some
        (let t : has_id k h ≡ true = find?-passes (has_id k) rows h (found k rows h e) in rw t refl)

pub get_by_id-update_other :
    (k id : JsString) (status : HtlcStatus) (rows : List Htlc)
    → (k === id) ≡ false
    → get_by_id k (update_status status id rows) ≡ get_by_id k rows
get_by_id-update_other k id status rows ne = elim (Option-cases (get_by_id k rows)) [
  | inl e ↦ get_by_id-update k status id rows ∙ ap (Option.map (with_status status id)) e ∙ sym e
  | inr (h, e) ↦
      get_by_id-update k status id rows
      ∙ ap (Option.map (with_status status id)) e
      ∙ ap some (
          let q = get_by_id-has k rows h e in
          let t : has_id id h ≡ false = subst (λ x. (x === id) ≡ false) (sym q) ne in rw t refl)
      ∙ sym e
]

-- An insertion leaves the rows found before.
pub get_by_id-append :
    (k : JsString) (rows more : List Htlc) (h : Htlc)
    → get_by_id k rows ≡ some h
    → get_by_id k (rows ++ more) ≡ some h
unfolding get_by_id
get_by_id-append k [] more h e = cc
get_by_id-append k (r ∷ rows) more h e = ground (arith, get_by_id-append k rows more h)
