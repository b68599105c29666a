-- ===== src/Commitment/Lookup.antt =====
-- Lookups in the table of commitments after its statements.
use mathlib.Core.Option
use starknet.Common.{
  ◌≡◌, refl, sym, subst, ap, ◌∙◌, true, false, some, List, [], ◌∷◌, ◌++◌, map, JsString, ◌===◌,
  ===_iff, arith, Bool-cases, Option-cases, inl, inr, find?-passes,
}
use starknet.Commitment.{CommitmentRecord, has_nullifier, get_by_nullifier, set_used}

has_nullifier-set_used :
    (k nullifier : JsString) (r : CommitmentRecord)
    → has_nullifier k (set_used nullifier r) ≡ has_nullifier k r
has_nullifier-set_used k nullifier r = elim (Bool-cases (has_nullifier nullifier r)) [
  | inl e ↦ rw e refl
  | inr e ↦ rw e refl
]

pub get_by_nullifier-mark :
    (k nullifier : JsString) (rows : List CommitmentRecord)
    → get_by_nullifier k (map (set_used nullifier) rows)
      ≡ Option.map (set_used nullifier) (get_by_nullifier k rows)
unfolding get_by_nullifier
get_by_nullifier-mark k nullifier [] = refl
get_by_nullifier-mark k nullifier (r ∷ rows) = elim (Bool-cases (has_nullifier k r)) [
  | inl e ↦ rw (has_nullifier-set_used k nullifier r, e) refl
  | inr e ↦ rw (has_nullifier-set_used k nullifier r, e) (get_by_nullifier-mark k nullifier rows)
]

pub get_by_nullifier-has :
    (k : JsString) (rows : List CommitmentRecord) (r : CommitmentRecord)
    → get_by_nullifier k rows ≡ some r
    → has_nullifier k r ≡ true
unfolding get_by_nullifier
get_by_nullifier-has k rows r e = find?-passes (has_nullifier k) rows r e

pub get_by_nullifier-mark_self :
    (k : JsString) (rows : List CommitmentRecord) (r : CommitmentRecord)
    → get_by_nullifier k rows ≡ some r
    → get_by_nullifier k (map (set_used k) rows) ≡ some (record r { used = true })
get_by_nullifier-mark_self k rows r e =
    let t = get_by_nullifier-has k rows r e in
    get_by_nullifier-mark k k rows ∙ ap (Option.map (set_used k)) e ∙ (rw t refl)

pub get_by_nullifier-mark_other :
    (k nullifier : JsString) (rows : List CommitmentRecord)
    → (k === nullifier) ≡ false
    → get_by_nullifier k (map (set_used nullifier) rows) ≡ get_by_nullifier k rows
get_by_nullifier-mark_other k nullifier rows ne = elim (Option-cases (get_by_nullifier k rows)) [
  | inl e ↦ get_by_nullifier-mark k nullifier rows ∙ ap (Option.map (set_used nullifier)) e ∙ sym e
  | inr (r, e) ↦
      let q = (===_iff r.nullifier_hash k).0 (get_by_nullifier-has k rows r e) in
      let t : has_nullifier nullifier r ≡ false =
        subst (λ x. (x === nullifier) ≡ false) (sym q) ne in
      get_by_nullifier-mark k nullifier rows
      ∙ ap (Option.map (set_used nullifier)) e
      ∙ (rw t refl)
      ∙ sym e
]

pub get_by_nullifier-append :
    (k : JsString) (rows more : List CommitmentRecord) (r : CommitmentRecord)
    → get_by_nullifier k rows ≡ some r
    → get_by_nullifier k (rows ++ more) ≡ some r
unfolding get_by_nullifier
get_by_nullifier-append k [] more r e = cc
get_by_nullifier-append k (h ∷ rows) more r e =
    ground (arith, get_by_nullifier-append k rows more r)
