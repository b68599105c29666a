-- ===== src/Commitment/Nullifier.antt =====
-- A nullifier is used at most once.
use starknet.Common.{
  ℕ, ◌+◌, ◌≤◌, ◌≡◌, refl, Bool, true, false, ◌&&◌, ◌||◌, Option, none, some, List, [], ◌∷◌, ◌++◌,
  map, JsString, ◌===◌, ===_iff, ===_refl, any, if◌then◌else◌, arith, Bool-cases, Option-cases, inl,
  inr,
}
use starknet.Commitment.{
  CommitmentRecord, MarkAnswer, marked, not_found, already_used, get_by_nullifier,
  get_by_commitment, used_or, is_nullifier_used, set_used, mark_nullifier_used, generate_commitment,
  insert_commitment, commit_found, commit,
}
use starknet.Commitment.Verify.{commit-none, commit-some}
use starknet.Commitment.Lookup.{
  get_by_nullifier-mark_self, get_by_nullifier-mark_other, get_by_nullifier-append,
}

abbrev pub is_marked : MarkAnswer → Bool
is_marked marked = true
is_marked not_found = false
is_marked already_used = false

mark_missing :
    (n : JsString) (rows : List CommitmentRecord)
    → get_by_nullifier n rows ≡ none
    → mark_nullifier_used n rows ≡ (rows, not_found)
unfolding mark_nullifier_used
mark_missing n rows e = rw (e, mark_nullifier_used) refl

mark_used :
    (n : JsString) (rows : List CommitmentRecord) (r : CommitmentRecord)
    → get_by_nullifier n rows ≡ some r
    → r.used ≡ true
    → mark_nullifier_used n rows ≡ (rows, already_used)
unfolding mark_nullifier_used
mark_used n rows r e u = rw (e, mark_nullifier_used) (rw u refl)

mark_unused :
    (n : JsString) (rows : List CommitmentRecord) (r : CommitmentRecord)
    → get_by_nullifier n rows ≡ some r
    → r.used ≡ false
    → mark_nullifier_used n rows ≡ (map (set_used n) rows, marked)
unfolding mark_nullifier_used
mark_unused n rows r e u = rw (e, mark_nullifier_used) (rw u refl)

abbrev left_to_use : Option CommitmentRecord → ℕ
left_to_use none = 1
left_to_use (some r) = if r.used then 0 else 1

unused-left_to_use : (r : CommitmentRecord) → r.used ≡ false → left_to_use (some r) ≡ 1
unused-left_to_use r u = rw u refl

used_or-left_to_use : (r : Option CommitmentRecord) → left_to_use r ≡ (if used_or r then 0 else 1)
used_or-left_to_use none = refl
used_or-left_to_use (some r) = refl

left_to_use-le : (r : Option CommitmentRecord) → left_to_use r ≤ 1
left_to_use-le none = omega arith
left_to_use-le (some r) = ground arith

append-le :
    (n : JsString) (rows more : List CommitmentRecord)
    → left_to_use (get_by_nullifier n (rows ++ more)) ≤ left_to_use (get_by_nullifier n rows)
append-le n rows more = elim (Option-cases (get_by_nullifier n rows)) [
  | inl f ↦ rw f (left_to_use-le (get_by_nullifier n (rows ++ more)))
  | inr (g, f) ↦ rw (f, get_by_nullifier-append n rows more g f) (omega arith)
]

mark-uses :
    (n k : JsString) (rows : List CommitmentRecord)
    → (if n === k && is_marked (mark_nullifier_used k rows).1 then 1 else 0)
        + left_to_use (get_by_nullifier n (mark_nullifier_used k rows).0)
      ≤ left_to_use (get_by_nullifier n rows)
mark-uses n k rows = elim (Option-cases (get_by_nullifier k rows)) [
  | inl e ↦ rw (mark_missing k rows e) (ground arith)
  | inr (r, e) ↦ elim (Bool-cases r.used) [
    | inl u ↦ rw (mark_used k rows r e u) (ground arith)
    | inr u ↦ elim (Bool-cases (n === k)) [
      | inr ne ↦
          rw (mark_unused k rows r e u, ne, get_by_nullifier-mark_other n k rows ne) (omega arith)
      | inl eq ↦
          rw
            (
              mark_unused k rows r e u,
              (===_iff n k).0 eq,
              ===_refl k,
              get_by_nullifier-mark_self k rows r e,
              e,
            )
            (let f = unused-left_to_use r u in omega (arith, f))
    ]
  ]
]

pub data Operation : Type 0 where
  commits : JsString → JsString → JsString → ℕ → Operation
  marks : JsString → Operation

module _ (pedersen : JsString → JsString → JsString) (satoshis : JsString → Option JsString) where
  abbrev pub perform : Operation → List CommitmentRecord → List CommitmentRecord
  perform (commits id secret salt now) rows = (commit pedersen satoshis id secret salt now rows).0
  perform (marks n) rows = (mark_nullifier_used n rows).0

  abbrev uses_now : JsString → Operation → List CommitmentRecord → ℕ
  uses_now n (commits id secret salt now) rows = 0
  uses_now n (marks k) rows = if n === k && is_marked (mark_nullifier_used k rows).1 then 1 else 0

  -- How often the operations mark the nullifier `n` as used.
  abbrev pub uses : JsString → List Operation → List CommitmentRecord → ℕ
  uses n [] rows = 0
  uses n (o ∷ os) rows = uses_now n o rows + uses n os (perform o rows)

  commit_found-le :
      (n id commitment nullifier : JsString) (now : ℕ) (rows : List CommitmentRecord)
      (r : Option CommitmentRecord)
      → left_to_use
          (get_by_nullifier n (commit_found pedersen satoshis id commitment nullifier now rows r).0)
        ≤ left_to_use (get_by_nullifier n rows)
  unfolding insert_commitment
  commit_found-le n id commitment nullifier now rows (some r) = omega arith
  commit_found-le n id commitment nullifier now rows none =
      elim (Bool-cases (any (λ r. r.id === id || r.nullifier_hash === nullifier) rows)) [
        | inl e ↦ rw e (omega arith)
        | inr e ↦ rw e (
            append-le n rows (
              record {
                id = id;
                commitment = commitment;
                nullifier_hash = nullifier;
                used = false;
                created_at = now;
              }
              ∷ []))
      ]

  commit-le :
      (n id secret salt : JsString) (now : ℕ) (rows : List CommitmentRecord)
      → left_to_use (get_by_nullifier n (commit pedersen satoshis id secret salt now rows).0)
        ≤ left_to_use (get_by_nullifier n rows)
  commit-le n id secret salt now rows =
      elim (Option-cases (generate_commitment pedersen satoshis secret salt)) [
        | inl e ↦ rw (commit-none pedersen satoshis id secret salt now rows e) (omega arith)
        | inr (c, e) ↦
            rw (commit-some pedersen satoshis id secret salt now rows c e)
              (commit_found-le n id c (pedersen c secret) now rows (get_by_commitment c rows))
      ]

  uses-left :
      (n : JsString) (os : List Operation) (rows : List CommitmentRecord)
      → uses n os rows ≤ left_to_use (get_by_nullifier n rows)
  uses-left n [] rows = omega arith
  uses-left n (commits id secret salt now ∷ os) rows =
      let c = commit-le n id secret salt now rows in
      let r = uses-left n os (commit pedersen satoshis id secret salt now rows).0 in omega arith
  uses-left n (marks k ∷ os) rows =
      let c = mark-uses n k rows in
      let r = uses-left n os (mark_nullifier_used k rows).0 in omega arith

  -- Whatever is committed and marked, in whatever order, a nullifier is marked as used at most once,
  -- and not at all if it is used already.
  pub uses_once :
      (n : JsString) (os : List Operation) (rows : List CommitmentRecord)
      → uses n os rows ≤ (if is_nullifier_used n rows then 0 else 1)
  unfolding is_nullifier_used
  uses_once n os rows =
      let p = uses-left n os rows in
      let q = used_or-left_to_use (get_by_nullifier n rows) in omega (arith, p, q)
