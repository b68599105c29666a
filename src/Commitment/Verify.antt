-- ===== src/Commitment/Verify.antt =====
-- What verify accepts of what commit returned.
use starknet.Common.{
  ℕ, ◌≡◌, refl, sym, ap, ◌∙◌, true, Option, none, some, List, JsString, ===_refl, arith,
  Option-cases, inl, inr,
}
use starknet.Commitment.{
  CommitmentRecord, Commitment, get_by_commitment, norm, generate_commitment, insert_commitment,
  commit_found, commit, verify,
}

module _ (pedersen : JsString → JsString → JsString) (satoshis : JsString → Option JsString) where
  module _ (id secret salt : JsString) (now : ℕ) (rows : List CommitmentRecord) where
    pub commit-none :
        generate_commitment pedersen satoshis secret salt ≡ none
        → commit pedersen satoshis id secret salt now rows ≡ (rows, none)
    unfolding commit
    commit-none e = rw (e, commit) refl

    pub commit-some :
        (c : JsString)
        → generate_commitment pedersen satoshis secret salt ≡ some c
        → commit pedersen satoshis id secret salt now rows
          ≡ commit_found pedersen satoshis id c
              (pedersen c secret)
              now
              rows
              (get_by_commitment c rows)
    unfolding commit
    commit-some c e = rw (e, commit) refl

  commit_found-commitment :
      (id commitment nullifier : JsString) (now : ℕ) (rows : List CommitmentRecord)
      (r : Option CommitmentRecord) (c : Commitment)
      → (commit_found pedersen satoshis id commitment nullifier now rows r).1 ≡ some c
      → c.commitment ≡ commitment
  unfolding insert_commitment
  commit_found-commitment id commitment nullifier now rows (some r) c e = ground arith
  commit_found-commitment id commitment nullifier now rows none c e = ground arith

  commit-commitment :
      (id secret salt : JsString) (now : ℕ) (rows : List CommitmentRecord) (c : Commitment)
      → (commit pedersen satoshis id secret salt now rows).1 ≡ some c
      → generate_commitment pedersen satoshis secret salt ≡ some c.commitment
  commit-commitment id secret salt now rows c e =
      elim (Option-cases (generate_commitment pedersen satoshis secret salt)) [
        | inl f ↦
            let m = ap (λ r. r.1) (commit-none id secret salt now rows f) in let q = sym m ∙ e in cc
        | inr (g, f) ↦
            let m = ap (λ r. r.1) (commit-some id secret salt now rows g f) in
            f
            ∙ ap some (
                sym (
                  commit_found-commitment id g (pedersen g secret) now rows
                    (get_by_commitment g rows) c (sym m ∙ e)))
      ]

  -- What `commit` returns for a secret and a salt is accepted by `verify` with the two exchanged:
  -- `verify` hands them to the hash in the other order.
  pub commit-verify :
      (id secret salt : JsString) (now : ℕ) (rows : List CommitmentRecord) (c : Commitment)
      → (commit pedersen satoshis id secret salt now rows).1 ≡ some c
      → verify pedersen satoshis salt secret c.commitment ≡ some true
  unfolding verify
  commit-verify id secret salt now rows c e =
      rw (commit-commitment id secret salt now rows c e, verify)
        (ap some (===_refl (norm c.commitment)))
