-- ===== src/Commitment.antt =====
-- backend/src/services/CommitmentService.ts and the hashes it takes from
-- backend/src/services/CryptoService.ts: commitments, and nullifiers that are used once, in the table
-- `sc_commitments` of backend/src/db/schema.ts. The Pedersen hash and the conversion of an amount to
-- satoshis (`none` where it is no number) are parameters.
pub mod Lookup
pub mod Verify
pub mod Nullifier
mod Tests
use starknet.Common.{
  remove_prefix_mark, ℕ, ◌≡◌, Bool, true, false, not, ◌&&◌, ◌||◌, Option, none, some, List, [], ◌∷◌,
  ◌++◌, map, JsString, codes, starts_with, drop, to_lower_case, pad_start, ◌===◌, any, find?,
  if◌then◌else◌, sort_by, leb, is_some,
}

pub record CommitmentRecord : Type 0 where
  pub id : JsString
  pub commitment : JsString
  pub nullifier_hash : JsString
  pub used : Bool
  pub created_at : ℕ

pub data MarkAnswer : Type 0 where
  marked not_found already_used : MarkAnswer

-- What `commit` returns.
pub record Commitment : Type 0 where
  pub id : JsString
  pub commitment : JsString
  pub nullifier_hash : JsString

abbrev pub has_commitment : JsString → CommitmentRecord → Bool
has_commitment commitment r = r.commitment === commitment

abbrev pub has_nullifier : JsString → CommitmentRecord → Bool
has_nullifier nullifier r = r.nullifier_hash === nullifier

-- `getByNullifier`
unfoldable pub get_by_nullifier : JsString → List CommitmentRecord → Option CommitmentRecord
get_by_nullifier nullifier rows = find? (has_nullifier nullifier) rows

abbrev pub get_by_commitment : JsString → List CommitmentRecord → Option CommitmentRecord
get_by_commitment commitment rows = find? (has_commitment commitment) rows

abbrev pub used_or : Option CommitmentRecord → Bool
used_or none = false
used_or (some r) = r.used

unfoldable pub is_nullifier_used : JsString → List CommitmentRecord → Bool
is_nullifier_used nullifier rows = used_or (get_by_nullifier nullifier rows)

abbrev pub newest_first : CommitmentRecord → CommitmentRecord → Bool
newest_first a b = leb b.created_at a.created_at

unfoldable pub list_all : List CommitmentRecord → List CommitmentRecord
list_all rows = sort_by newest_first rows

abbrev pub set_used : JsString → CommitmentRecord → CommitmentRecord
set_used nullifier r = if has_nullifier nullifier r then record r { used = true } else r

-- `markNullifierUsed`, under its lock
unfoldable pub mark_nullifier_used :
    JsString → List CommitmentRecord → List CommitmentRecord × MarkAnswer
unfolding get_by_nullifier
mark_nullifier_used nullifier rows = elim (get_by_nullifier nullifier rows) [
  | none ↦ (rows, not_found)
  | some r ↦ if r.used then (rows, already_used) else (map (set_used nullifier) rows, marked)
]

abbrev pub norm : JsString → JsString
norm s = pad_start 64 48 (remove_prefix_mark (to_lower_case s))

module _ (pedersen : JsString → JsString → JsString) (satoshis : JsString → Option JsString) where
  abbrev pub hash_amount : JsString → Option JsString → Option JsString
  hash_amount secret none = none
  hash_amount secret (some amount_sats) = some (pedersen amount_sats secret)

  -- `CryptoService.generateCommitment`
  unfoldable pub generate_commitment : JsString → JsString → Option JsString
  generate_commitment amount secret = hash_amount secret (satoshis amount)

  -- The `INSERT`, which the table's keys may refuse, of a commitment that was not found.
  unfoldable pub insert_commitment :
      JsString
      → JsString
      → JsString
      → ℕ
      → List CommitmentRecord
      → List CommitmentRecord × Option Commitment
  insert_commitment id commitment nullifier now rows =
      if any (λ r. r.id === id || r.nullifier_hash === nullifier) rows then (rows, none) else (
        rows
            ++ record {
              id = id;
              commitment = commitment;
              nullifier_hash = nullifier;
              used = false;
              created_at = now;
            }
              ∷ [],
        some (record { id = id; commitment = commitment; nullifier_hash = nullifier }),
      )

  abbrev pub commit_found :
      JsString
      → JsString
      → JsString
      → ℕ
      → List CommitmentRecord
      → Option CommitmentRecord
      → List CommitmentRecord × Option Commitment
  commit_found id commitment nullifier now rows (some r) =
      (rows, some (record { id = r.id; commitment = commitment; nullifier_hash = nullifier }))
  commit_found id commitment nullifier now rows none =
      insert_commitment id commitment nullifier now rows

  abbrev pub commit_to :
      JsString
      → JsString
      → ℕ
      → List CommitmentRecord
      → Option JsString
      → List CommitmentRecord × Option Commitment
  commit_to id secret now rows none = (rows, none)
  commit_to id secret now rows (some commitment) =
      commit_found id commitment (pedersen commitment secret) now rows
        (get_by_commitment commitment rows)

  -- `commit`, for the random id drawn; `none` where it throws.
  unfoldable pub commit :
      JsString
      → JsString
      → JsString
      → ℕ
      → List CommitmentRecord
      → List CommitmentRecord × Option Commitment
  unfolding generate_commitment insert_commitment
  commit id secret salt now rows = commit_to id secret now rows (generate_commitment secret salt)

  abbrev pub matches : JsString → Option JsString → Option Bool
  matches expected none = none
  matches expected (some computed) = some (norm computed === norm expected)

  -- `verify`; `none` where it throws.
  unfoldable pub verify : JsString → JsString → JsString → Option Bool
  unfolding generate_commitment
  verify secret salt expected = matches expected (generate_commitment salt secret)
