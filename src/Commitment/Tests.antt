-- ===== src/Commitment/Tests.antt =====
-- Concrete commitments (backend/src/services/CommitmentService.ts), with lists put together for a hash.
use starknet.Common.{◌≡◌, ◌≤◌, refl, some, List, [], ◌∷◌, ◌++◌, JsString, codes, if◌then◌else◌}
use starknet.Commitment.{
  Commitment, commit, generate_commitment, insert_commitment, is_nullifier_used,
}
use starknet.Commitment.Nullifier.{Operation, commits, marks, uses, uses_once}

abbrev join : JsString → JsString → JsString
join a b = a ++ b

abbrev operations : List Operation
operations =
    commits (codes "i") (codes "1") (codes "s") 9 ∷ marks (codes "1s1") ∷ marks (codes "1s1") ∷ []

uses_once_example :
    uses join some (codes "1s1") operations []
    ≤ (if is_nullifier_used (codes "1s1") [] then 0 else 1)
uses_once_example = uses_once join some (codes "1s1") operations []

abbrev record_of : Commitment
record_of = record { id = codes "i"; commitment = codes "1s"; nullifier_hash = codes "1s1" }

committed : (commit join some (codes "i") (codes "1") (codes "s") 9 []).1 ≡ some record_of
unfolding commit generate_commitment insert_commitment
committed = refl
