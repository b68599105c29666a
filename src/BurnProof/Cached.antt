-- ===== src/BurnProof/Cached.antt =====
-- The cache of getProofForAuthorization (backend/src/services/StarknetProofService.ts).
use starknet.BurnProof.{StarknetBurnProof, serialize_proof_data}
use starknet.BurnProof.Numerals.{big_int-decimal}
use starknet.BurnProof.Generate.{
  Environment, ProofResult, proved, thrown, stringify, serialize_parsed_proof, CachedProof,
  insert_or_replace, Access, GivenProof, made, parsed, keep_proof, read_cache, generate_burn_proof,
  get_proof_for_authorization,
}
use starknet.Auth.{Auths, WithdrawalAuthorization, get_authorization_by_id}
use starknet.Receipt.{ReceiptResult}
use starknet.Common.{
  subst, ℕ, ◌≡◌, refl, sym, ap, ◌∙◌, Bool, true, false, not, none, some, List, [], ◌∷◌, JsString,
  ◌===◌, ===_refl, ===_iff, All, find?, filter, find?-append, find?-append_some, arith,
  Option-cases, Bool-cases, inl, inr,
}

-- A call of getProofForAuthorization, with all that surrounds it
pub record Ask : Type 0 where
  pub env : Environment
  pub receipts : JsString → ReceiptResult
  pub access : Access
  pub id : JsString
  pub now : ℕ
  pub auths : Auths

abbrev pub ask : Ask → List CachedProof → GivenProof × List CachedProof
ask x cache = get_proof_for_authorization x.env x.receipts x.access x.id x.now x.auths cache

-- What the calls leave of the cache, one after the other
abbrev pub ask_all : List Ask → List CachedProof → List CachedProof
ask_all [] cache = cache
ask_all (x ∷ xs) cache = ask_all xs (ask x cache).1

abbrev has_authorization : JsString → CachedProof → Bool
has_authorization id c = c.authorization_id === id

found_none_left {ℓ} :
    {A : Type ℓ} (p : A → Bool) (xs : List A) → find? p (filter (λ x. not (p x)) xs) ≡ none
found_none_left p [] = refl
found_none_left p (x ∷ xs) = ground (arith, found_none_left p xs)

find?-filter {ℓ} :
    {A : Type ℓ} (p q : A → Bool)
    → ((x : A) → p x ≡ true → q x ≡ true)
    → (xs : List A) → find? p (filter q xs) ≡ find? p xs
find?-filter p q k [] = refl
find?-filter p q k (x ∷ xs) = ground (arith, k x, find?-filter p q k xs)

-- The row that was written last is found.
found_after :
    (c : CachedProof) (cache : List CachedProof)
    → find? (has_authorization c.authorization_id) (insert_or_replace c cache) ≡ some c
found_after c cache =
    find?-append (has_authorization c.authorization_id)
      (filter (λ d. not (has_authorization c.authorization_id d)) cache) (c ∷ [])
      (found_none_left (has_authorization c.authorization_id) cache)
    ∙ rw (===_refl c.authorization_id) refl

-- A row of another authorization stays.
found_still :
    (id : JsString) (c d : CachedProof) (cache : List CachedProof)
    → (d.authorization_id === id) ≡ false
    → find? (has_authorization id) cache ≡ some c
    → find? (has_authorization id) (insert_or_replace d cache) ≡ some c
found_still id c d cache other f =
    find?-append_some (has_authorization id)
      (filter (λ x. not (has_authorization d.authorization_id x)) cache) (d ∷ []) c
      (find?-filter (has_authorization id) (λ x. not (has_authorization d.authorization_id x))
          (λ x e. ground (
            arith,
            other,
            ===_iff x.authorization_id id,
            ===_iff x.authorization_id d.authorization_id,
            ===_iff d.authorization_id id,
          ))
          cache
        ∙ f)

-- A new proof that could be written is in the cache afterwards.
made_lem :
    (x : Ask) (cache : List CachedProof) (p : StarknetBurnProof)
    → x.access.written ≡ true
    → (ask x cache).0 ≡ made p
    → (c : CachedProof) × (c.proof_data ≡ stringify p)
      × (find? (has_authorization x.id) (ask x cache).1 ≡ some c)
unfolding get_proof_for_authorization
made_lem x cache p w h = elim (Option-cases (get_authorization_by_id x.id x.auths)) [
  | inl f ↦ absurd (ground arith)
  | inr (a, f) ↦ elim (Option-cases (read_cache x.access.readable x.id cache)) [
    | inr (c, g) ↦ absurd (ground arith)
    | inl g ↦
        let given =
          generate_burn_proof x.env (x.receipts a.starknet_tx_hash) a.starknet_tx_hash
            a.bitcoin_address x.now x.auths in
        let q : ask x cache ≡ keep_proof x.access.written x.id x.now cache given =
          ground (arith, f, g) in
        let k = kept given (sym (ap (λ y. y.0) q) ∙ h) in
        (k.0, k.1, ap (λ y. find? (has_authorization x.id) y.1) q ∙ k.2)
  ]
]
  where
    kept :
        (given : ProofResult)
        → (keep_proof x.access.written x.id x.now cache given).0 ≡ made p
        → (c : CachedProof) × (c.proof_data ≡ stringify p)
          × (find? (has_authorization x.id) (keep_proof x.access.written x.id x.now cache given).1
              ≡ some c)
    kept (proved q) e =
        let c : CachedProof = record {
          authorization_id = x.id;
          proof_data = stringify q;
          created_at = x.now;
        } in
        (c, ground arith, rw w (found_after c cache))
    kept (thrown y) e = absurd (ground arith)

-- What is in the cache stays there over a call that can read it.
ask_keeps :
    (id : JsString) (c : CachedProof) (x : Ask) (cache : List CachedProof)
    → x.access.readable ≡ true
    → find? (has_authorization id) cache ≡ some c
    → find? (has_authorization id) (ask x cache).1 ≡ some c
unfolding get_proof_for_authorization
ask_keeps id c x cache r f = elim (Option-cases (get_authorization_by_id x.id x.auths)) [
  | inl g ↦ rw (g, get_proof_for_authorization) f
  | inr (a, g) ↦ elim (Option-cases (find? (has_authorization x.id) cache)) [
    | inr (d, k) ↦ rw (g, r, k, get_proof_for_authorization) f
    | inl k ↦
        rw (g, r, k, get_proof_for_authorization)
          (kept k (
            generate_burn_proof x.env (x.receipts a.starknet_tx_hash) a.starknet_tx_hash
              a.bitcoin_address x.now x.auths))
  ]
]
  where
    other : find? (has_authorization x.id) cache ≡ none → (x.id === id) ≡ false
    other k = elim (Bool-cases (x.id === id)) [
      | inl e ↦
          let same = (===_iff x.id id).0 e in
          absurd (ground (arith, f, subst (λ i. find? (has_authorization i) cache ≡ none) same k))
      | inr e ↦ e
    ]

    kept :
        find? (has_authorization x.id) cache ≡ none
        → (given : ProofResult)
        → find? (has_authorization id) (keep_proof x.access.written x.id x.now cache given).1
          ≡ some c
    kept k (thrown y) = f
    kept k (proved p) = elim (Bool-cases x.access.written) [
      | inr w ↦ rw w f
      | inl w ↦ rw w (
          found_still id c
            (record { authorization_id = x.id; proof_data = stringify p; created_at = x.now }) cache
            (other k) f)
    ]

ask_all_keeps :
    (id : JsString) (c : CachedProof) (xs : List Ask) (cache : List CachedProof)
    → All (λ x. x.access.readable ≡ true) xs
    → find? (has_authorization id) cache ≡ some c
    → find? (has_authorization id) (ask_all xs cache) ≡ some c
ask_all_keeps id c [] cache r f = f
ask_all_keeps id c (x ∷ xs) cache r f =
    ask_all_keeps id c xs (ask x cache).1 r.1 (ask_keeps id c x cache r.0 f)

from_cache :
    (x : Ask) (cache : List CachedProof) (a : WithdrawalAuthorization) (c : CachedProof)
    → x.access.readable ≡ true
    → get_authorization_by_id x.id x.auths ≡ some a
    → find? (has_authorization x.id) cache ≡ some c
    → ask x cache ≡ (parsed c.proof_data, cache)
unfolding get_proof_for_authorization
from_cache x cache a c r f g = ground (arith, r, f, g)

-- A proof from the cache has the bytes of the one that was made.
serialize_parsed_proof-stringify :
    (p : StarknetBurnProof) → serialize_parsed_proof (stringify p) ≡ serialize_proof_data p
unfolding serialize_parsed_proof
serialize_parsed_proof-stringify p =
    rw (big_int-decimal p.amount, big_int-decimal p.block_number) refl

-- After a call of getProofForAuthorization that made a proof and could write it to the cache, and any later
-- calls, for whatever authorizations, that could read the cache, a call for the same identifier that can
-- read it and finds an authorization gives the proof with its two numbers as texts, which serialises to the
-- same bytes, and leaves the cache as it is, whatever the receipt says by then, and also if the authorization
-- is completed by then.
pub get_proof_for_authorization_again :
    (first : Ask) (between : List Ask) (last : Ask) (cache : List CachedProof)
    (p : StarknetBurnProof) (a : WithdrawalAuthorization)
    → (ask first cache).0 ≡ made p
    → first.access.written ≡ true
    → All (λ x. x.access.readable ≡ true) between
    → last.access.readable ≡ true
    → last.id ≡ first.id
    → get_authorization_by_id last.id last.auths ≡ some a
    → let cache' = ask_all between (ask first cache).1 in
      (ask last cache' ≡ (parsed (stringify p), cache'))
      × (serialize_parsed_proof (stringify p) ≡ serialize_proof_data p)
get_proof_for_authorization_again first between last cache p a h w r r' same f =
    let cache' = ask_all between (ask first cache).1 in
    let (c, q, g) = made_lem first cache p w h in
    let kept = ask_all_keeps first.id c between (ask first cache).1 r g in
    let found = subst (λ i. find? (has_authorization i) cache' ≡ some c) (sym same) kept in
    (
      from_cache last cache' a c r' f found ∙ ap (λ x. (parsed x, cache')) q,
      serialize_parsed_proof-stringify p,
    )
