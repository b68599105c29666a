-- ===== src/Auth/Table.antt =====
-- Lookups in the table of authorizations after an update, an insertion, and the invariant of the
-- table (backend/src/services/WithdrawalAuthorizationService.ts, backend/src/db/schema.ts).
use mathlib.Core.Option
use starknet.Common.{
  sym, All-zip, AllPairs, ℕ, Bool, ◌≡◌, ◌≢◌, refl, ap, ◌∙◌, Option, some, [], ◌∷◌, JsString, ◌===◌,
  ===_iff, ===_refl, arith, find?, All, if◌then◌else◌,
}
use starknet.Auth.{Auths, WithdrawalAuthorization, Status, update_where_id, write_status}

-- What an update of the row `id` does to any row.
abbrev pub touch :
    JsString
    → (WithdrawalAuthorization → WithdrawalAuthorization)
    → WithdrawalAuthorization
    → WithdrawalAuthorization
touch id f a = if a.id === id then f a else a

-- A lookup by a test that the update does not change finds the same row, updated.
pub find?-update :
    (p : WithdrawalAuthorization → Bool) (id : JsString)
    (f : WithdrawalAuthorization → WithdrawalAuthorization)
    → ((a : WithdrawalAuthorization) → p (f a) ≡ p a)
    → (t : Auths) → find? p (update_where_id id f t) ≡ Option.map (touch id f) (find? p t)
find?-update p id f keep [] = refl
find?-update p id f keep (a ∷ t) = ground (arith, keep a, find?-update p id f keep t)

-- The table finds the row `a` by its identifier and by its nullifier.
pub record Holds (a : WithdrawalAuthorization) (t : Auths) : Type 0 where
  pub by_id : find? (λ b. b.id === a.id) t ≡ some a
  pub by_nullifier : find? (λ b. b.nullifier_hash === a.nullifier_hash) t ≡ some a

-- The lookup of the updated row, by a test that the update does not change.
find?-update_self :
    (p : WithdrawalAuthorization → Bool) (a : WithdrawalAuthorization)
    (f : WithdrawalAuthorization → WithdrawalAuthorization)
    → ((b : WithdrawalAuthorization) → p (f b) ≡ p b)
    → (t : Auths) → find? p t ≡ some a
    → find? p (update_where_id a.id f t) ≡ some (f a)
find?-update_self p a f keep t h = find?-update p a.id f keep t ∙ ground (arith, ===_refl a.id)

-- The lookup of another row, by a test that the update does not change.
find?-update_ne :
    (p : WithdrawalAuthorization → Bool) (a : WithdrawalAuthorization) (id : JsString)
    (f : WithdrawalAuthorization → WithdrawalAuthorization)
    → ((b : WithdrawalAuthorization) → p (f b) ≡ p b)
    → (t : Auths) → a.id ≢ id
    → find? p t ≡ some a
    → find? p (update_where_id id f t) ≡ some a
find?-update_ne p a id f keep t ne h = find?-update p id f keep t ∙ ground (arith, ===_iff a.id id)

-- An update that leaves the two keys of a row alone.
pub record KeepsKeys (f : WithdrawalAuthorization → WithdrawalAuthorization) : Type 0 where
  pub keep_id : (a : WithdrawalAuthorization) → (f a).id ≡ a.id
  pub keep_nullifier : (a : WithdrawalAuthorization) → (f a).nullifier_hash ≡ a.nullifier_hash

pub write_status-KeepsKeys :
    (s : Status) (txid m : Option JsString) (now : ℕ) → KeepsKeys (write_status s txid m now)
write_status-KeepsKeys s txid m now = record { keep_id = λ a. refl; keep_nullifier = λ a. refl }

-- After the update of its row the table holds the new row.
pub Holds-update_self :
    (a : WithdrawalAuthorization) (f : WithdrawalAuthorization → WithdrawalAuthorization)
    (t : Auths)
    → KeepsKeys f
    → Holds a t
    → Holds (f a) (update_where_id a.id f t)
Holds-update_self a f t k h = record {
  by_id = simp (k.keep_id a) (
      find?-update_self (λ b. b.id === a.id) a f (λ b. ap (λ i. i === a.id) (k.keep_id b)) t
        h.by_id);
  by_nullifier = simp (k.keep_nullifier a) (
      find?-update_self (λ b. b.nullifier_hash === a.nullifier_hash) a f
        (λ b. ap (λ i. i === a.nullifier_hash) (k.keep_nullifier b)) t h.by_nullifier);
}

-- The update of another row leaves it.
pub Holds-update_ne :
    (a : WithdrawalAuthorization) (id : JsString)
    (f : WithdrawalAuthorization → WithdrawalAuthorization) (t : Auths)
    → KeepsKeys f
    → a.id ≢ id
    → Holds a t
    → Holds a (update_where_id id f t)
Holds-update_ne a id f t k ne h = record {
  by_id =
      find?-update_ne (λ b. b.id === a.id) a id f (λ b. ap (λ i. i === a.id) (k.keep_id b)) t ne
        h.by_id;
  by_nullifier =
      find?-update_ne (λ b. b.nullifier_hash === a.nullifier_hash) a id f
        (λ b. ap (λ i. i === a.nullifier_hash) (k.keep_nullifier b)) t ne h.by_nullifier;
}

-- Two rows that share no key.
abbrev pub Apart : WithdrawalAuthorization → WithdrawalAuthorization → Type 0
Apart a b =
    (a.id ≢ b.id)
    × (a.nullifier_hash ≢ b.nullifier_hash)
    × (a.starknet_tx_hash ≢ b.starknet_tx_hash)

pub Apart-symm : (a b : WithdrawalAuthorization) → Apart a b → Apart b a
Apart-symm a b h = (λ e. h.0 (sym e), λ e. h.1 (sym e), λ e. h.2 (sym e))

-- The primary key and the two UNIQUE columns of the table.
abbrev pub Unique : Auths → Type 0
Unique t = AllPairs Apart t

Holds-cons :
    (x : WithdrawalAuthorization) (t : Auths) (a : WithdrawalAuthorization)
    → Apart x a
    → Holds a t
    → Holds a (x ∷ t)
Holds-cons x t a ap h = record {
  by_id = ground (arith, ===_iff x.id a.id, ap.0, h.by_id);
  by_nullifier = ground (arith, ===_iff x.nullifier_hash a.nullifier_hash, ap.1, h.by_nullifier);
}

-- Where no key is shared, the table finds each of its rows.
pub Unique-Holds : (t : Auths) → Unique t → All (λ a. Holds a t) t
Unique-Holds [] u = tt
Unique-Holds (x ∷ t) u = (
  record {
    by_id = ground (arith, ===_refl x.id);
    by_nullifier = ground (arith, ===_refl x.nullifier_hash);
  },
  All-zip (Apart x) (λ a. Holds a t) (λ a. Holds a (x ∷ t)) (Holds-cons x t) t u.0
      (Unique-Holds t u.1),
)
