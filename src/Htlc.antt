-- ===== src/Htlc.antt =====
-- backend/src/services/HTLCService.ts: hash time locked contracts kept in the table `htlcs` of
-- backend/src/db/schema.ts. Times are in seconds. The Poseidon hash is a parameter. The functions
-- under a lock do not wait, so that each runs as one step.
pub mod Rows
pub mod Rules
pub mod Once
pub mod Route
pub mod Statuses
mod Tests
use starknet.Common.{
  ℕ, ◌+◌, ◌-◌, ◌≡◌, Bool, true, false, not, ◌&&◌, ◌||◌, Option, none, some, List, [], ◌∷◌, ◌++◌,
  map, JsString, codes, starts_with, drop, to_lower_case, ◌===◌, ◌==◌, ltb, leb, any, find?, filter,
  if◌then◌else◌, is_some, sort_by,
}

pub data HtlcStatus : Type 0 where
  pending claimed refunded : HtlcStatus

pub record Htlc : Type 0 where
  pub id : JsString
  pub sender : JsString
  pub receiver : JsString
  pub amount : JsString
  pub hashlock : JsString
  pub timelock : ℕ
  pub status : HtlcStatus
  pub created_at : ℕ

pub data Answer : Type 0 where
  success : Answer
  not_found : Answer
  already_claimed : Answer
  already_refunded : Answer
  format_mismatch : Answer
  hashlock_mismatch : Answer
  not_sender : Answer
  timelock_not_expired : ℕ → Answer
  duplicate_id : Answer

abbrev pub has_id : JsString → Htlc → Bool
has_id id h = h.id === id

-- `getById`
unfoldable pub get_by_id : JsString → List Htlc → Option Htlc
get_by_id id rows = find? (has_id id) rows

abbrev pub newest_first : Htlc → Htlc → Bool
newest_first a b = leb b.created_at a.created_at

-- `listByAddress`
unfoldable pub list_by_address : JsString → List Htlc → List Htlc
list_by_address address rows =
    sort_by newest_first (filter (λ h. h.sender === address || h.receiver === address) rows)

abbrev pub with_status : HtlcStatus → JsString → Htlc → Htlc
with_status status id h = if has_id id h then record h { status = status } else h

-- `UPDATE htlcs SET status = ? WHERE id = ?`
unfoldable pub update_status : HtlcStatus → JsString → List Htlc → List Htlc
update_status status id rows = map (with_status status id) rows

-- The row that `create` inserts.
abbrev pub new_htlc : JsString → JsString → JsString → JsString → JsString → ℕ → ℕ → Htlc
new_htlc id hashlock sender receiver amount timelock now = record {
  id = id;
  sender = sender;
  receiver = receiver;
  amount = amount;
  hashlock = hashlock;
  timelock = timelock;
  status = pending;
  created_at = now;
}

-- `create`, for the random id and preimage drawn; the id is the table's key.
unfoldable pub create :
    (JsString → JsString)
    → JsString
    → JsString
    → JsString
    → JsString
    → JsString
    → ℕ
    → ℕ
    → List Htlc
    → List Htlc × Answer
unfolding get_by_id
create poseidon id preimage sender receiver amount timelock now rows =
    if is_some (get_by_id id rows)
    then (rows, duplicate_id)
    else (rows ++ new_htlc id (poseidon preimage) sender receiver amount timelock now ∷ [], success)

abbrev pub is_digit : ℕ → Bool
is_digit c = leb 48 c && leb c 57

abbrev pub is_hex_digit : ℕ → Bool
is_hex_digit c = is_digit c || (leb 65 c && leb c 70) || (leb 97 c && leb c 102)

-- `/^p+$/`
abbrev pub one_or_more : (ℕ → Bool) → JsString → Bool
one_or_more p [] = false
one_or_more p (c ∷ s) = p c && not (any (λ d. not (p d)) s)

-- `/^[0-9]+$/` or `/^0x[0-9a-fA-F]+$/`
unfoldable pub is_preimage : JsString → Bool
is_preimage s =
    one_or_more is_digit s || (starts_with s (codes "0x") && one_or_more is_hex_digit (drop 2 s))

-- What `claim` does with the row that it finds.
unfoldable pub check_claim : (JsString → JsString) → JsString → Htlc → Answer
unfolding is_preimage
check_claim poseidon preimage h = elim h.status [
  | claimed ↦ already_claimed
  | refunded ↦ already_refunded
  | pending ↦
      if not (is_preimage preimage)
      then format_mismatch
      else if to_lower_case (poseidon preimage) === to_lower_case h.hashlock
      then success
      else hashlock_mismatch
]

-- What `refund` does with the row that it finds.
unfoldable pub check_refund : JsString → ℕ → Htlc → Answer
check_refund sender now h =
    if not (to_lower_case h.sender === to_lower_case sender) then not_sender else elim h.status [
      | claimed ↦ already_claimed
      | refunded ↦ already_refunded
      | pending ↦ if ltb now h.timelock then timelock_not_expired (h.timelock - now) else success
    ]

abbrev pub is_success : Answer → Bool
is_success success = true
is_success not_found = false
is_success already_claimed = false
is_success already_refunded = false
is_success format_mismatch = false
is_success hashlock_mismatch = false
is_success not_sender = false
is_success (timelock_not_expired n) = false
is_success duplicate_id = false

-- Both end by the `UPDATE` where no check has thrown.
abbrev pub settle : (Htlc → Answer) → HtlcStatus → JsString → List Htlc → List Htlc × Answer
settle check status id rows = elim (get_by_id id rows) [
  | none ↦ (rows, not_found)
  | some h ↦ (if is_success (check h) then update_status status id rows else rows, check h)
]

-- `claim`, under its lock
unfoldable pub claim : (JsString → JsString) → JsString → JsString → List Htlc → List Htlc × Answer
unfolding check_claim get_by_id update_status
claim poseidon id preimage rows = settle (check_claim poseidon preimage) claimed id rows

-- `refund`, under its lock
unfoldable pub refund : JsString → JsString → ℕ → List Htlc → List Htlc × Answer
unfolding check_refund get_by_id update_status
refund id sender now rows = settle (check_refund sender now) refunded id rows
