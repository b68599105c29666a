-- ===== src/Htlc/Route.antt =====
-- POST /claim, POST /refund and GET /status/:id of backend/src/routes/htlc.ts behind their middleware. An
-- error of backend/src/services/HTLCService.ts or of its lock is known by its message only.
use starknet.Htlc.{
  HtlcStatus, Htlc, Answer, success, not_found, already_claimed, already_refunded, format_mismatch,
  hashlock_mismatch, not_sender, timelock_not_expired, duplicate_id, get_by_id, claim, refund,
}
use starknet.Common.{
  decimal, ℕ, ◌-◌, Bool, not, ◌&&◌, Option, none, some, List, [], ◌++◌, JsString, codes, includes,
  truthy, leb, if◌then◌else◌,
}

-- The messages that the service throws.
abbrev pub message_of : Answer → JsString
message_of success = []
message_of not_found = codes "HTLC not found"
message_of already_claimed = codes "Already claimed"
message_of already_refunded = codes "Already refunded"
message_of format_mismatch = codes "Invalid preimage — format mismatch"
message_of hashlock_mismatch = codes "Invalid preimage — hashlock mismatch"
message_of not_sender = codes "Not sender"
message_of (timelock_not_expired n) =
    codes "Timelock not expired — " ++ (decimal n ++ codes "s remaining")
message_of duplicate_id = codes "UNIQUE constraint failed: htlcs.id"

abbrev pub locked_message : JsString
locked_message = codes "Resource is locked — concurrent operation in progress"

unfoldable pub claim_status : JsString → ℕ
claim_status m =
    if includes m (codes "Resource is locked")
    then 409
    else if includes m (codes "Already")
    then 409
    else if includes m (codes "Invalid preimage")
    then 401
    else if includes m (codes "not found")
    then 404
    else 400

unfoldable pub refund_status : JsString → ℕ
refund_status m =
    if includes m (codes "Resource is locked")
    then 409
    else if includes m (codes "Timelock not expired")
    then 403
    else if includes m (codes "Already")
    then 409
    else if includes m (codes "not found")
    then 404
    else 400

-- Status 200 where nothing was thrown.
abbrev pub answer_of : (JsString → ℕ) → List Htlc × Answer → ℕ × List Htlc
answer_of status (rows, success) = (200, rows)
answer_of status (rows, x) = (status (message_of x), rows)

-- POST /claim; an empty text fails the schema. `locked` says whether the lock is held.
unfoldable pub claim_route :
    (JsString → JsString) → Bool → JsString → JsString → List Htlc → ℕ × List Htlc
unfolding claim_status claim
claim_route poseidon locked id preimage rows =
    if not (truthy id && truthy preimage)
    then (400, rows)
    else if locked
    then (claim_status locked_message, rows)
    else answer_of claim_status (claim poseidon id preimage rows)

-- POST /refund
unfoldable pub refund_route : Bool → JsString → JsString → ℕ → List Htlc → ℕ × List Htlc
unfolding refund_status refund
refund_route locked id sender now rows =
    if not (truthy id && truthy sender)
    then (400, rows)
    else if locked
    then (refund_status locked_message, rows)
    else answer_of refund_status (refund id sender now rows)

-- What is shown of a contract: all but its hashlock, whether its time has come, and the seconds until then.
pub record Shown : Type 0 where
  pub id : JsString
  pub sender : JsString
  pub receiver : JsString
  pub amount : JsString
  pub timelock : ℕ
  pub status : HtlcStatus
  pub created_at : ℕ
  pub timelock_expired : Bool
  pub seconds_until_expiry : ℕ

abbrev pub shown : ℕ → Htlc → Shown
shown now h = record {
  id = h.id;
  sender = h.sender;
  receiver = h.receiver;
  amount = h.amount;
  timelock = h.timelock;
  status = h.status;
  created_at = h.created_at;
  timelock_expired = leb h.timelock now;
  seconds_until_expiry = h.timelock - now;
}

-- GET /status/:id; no row is status 404.
unfoldable pub status_route : JsString → ℕ → List Htlc → Option Shown
status_route id now rows = elim (get_by_id id rows) [ none ↦ none | some h ↦ some (shown now h) ]

-- The status that each answer of the service is meant to get.
abbrev pub http_status : Answer → ℕ
http_status success = 200
http_status not_found = 404
http_status already_claimed = 409
http_status already_refunded = 409
http_status format_mismatch = 401
http_status hashlock_mismatch = 401
http_status not_sender = 400
http_status (timelock_not_expired n) = 403
http_status duplicate_id = 400
