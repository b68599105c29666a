-- ===== src/Auth/Queries.antt =====
-- The listing queries of backend/src/services/WithdrawalAuthorizationService.ts.
use starknet.Common.{ℕ, ◌-◌, ◌*◌, Bool, ◌&&◌, JsString, ◌===◌, ltb, leb, filter, count_if, sort_by}
use starknet.Auth.{
  Auths, WithdrawalAuthorization, pending, processing, completed, failed, is_status,
}

abbrev oldest_first : WithdrawalAuthorization → WithdrawalAuthorization → Bool
oldest_first a b = leb a.created_at b.created_at

abbrev newest_first : WithdrawalAuthorization → WithdrawalAuthorization → Bool
newest_first a b = leb b.created_at a.created_at

abbrev pub is_pending : WithdrawalAuthorization → Bool
is_pending a = is_status a.status pending

unfoldable pub get_pending_authorizations : Auths → Auths
get_pending_authorizations t = sort_by oldest_first (filter is_pending t)

unfoldable pub get_authorizations_by_vault_id : JsString → Auths → Auths
get_authorizations_by_vault_id v t = sort_by newest_first (filter (λ a. a.vault_id === v) t)

-- Pending rows created before `now - hours * 3600`; on the clock of the source that is no negative
-- number.
unfoldable pub get_expired_authorizations : ℕ → ℕ → Auths → Auths
get_expired_authorizations now hours t =
    sort_by oldest_first (filter (λ a. is_pending a && ltb a.created_at (now - hours * 3600)) t)

pub record Stats : Type 0 where
  pub pending_count : ℕ
  pub processing_count : ℕ
  pub completed_count : ℕ
  pub failed_count : ℕ

unfoldable pub get_stats : Auths → Stats
get_stats t = record {
  pending_count = count_if (λ a. is_status a.status pending) t;
  processing_count = count_if (λ a. is_status a.status processing) t;
  completed_count = count_if (λ a. is_status a.status completed) t;
  failed_count = count_if (λ a. is_status a.status failed) t;
}
