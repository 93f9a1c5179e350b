-- ===== src/Contracts/Codes.antt =====
-- The error codes of crates/contracts/src/error.rs and their HTTP statuses.
use latent_db.Prelude.{ℕ}

pub data ErrorCode : Type 0 where
  unauthorized forbidden not_found validation conflict failed_precondition : ErrorCode
  rate_limited feature_disabled not_implemented internal : ErrorCode

unfoldable pub http_status : ErrorCode → ℕ
http_status ErrorCode.unauthorized = 401
http_status ErrorCode.forbidden = 403
http_status ErrorCode.not_found = 404
http_status ErrorCode.validation = 422
http_status ErrorCode.conflict = 409
http_status ErrorCode.failed_precondition = 412
http_status ErrorCode.rate_limited = 429
http_status ErrorCode.feature_disabled = 403
http_status ErrorCode.not_implemented = 501
http_status ErrorCode.internal = 500
