-- ===== src/Contracts/Error.antt =====
-- The service error of crates/contracts/src/error.rs, and the result type built on it.
use latent_db.Prelude.{String, Option, none}
use latent_db.Contracts.Codes.{ErrorCode}
use latent_db.Contracts.Json.{Value}

pub record ApiError : Type 0 where
  pub code : ErrorCode
  pub message : String
  pub details : Option Value
  pub request_id : Option String

abbrev pub new_error : ErrorCode → String → ApiError
new_error code message = record {
  code = code;
  message = message;
  details = none;
  request_id = none;
}

abbrev pub unauthorized : String → ApiError
unauthorized = new_error ErrorCode.unauthorized

abbrev pub forbidden : String → ApiError
forbidden = new_error ErrorCode.forbidden

abbrev pub not_found : String → ApiError
not_found = new_error ErrorCode.not_found

abbrev pub validation : String → ApiError
validation = new_error ErrorCode.validation

abbrev pub conflict : String → ApiError
conflict = new_error ErrorCode.conflict

abbrev pub failed_precondition : String → ApiError
failed_precondition = new_error ErrorCode.failed_precondition

abbrev pub internal : String → ApiError
internal = new_error ErrorCode.internal

-- `Result<T>` of the contracts crate, with the case that the code panics.
pub data Result {ℓ} (A : Type ℓ) : Type ℓ where
  ok : A → Result A
  err : ApiError → Result A
  panic : Result A

infixl 5 ◌>>=◌
abbrev pub ◌>>=◌ {ℓ κ} : {A : Type ℓ} {B : Type κ} → Result A → (A → Result B) → Result B
ok a >>= f = f a
err e >>= f = err e
panic >>= f = panic

infixl 5 ◌>>◌
abbrev pub ◌>>◌ {ℓ} : {B : Type ℓ} → Result (Unit {0}) → Result B → Result B
ok u >> k = k
err e >> k = err e
panic >> k = panic
