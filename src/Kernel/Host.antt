-- ===== src/Kernel/Host.antt =====
-- What the kernel is given: its flags, and the answers of the code that it only calls (uuid, time,
-- serde_json, f64, Unicode case, argon2, sha2, the random source, the environment, and the outcome of
-- each SQLite statement).
use latent_db.Prelude.{ℕ, String, Bool, Option, ◌⊎◌}
use latent_db.Contracts.Json.{Value}
use latent_db.Contracts.Record.{I64}
use latent_db.Contracts.Builder.{BuilderDefinition}
use latent_db.Contracts.Auth.{FeatureFlags}
use latent_db.Contracts.Error.{ApiError, conflict, validation, internal}
use Prim.Native.Nat.{Ordering}

-- How SQLite refuses a statement.
pub data DbError : Type 0 where
  unique_constraint foreign_key_constraint other_db_error : DbError

-- `map_db_err` of crates/kernel/src/store.rs
abbrev pub map_db_err : DbError → ApiError
map_db_err unique_constraint = conflict "a record with these values already exists"
map_db_err foreign_key_constraint = validation "referenced entity does not exist"
map_db_err other_db_error = internal "internal storage error"

-- Ids, times and statement outcomes are numbered by the calls made so far.
pub record Host : Type 0 where
  pub new_id : ℕ → String
  pub now_rfc3339 : ℕ → String
  pub db_outcome : ℕ → Option DbError
  pub is_rfc3339 : String → Bool
  pub to_lowercase : String → String
  pub number_of : ℕ → ℕ
  pub is_i64 : ℕ → Bool
  pub is_u64 : ℕ → Bool
  pub number_eq : ℕ → ℕ → Bool
  pub as_f64 : ℕ → Option ℕ
  pub partial_cmp : ℕ → ℕ → Option Ordering
  -- the monotonic clock in milliseconds, the UTC clock in nanoseconds, and its calendar
  pub instant : ℕ → ℕ
  pub now : ℕ → ℕ
  pub to_rfc3339 : ℕ → String
  pub parse_rfc3339 : String → Option ℕ
  pub year_of : ℕ → ℕ
  pub month_of : ℕ → ℕ
  -- 32 random bytes in hexadecimal, and SHA-256 in hexadecimal
  pub random_hex : ℕ → String
  pub sha256_hex : String → String
  -- a drawn salt, Argon2 with it, and its check against a stored hash: an error's text, or the answer
  pub salt : ℕ → String ⊎ String
  pub argon2_hash : String → String → String ⊎ String
  pub argon2_verify : String → String → String ⊎ Bool
  -- `LATENTDB_SESSION_TTL_DAYS`, where it is set to an `i64`
  pub session_ttl_var : Option I64
  -- the JSON that `serde` derives for the preview of a builder definition
  pub preview_json : BuilderDefinition → Value

-- The struct `Kernel`, without the pool and the login limiter, which are in the state.
pub record Kernel : Type 0 where
  pub flags : FeatureFlags
  pub host : Host
  pub open host use *
