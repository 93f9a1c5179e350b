-- ===== src/Kernel/Crypto.antt =====
-- crates/kernel/src/crypto.rs: the password policy, and the calls of argon2, sha2 and the random source
use latent_db.Prelude.{
  String, Bool, true, false, [], ◌∷◌, inl, inr, ◌⊎◌, format, char_count, is_blank, not, leb,
}
use latent_db.Contracts.Error.{Result, ok, err, validation, internal, ◌>>◌}
use latent_db.Kernel.Host.{Kernel}
use latent_db.Kernel.Exec.{Exec, ◌>>=◌, pure, raise, random_secret, drawn_salt}

abbrev check : Bool → String → Result (Unit {0})
check true message = ok tt
check false message = err (validation message)

unfoldable pub validate_password_strength : String → Result (Unit {0})
validate_password_strength password = do
  check (leb 8 (char_count password)) "password must be at least 8 characters"
  check (leb (char_count password) 128) "password must be at most 128 characters"
  check (not (is_blank password)) "password cannot be blank"

-- `map_err(|e| ApiError::internal(format!("…: {e}")))`
abbrev pub or_internal {ℓ} : {A : Type ℓ} → String → String ⊎ A → Exec A
or_internal context (inl e) = raise (internal (format (context ∷ ": " ∷ e ∷ [])))
or_internal context (inr a) = pure a

unfoldable pub hash_password : Kernel → String → Exec String
hash_password k password = do
  drawn ← drawn_salt k
  salt ← or_internal "salt error" drawn
  or_internal "hash error" (k.argon2_hash salt password)

unfoldable pub verify_password : Kernel → String → String → Exec Bool
verify_password k password stored_hash =
    or_internal "stored hash invalid" (k.argon2_verify password stored_hash)

-- The token, and the hash of it that is stored.
unfoldable pub new_token : Kernel → String → Exec (String × String)
new_token k prefix = do
  secret ← random_secret k
  pure (format (prefix ∷ secret ∷ []), k.sha256_hex (format (prefix ∷ secret ∷ [])))
