-- ===== src/Examples/Checks.antt =====
-- Concrete runs: pages, the login limiter and the validations.
use latent_db.Prelude.{
  true, false, [], ◌∷◌, ◌≡◌, ◌⊎◌, ◌<◌, refl, ◌&&◌, leb, not, ◌-◌, ◌≤◌, ◌+◌, take, drop, arith, Memᴰ,
  is_some, is_blank, suc,
}
use latent_db.Contracts.Json.{is_null}
use latent_db.Contracts.Error.{ok}
use latent_db.Contracts.Field.{FieldType}
use latent_db.Contracts.Error.{panic}
use latent_db.Contracts.Workflow.{state}
use latent_db.Kernel.Records.Listing.{window, i64_max}
use latent_db.Kernel.Reads.Windows.{window_lem}
use latent_db.Kernel.RateLimit
use latent_db.Kernel.RateLimit.{prune, Limiter, lookup, max_failures, is_locked, reset}
use latent_db.Kernel.RateLimit.Pruning.{prune-is_locked}
use latent_db.Kernel.RateLimit.Lockout.{fail_at, fail_at-is_locked, fail_at-other}
use latent_db.Kernel.Validate.{
  check_type, validate_value, validate_fields, validate_against_type, validate_field_def,
  validate_field_defs, validate_object_type, validate_transitions, validate_workflow,
}
use latent_db.Kernel.Accepted.Fits.{Fits}
use latent_db.Kernel.Accepted.Values.{value_of, validate_against_type-fields}
use latent_db.Kernel.Accepted.{AreNew, validate_object_type-AreNew, validate_workflow-states}
use latent_db.Examples.{host, note_type, submit, flow, fields, four, two_keys, title}

window_lem_example :
    ((1 + 2 ≤ i64_max) × (window 1 2 four ≡ ok (take 2 (drop 1 four))))
    ⊎ ((i64_max < 1 + 2) × (window 1 2 four ≡ panic))
window_lem_example = window_lem 1 2 four

fail_at-is_locked_example :
    (is_locked "ann" 70 (fail_at "ann" (5 ∷ 10 ∷ 20 ∷ []) [])).0
    ≡ (leb max_failures (suc 2) && not (leb RateLimit.window (70 - 5)))
unfolding lookup
fail_at-is_locked_example =
    fail_at-is_locked "ann" 5 70 (10 ∷ 20 ∷ []) [] refl (omega arith, (omega arith, tt))
      (omega arith)

fail_at-other_example :
    (is_locked "bob" 70 (fail_at "ann" (5 ∷ 10 ∷ []) [])).0 ≡ (is_locked "bob" 70 []).0
fail_at-other_example = fail_at-other "ann" "bob" 70 (5 ∷ 10 ∷ []) [] refl

validate_against_type-fields_example :
    ((is_null (value_of fields title) ≡ true) × (title.required ≡ false))
    ⊎ ((is_null (value_of fields title) ≡ false)
        × Fits host title FieldType.text (value_of fields title))
unfolding validate_against_type validate_fields validate_value check_type
validate_against_type-fields_example =
    validate_against_type-fields host note_type fields title refl (Memᴰ.head refl)

validate_object_type-AreNew_example : (is_blank "note" ≡ false) × AreNew [] note_type.fields
unfolding validate_object_type validate_field_defs validate_field_def is_blank
validate_object_type-AreNew_example = validate_object_type-AreNew note_type refl

validate_workflow-states_example :
    (is_some (state flow "draft") ≡ true)
    × (is_some (state flow "draft") ≡ true)
    × (is_some (state flow "sent") ≡ true)
unfolding validate_workflow validate_transitions is_blank state
validate_workflow-states_example = validate_workflow-states flow submit refl (Memᴰ.head refl)

prune-is_locked_example :
    (is_locked "ann" 70 (prune 70 two_keys)).0 ≡ (is_locked "ann" 70 two_keys).0
prune-is_locked_example = prune-is_locked "ann" 70 two_keys (refl, (refl, tt))
