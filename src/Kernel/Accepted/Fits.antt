-- ===== src/Kernel/Accepted/Fits.antt =====
-- The values that fit a field's type, and what the type check of crates/contracts/src/field.rs lets
-- through.
use latent_db.Prelude.{
  ℕ, String, Bool, true, List, ◌≡◌, refl, sym, subst, ◌⊎◌, inl, inr, if◌then◌else◌, arith, Memᴰ,
  has_str, Bool-cases, mem-of-any, eq_iff, ◌==◌,
}
use latent_db.Contracts.Json.{
  Value, null, bool, number, string, array, object, Items, nil, item, is_string, is_boolean,
  is_number, as_str, as_array,
}
use Prim.Native.String.{len, slice}
use latent_db.Contracts.Error.{Result, ok, err, validation}
use latent_db.Contracts.Field.{FieldDefinition, FieldType}
use latent_db.Kernel.Host.{Host}
use latent_db.Kernel.Validate.{
  check, check_type, check_options, is_date_shape, is_integer, on_str, on_array,
}
use latent_db.Kernel.Accepted.{check-ok}

-- Each item is a string that the field offers.
pub data Offered (f : FieldDefinition) : Items → Type 0 where
  no_item : Offered f nil
  offered_item :
      (s : String) (vs : Items)
      → Memᴰ s f.enum_options
      → Offered f vs
      → Offered f (item (string s) vs)

-- A value of the type, as the types' descriptions have it.
pub data Fits (h : Host) (f : FieldDefinition) : FieldType → Value → Type 0 where
  a_text : (s : String) → Fits h f FieldType.text (string s)
  a_long_text : (s : String) → Fits h f FieldType.long_text (string s)
  a_number : (n : ℕ) → Fits h f FieldType.number (number n)
  an_amount :
      (n : ℕ) → (h.is_i64 n ≡ true) ⊎ (h.is_u64 n ≡ true) → Fits h f FieldType.money (number n)
  a_boolean : (b : Bool) → Fits h f FieldType.boolean (bool b)
  a_date :
      (s : String)
      → len s ≡ 10
      → slice s 4 5 ≡ "-"
      → slice s 7 8 ≡ "-"
      → Fits h f FieldType.date (string s)
  a_date_time : (s : String) → h.is_rfc3339 s ≡ true → Fits h f FieldType.date_time (string s)
  an_option : (s : String) → Memᴰ s f.enum_options → Fits h f FieldType.enum (string s)
  some_options : (vs : Items) → Offered f vs → Fits h f FieldType.multi_enum (array vs)
  any_json : (v : Value) → Fits h f FieldType.json v
  a_record_ref : (s : String) → Fits h f FieldType.record_ref (string s)
  a_user_ref : (s : String) → Fits h f FieldType.user_ref (string s)
  a_file_ref : (s : String) → Fits h f FieldType.file_ref (string s)
  any_formula : (v : Value) → Fits h f FieldType.formula v

is_boolean-bool : (v : Value) → is_boolean v ≡ true → (b : Bool) × (v ≡ bool b)
is_boolean-bool null e = absurd (grind arith)
is_boolean-bool (bool b) e = (b, refl)
is_boolean-bool (number n) e = absurd (grind arith)
is_boolean-bool (string s) e = absurd (grind arith)
is_boolean-bool (array xs) e = absurd (grind arith)
is_boolean-bool (object m) e = absurd (grind arith)

is_number-number : (v : Value) → is_number v ≡ true → (n : ℕ) × (v ≡ number n)
is_number-number null e = absurd (grind arith)
is_number-number (bool b) e = absurd (grind arith)
is_number-number (number n) e = (n, refl)
is_number-number (string s) e = absurd (grind arith)
is_number-number (array xs) e = absurd (grind arith)
is_number-number (object m) e = absurd (grind arith)

is_integer-number :
    (h : Host) (v : Value)
    → is_integer h v ≡ true
    → (n : ℕ) × (v ≡ number n) × ((h.is_i64 n ≡ true) ⊎ (h.is_u64 n ≡ true))
is_integer-number h null e = absurd (grind arith)
is_integer-number h (bool b) e = absurd (grind arith)
is_integer-number h (number n) e =
    (n, refl, elim (Bool-cases (h.is_i64 n)) [ inl y ↦ inl y | inr y ↦ inr (grind arith) ])
is_integer-number h (string s) e = absurd (grind arith)
is_integer-number h (array xs) e = absurd (grind arith)
is_integer-number h (object m) e = absurd (grind arith)

is_string-string : (v : Value) → is_string v ≡ true → (s : String) × (v ≡ string s)
is_string-string null e = absurd (grind arith)
is_string-string (bool b) e = absurd (grind arith)
is_string-string (number n) e = absurd (grind arith)
is_string-string (string s) e = (s, refl)
is_string-string (array xs) e = absurd (grind arith)
is_string-string (object m) e = absurd (grind arith)

on_str-string :
    (v : Value) (message : String) (test : String → Result (Unit {0}))
    → on_str (as_str v) message test ≡ ok tt
    → (s : String) × (v ≡ string s) × (test s ≡ ok tt)
on_str-string null message test e = absurd (grind arith)
on_str-string (bool b) message test e = absurd (grind arith)
on_str-string (number n) message test e = absurd (grind arith)
on_str-string (string s) message test e = (s, refl, e)
on_str-string (array xs) message test e = absurd (grind arith)
on_str-string (object m) message test e = absurd (grind arith)

on_array-array :
    (v : Value) (message : String) (test : Items → Result (Unit {0}))
    → on_array (as_array v) message test ≡ ok tt
    → (xs : Items) × (v ≡ array xs) × (test xs ≡ ok tt)
on_array-array null message test e = absurd (grind arith)
on_array-array (bool b) message test e = absurd (grind arith)
on_array-array (number n) message test e = absurd (grind arith)
on_array-array (string s) message test e = absurd (grind arith)
on_array-array (array xs) message test e = (xs, refl, e)
on_array-array (object m) message test e = absurd (grind arith)

has_str-mem : (xs : List String) (s : String) → has_str xs s ≡ true → Memᴰ s xs
has_str-mem xs s e =
    let (x, m, o) = mem-of-any (λ x. x == s) xs e in subst (λ y. Memᴰ y xs) ((eq_iff x s).0 o) m

item-Offered :
    (f : FieldDefinition) (s message : String) (vs : Items) (rest : Result (Unit {0}))
    → (rest ≡ ok tt → Offered f vs)
    → (if has_str f.enum_options s then rest else err (validation message)) ≡ ok tt
    → Offered f (item (string s) vs)
item-Offered f s message vs rest h e = elim (Bool-cases (has_str f.enum_options s)) [
  | inl y ↦ offered_item s vs (has_str-mem f.enum_options s y) (h (grind arith))
  | inr y ↦ absurd (grind arith)
]

check_options-Offered :
    (f : FieldDefinition) (vs : Items) → check_options f vs ≡ ok tt → Offered f vs
unfolding check_options
check_options-Offered f nil e = no_item
check_options-Offered f (item null vs) e = absurd (grind arith)
check_options-Offered f (item (bool b) vs) e = absurd (grind arith)
check_options-Offered f (item (number n) vs) e = absurd (grind arith)
check_options-Offered f (item (string s) vs) e =
    item-Offered f s _ vs (check_options f vs) (check_options-Offered f vs) e
check_options-Offered f (item (array xs) vs) e = absurd (grind arith)
check_options-Offered f (item (object m) vs) e = absurd (grind arith)

string-Fits :
    (h : Host) (f : FieldDefinition) (ty : FieldType) (v : Value) (message : String)
    → ((s : String) → Fits h f ty (string s))
    → check (is_string v) message ≡ ok tt
    → Fits h f ty v
string-Fits h f ty v message con e =
    let (s, q) = is_string-string v (check-ok (is_string v) message e) in
    subst (Fits h f ty) (sym q) (con s)

date-Fits :
    (h : Host) (f : FieldDefinition) (s : String)
    → is_date_shape s ≡ true
    → Fits h f FieldType.date (string s)
unfolding is_date_shape
date-Fits h f s e =
    let a = eq_iff (slice s 4 5) "-" in
    let b = eq_iff (slice s 7 8) "-" in
    a_date s (grind arith) (a.0 (grind arith)) (b.0 (grind arith))

pub check_type-Fits :
    (h : Host) (f : FieldDefinition) (ty : FieldType) (v : Value)
    → check_type h f ty v ≡ ok tt
    → Fits h f ty v
unfolding check_type
check_type-Fits h f FieldType.text v e = string-Fits h f FieldType.text v _ a_text e
check_type-Fits h f FieldType.long_text v e = string-Fits h f FieldType.long_text v _ a_long_text e
check_type-Fits h f FieldType.number v e =
    let (n, q) = is_number-number v (check-ok (is_number v) _ e) in
    subst (Fits h f FieldType.number) (sym q) (a_number n)
check_type-Fits h f FieldType.money v e =
    let (n, q, b) = is_integer-number h v (check-ok (is_integer h v) _ e) in
    subst (Fits h f FieldType.money) (sym q) (an_amount n b)
check_type-Fits h f FieldType.boolean v e =
    let (b, q) = is_boolean-bool v (check-ok (is_boolean v) _ e) in
    subst (Fits h f FieldType.boolean) (sym q) (a_boolean b)
check_type-Fits h f FieldType.date v e =
    let (s, q, b) = on_str-string v _ _ e in
    subst (Fits h f FieldType.date) (sym q) (date-Fits h f s (check-ok (is_date_shape s) _ b))
check_type-Fits h f FieldType.date_time v e =
    let (s, q, b) = on_str-string v _ _ e in
    subst (Fits h f FieldType.date_time) (sym q) (a_date_time s (check-ok (h.is_rfc3339 s) _ b))
check_type-Fits h f FieldType.enum v e =
    let (s, q, b) = on_str-string v _ _ e in
    subst (Fits h f FieldType.enum) (sym q)
      (an_option s (has_str-mem f.enum_options s (check-ok (has_str f.enum_options s) _ b)))
check_type-Fits h f FieldType.multi_enum v e =
    let (xs, q, b) = on_array-array v _ _ e in
    subst (Fits h f FieldType.multi_enum) (sym q) (some_options xs (check_options-Offered f xs b))
check_type-Fits h f FieldType.json v e = any_json v
check_type-Fits h f FieldType.record_ref v e =
    string-Fits h f FieldType.record_ref v _ a_record_ref e
check_type-Fits h f FieldType.user_ref v e = string-Fits h f FieldType.user_ref v _ a_user_ref e
check_type-Fits h f FieldType.file_ref v e = string-Fits h f FieldType.file_ref v _ a_file_ref e
check_type-Fits h f FieldType.formula v e = any_formula v
