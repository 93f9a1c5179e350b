-- ===== src/Kernel/Rbac/Compare.antt =====
-- `compare` and `value_matches` of crates/kernel/src/rbac.rs, over the equality of JSON values.
use Prim.Native.Nat.{Ordering}
use latent_db.Prelude.{ℕ, Bool, true, false, ◌&&◌, ◌||◌, Option, none, some, ◌==◌, str_contains}
use latent_db.Contracts.Json.{
  Value, null, bool, number, string, array, object, Items, nil, item, Fields, end, entry,
}
use latent_db.Contracts.Permission.{ConditionOp}
use latent_db.Kernel.Host.{Host}

abbrev bool_eq : Bool → Bool → Bool
bool_eq true b = b
bool_eq false true = false
bool_eq false false = true

-- `PartialEq` of `serde_json::Value`
unfoldable mutual
  pub value_eq : Host → Value → Value → Bool
  value_eq h null null = true
  value_eq h (bool a) (bool b) = bool_eq a b
  value_eq h (number a) (number b) = h.number_eq a b
  value_eq h (string a) (string b) = a == b
  value_eq h (array xs) (array ys) = items_eq h xs ys
  value_eq h (object xs) (object ys) = fields_eq h xs ys
  value_eq h _ _ = false

  pub items_eq : Host → Items → Items → Bool
  items_eq h nil nil = true
  items_eq h (item x xs) (item y ys) = value_eq h x y && items_eq h xs ys
  items_eq h _ _ = false

  pub fields_eq : Host → Fields → Fields → Bool
  fields_eq h end end = true
  fields_eq h (entry j x xs) (entry k y ys) = j == k && (value_eq h x y && fields_eq h xs ys)
  fields_eq h _ _ = false

-- `arr.contains(v)`
unfoldable pub items_contain : Host → Items → Value → Bool
items_contain h nil v = false
items_contain h (item x xs) v = value_eq h x v || items_contain h xs v

abbrev as_f64 : Host → Value → Option ℕ
as_f64 h (number n) = h.as_f64 n
as_f64 h _ = none

-- The four order tests on what `partial_cmp` answers; a NaN compares with nothing.
abbrev order_test : ConditionOp → Option Ordering → Bool
order_test ConditionOp.gt (some Ordering.gt) = true
order_test ConditionOp.lt (some Ordering.lt) = true
order_test ConditionOp.gte (some Ordering.gt) = true
order_test ConditionOp.gte (some Ordering.eq) = true
order_test ConditionOp.lte (some Ordering.lt) = true
order_test ConditionOp.lte (some Ordering.eq) = true
order_test _ _ = false

abbrev f64_test : Host → ConditionOp → Option ℕ → Option ℕ → Bool
f64_test h op (some a) (some b) = order_test op (h.partial_cmp a b)
f64_test h op _ _ = false

abbrev contains_test : Host → Value → Value → Bool
contains_test h (string s) (string sub) = str_contains s sub
contains_test h (array xs) v = items_contain h xs v
contains_test h _ _ = false

abbrev in_test : Host → Value → Value → Bool
in_test h lhs (array xs) = items_contain h xs lhs
in_test h lhs _ = false

abbrev negate : Bool → Bool
negate true = false
negate false = true

unfoldable pub compare_values : Host → Value → ConditionOp → Value → Bool
compare_values h lhs ConditionOp.eq rhs = value_eq h lhs rhs
compare_values h lhs ConditionOp.ne rhs = negate (value_eq h lhs rhs)
compare_values h lhs ConditionOp.is_in rhs = in_test h lhs rhs
compare_values h lhs ConditionOp.contains rhs = contains_test h lhs rhs
compare_values h lhs op rhs = f64_test h op (as_f64 h lhs) (as_f64 h rhs)
