-- ===== src/Contracts/Json.antt =====
-- JSON values as `serde_json::Value` has them. A number is known by a code only: what serde_json
-- answers about it (`is_i64`, `as_f64`, …) is asked of the host.
use latent_db.Prelude.{
  ℕ, String, Bool, true, false, Option, none, some, List, [], ◌∷◌, select, if◌then◌else◌, str_ltb,
  ◌==◌, not,
}

mutual
  pub data Value : Type 0 where
    null : Value
    bool : Bool → Value
    number : ℕ → Value
    string : String → Value
    array : Items → Value
    object : Fields → Value

  pub data Items : Type 0 where
    nil : Items
    item : Value → Items → Items

  pub data Fields : Type 0 where
    end : Fields
    entry : String → Value → Fields → Fields

-- `serde_json::Map`: entries in the order of their keys
abbrev pub JsonMap : Type 0
JsonMap = List (String × Value)

-- `Value::Object`
pub from_map : JsonMap → Fields
from_map [] = end
from_map ((k, v) ∷ m) = entry k v (from_map m)

-- `Map::get`
abbrev pub get : JsonMap → String → Option Value
get [] k = none
get ((j, v) ∷ m) k = if j == k then some v else get m k

-- `Map::insert`
unfoldable pub insert : JsonMap → String → Value → JsonMap
insert [] k v = (k, v) ∷ []
insert ((j, w) ∷ m) k v =
    if j == k
    then (k, v) ∷ m
    else if str_ltb k j
    then (k, v) ∷ (j, w) ∷ m
    else (j, w) ∷ insert m k v

-- `Map::remove`
unfoldable pub remove : JsonMap → String → JsonMap
remove m k = select (λ e. not (e.0 == k)) m

abbrev pub is_null : Value → Bool
is_null null = true
is_null _ = false

abbrev pub is_string : Value → Bool
is_string (string s) = true
is_string _ = false

abbrev pub is_boolean : Value → Bool
is_boolean (bool b) = true
is_boolean _ = false

abbrev pub is_number : Value → Bool
is_number (number n) = true
is_number _ = false

abbrev pub as_str : Value → Option String
as_str (string s) = some s
as_str _ = none

abbrev pub as_array : Value → Option Items
as_array (array xs) = some xs
as_array _ = none
