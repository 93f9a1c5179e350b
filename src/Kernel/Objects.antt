-- ===== src/Kernel/Objects.antt =====
-- crates/kernel/src/object.rs: object types
use latent_db.Prelude.{
  ℕ, String, Bool, ◌&&◌, ◌||◌, Option, none, some, List, [], ◌∷◌, map, find, any, select,
  update_where, sort_by, str_leb, length, ◌==◌, if◌then◌else◌, format,
}
use latent_db.Contracts.Json.{Value, number, string, object, from_map}
use latent_db.Contracts.Error.{Result, ok, err, panic, not_found}
use latent_db.Contracts.Auth.{AuthContext}
use latent_db.Contracts.Permission.{Action}
use latent_db.Contracts.Field.{ObjectTypeDef}
use latent_db.Kernel.Host.{Kernel}
use latent_db.Kernel.Store.{Db, ObjectTypeRow, insert_row}
use latent_db.Kernel.Exec.{
  Exec, ◌>>=◌, ◌>>◌, pure, lift, or_raise, ensure, fresh_id, current_time, query, execute,
  statement, transaction,
}
use latent_db.Kernel.Audit.{event_from, insert_audit}
use latent_db.Kernel.Rbac.{authorize}
use latent_db.Kernel.Validate.{validate_object_type}

abbrev pub is_type : String → String → ObjectTypeRow → Bool
is_type tenant_id key row = row.tenant_id == tenant_id && row.def.key == key

abbrev pub row_def : Option ObjectTypeRow → Option ObjectTypeDef
row_def none = none
row_def (some row) = some row.def

unfoldable pub find_type : String → String → Db → Option ObjectTypeDef
find_type tenant_id key db = row_def (find (is_type tenant_id key) db.object_types)

unfoldable pub load_object_type : Kernel → String → String → Exec ObjectTypeDef
unfolding find_type
load_object_type k tenant_id key = do
  found ← query k (find_type tenant_id key)
  or_raise found (not_found (format ("object type '" ∷ key ∷ "' not found" ∷ [])))

-- `INSERT INTO object_types`, whose keys are the id and (tenant, key)
unfoldable pub add_type : ObjectTypeRow → Db → Result Db
add_type row db =
    elim (insert_row (λ r. r.def.id == row.def.id || is_type row.tenant_id row.def.key r) row
      db.object_types) [
        | ok rows ↦ ok (record db { object_types = rows })
        | err e ↦ err e
        | panic ↦ panic
      ]

abbrev pub count_value : Kernel → ℕ → Value
count_value k n = number (k.number_of n)

abbrev id_or_fresh : Kernel → String → Exec String
id_or_fresh k id = if id == "" then fresh_id k else pure id

-- The transaction of `create_object_type`.
unfoldable pub store_type : Kernel → AuthContext → ObjectTypeDef → Exec (Unit {0})
unfolding add_type
store_type k ctx def = transaction k (do
  execute k (add_type (record { tenant_id = ctx.tenant_id; def = def }))
  ev ← event_from k ctx "object_type.create" (some "object_type") (some def.key) none (
      some (
        object (
          from_map (("fields", count_value k (length def.fields)) ∷ ("key", string def.key) ∷ []))))
  insert_audit k ev)

unfoldable pub create_object_type : Kernel → AuthContext → ObjectTypeDef → Exec ObjectTypeDef
create_object_type k ctx def = do
  authorize k ctx Action.configure "object_types" none
  lift (validate_object_type def)
  id ← id_or_fresh k def.id
  now ← current_time k
  store_type k ctx (record def { id = id })
  pure (record def { id = id })

-- The columns that `UPDATE object_types` sets.
abbrev pub replace_def : ObjectTypeDef → ObjectTypeRow → ObjectTypeRow
replace_def def row = record row {
  def = record def { id = row.def.id; key = row.def.key; system = row.def.system };
}

abbrev pub update_types : String → String → ObjectTypeDef → Db → Db
update_types tenant_id key def db = record db {
  object_types = update_where (is_type tenant_id key) (replace_def def) db.object_types;
}

-- The `UPDATE` with the answer whether it met a row.
unfoldable pub replace_type : String → String → ObjectTypeDef → Db → Result (Bool × Db)
replace_type tenant_id key def db =
    ok (any (is_type tenant_id key) db.object_types, update_types tenant_id key def db)

-- The transaction of `update_object_type`.
unfoldable pub store_update :
    Kernel → AuthContext → String → ObjectTypeDef → ObjectTypeDef → Exec (Unit {0})
unfolding replace_type
store_update k ctx key before def = transaction k (do
  affected ← statement k (replace_type ctx.tenant_id key def)
  ensure affected (not_found "object type not found")
  ev ←
      event_from k ctx "object_type.update" (some "object_type") (some key)
        (some (object (from_map (("fields", count_value k (length before.fields)) ∷ []))))
        (some (object (from_map (("fields", count_value k (length def.fields)) ∷ []))))
  insert_audit k ev)

unfoldable pub update_object_type :
    Kernel → AuthContext → String → ObjectTypeDef → Exec ObjectTypeDef
update_object_type k ctx key def = do
  authorize k ctx Action.configure "object_types" none
  lift (validate_object_type def)
  before ← load_object_type k ctx.tenant_id key
  store_update k ctx key before def
  pure (record def { key = key })

unfoldable pub get_object_type : Kernel → AuthContext → String → Exec ObjectTypeDef
get_object_type k ctx key = do
  authorize k ctx Action.read "object_types" none
  load_object_type k ctx.tenant_id key

unfoldable pub list_object_types : Kernel → AuthContext → Exec (List ObjectTypeDef)
list_object_types k ctx = do
  authorize k ctx Action.read "object_types" none
  query k λ db.
      sort_by (λ a b. str_leb a.key b.key)
        (map (λ r. r.def) (select (λ r. r.tenant_id == ctx.tenant_id) db.object_types))
