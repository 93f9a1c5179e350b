-- ===== src/Kernel/Records/Listing.antt =====
-- `list_records` and `scan_records` of crates/kernel/src/record.rs.
use Prim.Native.Nat.{◌^◌, Ordering}
use Prim.Native.String.{compare}
use mathlib.Core.List.{reverse}
use latent_db.Prelude.{
  ℕ, ◌+◌, ◌-◌, String, Bool, true, false, ◌&&◌, ◌||◌, Option, none, some, List, [], ◌∷◌, map, any,
  select, take, drop, min, leb, length, sort_by, str_leb, str_contains, ◌==◌, if◌then◌else◌,
}
use latent_db.Contracts.Json.{Value, number, string, get}
use latent_db.Contracts.Error.{Result, ok, panic}
use latent_db.Contracts.Auth.{AuthContext}
use latent_db.Contracts.Permission.{Action, PermissionGrant}
use latent_db.Contracts.Field.{ObjectTypeDef}
use latent_db.Contracts.Record.{
  Rec, Lifecycle, FieldFilter, RecordFilter, ListResponse, clamp_limit, clamp_offset,
}
use latent_db.Kernel.Host.{Kernel, Host}
use latent_db.Kernel.Store.{Db}
use latent_db.Kernel.Exec.{Exec, ◌>>=◌, ◌>>◌, pure, lift, query}
use latent_db.Kernel.Rbac.{authorize, effective_grants, grants_allow, is_trusted, compare_values}
use latent_db.Kernel.Objects.{load_object_type}
use latent_db.Kernel.Records.{resource_for, visible_part}

abbrev pub max_scan : ℕ
max_scan = 5000

abbrev pub is_active : Lifecycle → Bool
is_active Lifecycle.active = true
is_active Lifecycle.archived = false

-- The `WHERE` clause of the scan.
abbrev pub is_candidate : String → String → Bool → Rec → Bool
is_candidate tenant_id object_type include_archived r =
    r.tenant_id == tenant_id
    && (r.object_type == object_type && (include_archived || is_active r.lifecycle))

unfoldable pub candidates : String → String → Bool → Db → List Rec
candidates tenant_id object_type include_archived db = take max_scan (
    sort_by (λ a b. str_leb b.created_at a.created_at)
      (select (is_candidate tenant_id object_type include_archived) db.records))

-- One of the filter clauses.
abbrev pub clause_holds : Host → FieldFilter → Rec → Bool
clause_holds h c r = elim (get r.fields c.field) [
  | none ↦ false
  | some v ↦ compare_values h v c.op c.value
]

-- The loop over the filter clauses.
unfoldable pub apply_filters : Host → List FieldFilter → List Rec → List Rec
apply_filters h [] rs = rs
apply_filters h (c ∷ cs) rs = apply_filters h cs (select (clause_holds h c) rs)

abbrev value_matches : Host → String → String × Value → Bool
value_matches h needle (key, string s) = str_contains (h.to_lowercase s) needle
value_matches h needle (key, v) = false

unfoldable pub record_matches_search : Host → Rec → String → Bool
record_matches_search h r needle = any (value_matches h needle) r.fields

unfoldable pub apply_search : Host → Option String → List Rec → List Rec
unfolding record_matches_search
apply_search h none rs = rs
apply_search h (some s) rs =
    if s == "" then rs else select (λ r. record_matches_search h r (h.to_lowercase s)) rs

-- `partial_cmp(…).unwrap_or(Equal)`, of two `as_f64`
abbrev number_order : Host → Option ℕ → Option ℕ → Ordering
number_order h none none = Ordering.eq
number_order h none (some y) = Ordering.lt
number_order h (some x) none = Ordering.gt
number_order h (some x) (some y) = elim (h.partial_cmp x y) [ none ↦ Ordering.eq | some o ↦ o ]

abbrev pub value_order : Host → Option Value → Option Value → Ordering
value_order h (some (number x)) (some (number y)) = number_order h (h.as_f64 x) (h.as_f64 y)
value_order h (some (string x)) (some (string y)) = compare x y
value_order h (some v) none = Ordering.gt
value_order h none (some w) = Ordering.lt
value_order h _ _ = Ordering.eq

unfoldable pub compare_field : Host → Rec → Rec → String → Ordering
compare_field h a b key =
    if key == "created_at"
    then compare a.created_at b.created_at
    else value_order h (get a.fields key) (get b.fields key)

abbrev pub is_not_gt : Ordering → Bool
is_not_gt Ordering.gt = false
is_not_gt _ = true

unfoldable pub apply_sort : Host → Option String → Bool → List Rec → List Rec
unfolding compare_field
apply_sort h none desc rs = rs
apply_sort h (some key) desc rs =
    let sorted = sort_by (λ a b. is_not_gt (compare_field h a b key)) rs in
    if desc then reverse sorted else sorted

abbrev pub i64_max : ℕ
i64_max = 2 ^ 63 - 1

-- `&records[start..end]`: the sum of offset and limit may pass `i64::MAX`, where the code panics.
unfoldable pub window {ℓ} : {A : Type ℓ} → ℕ → ℕ → List A → Result (List A)
window offset limit rs =
    let start = min offset (length rs) in
    let stop = min (offset + limit) (length rs) in
    if leb (offset + limit) i64_max then ok (take (stop - start) (drop start rs)) else panic

-- The rows that the caller may read, narrowed by the search and the clauses, in order.
unfoldable pub matching :
    Kernel → AuthContext → String → RecordFilter → List PermissionGrant → List Rec → List Rec
unfolding apply_filters apply_search apply_sort
matching k ctx object_type filter grants rows = apply_sort k.host filter.sort filter.desc (
    apply_filters k.host filter.filters (
      apply_search k.host filter.search (
        select (λ r. grants_allow k grants ctx Action.read (resource_for object_type) (some r))
          rows)))

unfoldable pub show_row : Kernel → AuthContext → ObjectTypeDef → List PermissionGrant → Rec → Rec
show_row k ctx t grants r = if is_trusted ctx then r else visible_part k ctx t grants r

unfoldable pub list_records : Kernel → AuthContext → String → RecordFilter → Exec (ListResponse Rec)
unfolding candidates window matching show_row
list_records k ctx object_type filter = do
  authorize k ctx Action.search (resource_for object_type) none
  t ← load_object_type k ctx.tenant_id object_type
  grants ← effective_grants k ctx
  rows ← query k (candidates ctx.tenant_id object_type filter.include_archived)
  let found = matching k ctx object_type filter grants rows
  let limit = clamp_limit filter.page.limit
  let offset = clamp_offset filter.page.offset
  items ← lift (window offset limit found)
  pure (record {
    items = map (show_row k ctx t grants) items;
    total = length found;
    limit = limit;
    offset = offset;
  })

unfoldable pub scan_records : Kernel → AuthContext → String → RecordFilter → Exec (List Rec)
unfolding candidates apply_filters show_row
scan_records k ctx object_type filter = do
  authorize k ctx Action.search (resource_for object_type) none
  t ← load_object_type k ctx.tenant_id object_type
  grants ← effective_grants k ctx
  rows ← query k (candidates ctx.tenant_id object_type filter.include_archived)
  let readable =
      select (λ r. grants_allow k grants ctx Action.read (resource_for object_type) (some r)) rows
  pure (map (show_row k ctx t grants) (apply_filters k.host filter.filters readable))
