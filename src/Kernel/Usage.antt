-- ===== src/Kernel/Usage.antt =====
-- crates/kernel/src/usage.rs: the usage counters of a tenant, by metric and calendar month
pub mod Meters
use latent_db.Prelude.{
  ℕ, ◌+◌, String, Bool, true, false, not, ◌&&◌, ◌||◌, List, [], ◌∷◌, any, map, select, update_where,
  sort_by, str_leb, ◌==◌, if◌then◌else◌, ltb, format, decimal, none,
}
use latent_db.Contracts.Error.{Result, ok, err, panic}
use latent_db.Contracts.Auth.{AuthContext}
use latent_db.Contracts.Permission.{Action}
use latent_db.Kernel.Host.{Kernel}
use latent_db.Kernel.Store.{Db, UsageRow, insert_row}
use latent_db.Kernel.Exec.{
  Exec, ◌>>=◌, ◌>>◌, pure, ignore, clock, fresh_id, current_time, query, execute,
}
use latent_db.Kernel.Rbac.{authorize}

pub record UsageMeter : Type 0 where
  pub metric : String
  pub period : String
  pub value : ℕ
  pub updated_at : String

-- `{:02}` and `{:04}`
abbrev pad2 : ℕ → String
pad2 n = if ltb n 10 then format ("0" ∷ decimal n ∷ []) else decimal n

abbrev pad4 : ℕ → String
pad4 n =
    if ltb n 100
    then format ("00" ∷ pad2 n ∷ [])
    else if ltb n 1000
    then format ("0" ∷ decimal n ∷ [])
    else decimal n

unfoldable pub period_of : Kernel → ℕ → String
period_of k now = format (pad4 (k.year_of now) ∷ "-" ∷ pad2 (k.month_of now) ∷ [])

unfoldable pub current_period : Kernel → Exec String
unfolding period_of
current_period k = do now ← clock k; pure (period_of k now)

abbrev pub is_meter : String → String → String → UsageRow → Bool
is_meter tenant_id metric period row =
    row.tenant_id == tenant_id && (row.metric == metric && row.period == period)

-- `excluded` is the row that the insertion is given.
abbrev pub increase : UsageRow → UsageRow → UsageRow
increase excluded row = record row {
  value = row.value + excluded.value;
  updated_at = excluded.updated_at;
}

-- `INSERT … ON CONFLICT(tenant_id, metric, period) DO UPDATE`
unfoldable pub upsert_usage : UsageRow → Db → Result Db
upsert_usage row db =
    if any (is_meter row.tenant_id row.metric row.period) db.usage_meters
    then ok (record db {
      usage_meters =
          update_where (is_meter row.tenant_id row.metric row.period) (increase row)
            db.usage_meters;
    })
    else elim (insert_row (λ x. x.id == row.id) row db.usage_meters) [
      | ok rows ↦ ok (record db { usage_meters = rows })
      | err e ↦ err e
      | panic ↦ panic
    ]

abbrev pub record_enabled : Kernel → String → String → ℕ → Bool → Exec (Unit {0})
record_enabled k tenant_id metric amount false = pure tt
record_enabled k tenant_id metric amount true = do
  id ← fresh_id k
  period ← current_period k
  now ← current_time k
  execute k (
      upsert_usage (record {
        id = id;
        tenant_id = tenant_id;
        metric = metric;
        period = period;
        value = amount;
        updated_at = now;
      }))

-- The amounts are natural numbers: the one caller adds 1.
unfoldable pub record_usage : Kernel → String → String → ℕ → Exec (Unit {0})
unfolding current_period upsert_usage
record_usage k tenant_id metric amount =
    record_enabled k tenant_id metric amount k.flags.enable_usage_metering

unfoldable pub meter_api_call : Kernel → AuthContext → Exec (Unit {0})
unfolding record_usage
meter_api_call k ctx = ignore (record_usage k ctx.tenant_id "api_calls" 1)

abbrev to_meter : UsageRow → UsageMeter
to_meter row = record {
  metric = row.metric;
  period = row.period;
  value = row.value;
  updated_at = row.updated_at;
}

-- `ORDER BY period DESC, metric`
abbrev comes_first : UsageRow → UsageRow → Bool
comes_first a b =
    if a.period == b.period then str_leb a.metric b.metric else str_leb b.period a.period

unfoldable pub list_usage : Kernel → AuthContext → Exec (List UsageMeter)
list_usage k ctx = do
  authorize k ctx Action.read "usage" none
  query k λ db.
      map to_meter
        (sort_by comes_first (select (λ m. m.tenant_id == ctx.tenant_id) db.usage_meters))
