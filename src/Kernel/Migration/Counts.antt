-- ===== src/Kernel/Migration/Counts.antt =====
-- crates/kernel/src/migration.rs: the grouped counts of the live records
use latent_db.Prelude.{
  ◌+◌, String, ◌&&◌, List, [], ◌∷◌, length, select, ◌≡◌, refl, ap, sym, ◌==◌, eq_iff, arith,
  if◌then◌else◌, Bool-cases, inl, inr,
}
use latent_db.Contracts.Record.{Rec}
use latent_db.Kernel.Store.{Db}
use latent_db.Kernel.Migration.Sums.{eq_comm}
use latent_db.Kernel.Migration.Planner.{Counts, count_of}
use latent_db.Kernel.Migration.Sessions.{bump, group_counts, active_counts, is_live}

count_of-bump :
    (m : Counts) (j key : String)
    → count_of (bump j m) key ≡ count_of m key + (if j == key then 1 else 0)
unfolding count_of bump
count_of-bump [] j key = ground arith
count_of-bump ((i, n) ∷ m) j key =
    let ih = count_of-bump m j key in
    elim (Bool-cases (i == j)) [
      | inl e ↦
          let q : i ≡ j = (eq_iff i j).0 e in let w = ap (λ x. x == key) q in ground (arith, ih)
      | inr e ↦ elim (Bool-cases (i == key)) [
        | inl h ↦
            let q : i ≡ key = (eq_iff i key).0 h in
            let w : (j == key) ≡ (j == i) = ap (λ x. j == x) (sym q) in
            let c = eq_comm i j in ground (arith, ih)
        | inr h ↦ ground (arith, ih)
      ]
    ]

count_of-group_counts :
    (rs : List Rec) (key : String)
    → count_of (group_counts rs) key ≡ length (select (λ r. r.object_type == key) rs)
unfolding count_of group_counts
count_of-group_counts [] key = refl
count_of-group_counts (r ∷ rs) key =
    let ih = count_of-group_counts rs key in
    let b = count_of-bump (group_counts rs) r.object_type key in ground (arith, ih, b)

-- The count that a snapshot or a plan reads for a type is the number of the tenant's live records of
-- that type, and 0 for a type that has none.
pub active_counts-length :
    (tenant_id key : String) (db : Db)
    → count_of (active_counts tenant_id db) key
      ≡ length (
          select
            (λ r. r.object_type == key)
            (select (λ r. r.tenant_id == tenant_id && is_live r.lifecycle) db.records))
unfolding active_counts
active_counts-length tenant_id key db = count_of-group_counts _ key
