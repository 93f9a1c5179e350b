-- ===== src/Kernel/Reads/Listings.antt =====
-- What `list_records` hands out.
use latent_db.Prelude.{
  ℕ, ◌≤◌, String, Bool, true, false, ◌||◌, Option, none, some, List, [], ◌∷◌, ◌≡◌, refl, ap, sym,
  ◌∙◌, subst, ◌⊎◌, inl, inr, select, length, take, drop, if◌then◌else◌, str_leb, ◌==◌, eq_iff,
  arith, Memᴰ, select-mem, take-mem, drop-mem, sort_by-mem, reverse-mem, map-mem,
}
use mathlib.Core.List.{reverse}
use latent_db.Contracts.Error.{Result, ok, err, panic}
use latent_db.Contracts.Auth.{AuthContext}
use latent_db.Contracts.Permission.{Action}
use latent_db.Contracts.Field.{ObjectTypeDef}
use latent_db.Contracts.Record.{
  Rec, Lifecycle, RecordFilter, FieldFilter, ListResponse, clamp_limit, clamp_offset,
}
use latent_db.Kernel.Host.{Kernel, Host}
use latent_db.Kernel.Store.{Db}
use latent_db.Kernel.Exec.{State, query, pure, raise, crash, lift}
use latent_db.Kernel.Rbac.{is_trusted, role_grants, grants_allow, effective_grants, authorize}
use latent_db.Kernel.Objects.{load_object_type}
use latent_db.Kernel.Records.{resource_for, visible_part}
use latent_db.Kernel.Records.Listing.{
  is_candidate, candidates, clause_holds, apply_filters, apply_search, apply_sort, matching, window,
  show_row, list_records, is_active, max_scan,
}
use latent_db.Kernel.Access.{Granted}
use latent_db.Kernel.Decisions.{authorize-Granted, allow-Granted}
use latent_db.Kernel.Exec.Returns.{bind-ok, query-ok, ok_inj}
use latent_db.Kernel.Reads.{
  effective_grants-ok, effective_grants-db, load_object_type-db, Shows, visible_part-Shows,
  whole-Shows,
}
use latent_db.Kernel.Reads.Windows.{window_lem, length-take}

apply_filters-mem :
    {r : Rec} (h : Host) (cs : List FieldFilter) (rs : List Rec)
    → Memᴰ r (apply_filters h cs rs)
    → Memᴰ r rs
unfolding apply_filters
apply_filters-mem h [] rs m = m
apply_filters-mem h (c ∷ cs) rs m =
    (select-mem (clause_holds h c) rs (apply_filters-mem h cs (select (clause_holds h c) rs) m)).0

search_by-mem :
    {r : Rec} (b : Bool) (p : Rec → Bool) (rs : List Rec)
    → Memᴰ r (if b then rs else select p rs)
    → Memᴰ r rs
search_by-mem true p rs m = m
search_by-mem false p rs m = (select-mem p rs m).0

apply_search-mem :
    {r : Rec} (h : Host) (search : Option String) (rs : List Rec)
    → Memᴰ r (apply_search h search rs)
    → Memᴰ r rs
unfolding apply_search
apply_search-mem h none rs m = m
apply_search-mem h (some s) rs m = search_by-mem (s == "") _ rs m

order-mem : {r : Rec} (b : Bool) (rs : List Rec) → Memᴰ r (if b then reverse rs else rs) → Memᴰ r rs
order-mem true rs m = reverse-mem rs m
order-mem false rs m = m

apply_sort-mem :
    {r : Rec} (h : Host) (key : Option String) (desc : Bool) (rs : List Rec)
    → Memᴰ r (apply_sort h key desc rs)
    → Memᴰ r rs
unfolding apply_sort
apply_sort-mem h none desc rs m = m
apply_sort-mem h (some key) desc rs m = sort_by-mem _ rs (order-mem desc _ m)

-- The row is one of the caller's tenant, of the type, active unless archived rows are asked for, and
-- the caller may read it.
pub record Lists (k : Kernel) (ctx : AuthContext) (db : Db) (object_type : String)
    (filter : RecordFilter) (r : Rec) : Type 0 where
  pub stored : Memᴰ r db.records
  pub of_tenant : r.tenant_id ≡ ctx.tenant_id
  pub of_type : r.object_type ≡ object_type
  pub of_lifecycle : (filter.include_archived ≡ true) ⊎ (r.lifecycle ≡ Lifecycle.active)
  pub granted : Granted k ctx Action.read (resource_for object_type) (some r) db

active_or :
    (b : Bool) (l : Lifecycle) → (b || is_active l) ≡ true → (b ≡ true) ⊎ (l ≡ Lifecycle.active)
active_or true l e = inl refl
active_or false Lifecycle.active e = inr refl
active_or false Lifecycle.archived e = absurd (grind arith)

module _ (k : Kernel) (ctx : AuthContext) (db : Db) (object_type : String)
    (filter : RecordFilter) where
  matching-Lists :
      (r : Rec)
      → Memᴰ r (
          matching k ctx object_type filter
            (role_grants ctx db)
            (candidates ctx.tenant_id object_type filter.include_archived db))
      → Lists k ctx db object_type filter r
  unfolding matching candidates
  matching-Lists r m =
      let m1 = apply_sort-mem k.host filter.sort filter.desc _ m in
      let m2 = apply_filters-mem k.host filter.filters _ m1 in
      let m3 = apply_search-mem k.host filter.search _ m2 in
      let (m4, g) =
        select-mem
          (λ x.
            grants_allow k (role_grants ctx db) ctx Action.read (resource_for object_type) (some x))
          (candidates ctx.tenant_id object_type filter.include_archived db) m3 in
      let m5 = sort_by-mem (λ a b. str_leb b.created_at a.created_at) _ (take-mem max_scan _ m4) in
      let (m6, c) =
        select-mem (is_candidate ctx.tenant_id object_type filter.include_archived) db.records m5 in
      let i = eq_iff r.tenant_id ctx.tenant_id in
      let j = eq_iff r.object_type object_type in
      record {
        stored = m6;
        of_tenant = grind arith;
        of_type = grind arith;
        of_lifecycle = active_or filter.include_archived r.lifecycle (grind arith);
        granted = allow-Granted k ctx Action.read (resource_for object_type) (some r) db g;
      }

show_by :
    (k : Kernel) (ctx : AuthContext) (db : Db) (t : ObjectTypeDef) (r : Rec) (b : Bool)
    → is_trusted ctx ≡ b
    → Shows k ctx db t r (if b then r else visible_part k ctx t (role_grants ctx db) r)
show_by k ctx db t r true e = whole-Shows k ctx db t r e
show_by k ctx db t r false e = visible_part-Shows k ctx db t r

pick-mem :
    {A : Type 0} {x : A} (o l : ℕ) (rs items : List A)
    → window o l rs ≡ ok items
    → Memᴰ x items
    → Memᴰ x rs × (length items ≤ l)
pick-mem o l rs items e m = elim (window_lem o l rs) [
  | inl (h, w) ↦
      let q : take l (drop o rs) ≡ items = ok_inj (sym w ∙ e) in
      let n = ap length q in
      let b = length-take l (drop o rs) in
      (drop-mem o rs (take-mem l _ (subst (Memᴰ _) (sym q) m)), omega arith)
  | inr (h, w) ↦ absurd (grind arith)
]

lift-ok : {A : Type 0} (r : Result A) (s : State) (a : A) → (lift r s).0 ≡ ok a → r ≡ ok a
unfolding pure raise crash
lift-ok (ok b) s a e = e
lift-ok (err x) s a e = absurd (grind arith)
lift-ok panic s a e = absurd (grind arith)

module _ (k : Kernel) (ctx : AuthContext) (object_type : String) (filter : RecordFilter) where
  -- Where `list_records` answers, the caller is granted `search` on the type, and every row of the
  -- page is a stored row of the caller's tenant and of that type, active unless archived rows are
  -- asked for, which the caller is granted `read` on; it is shown with open fields only.
  pub list_records-Lists :
      (s : State) (page : ListResponse Rec) (shown : Rec)
      → (list_records k ctx object_type filter s).0 ≡ ok page
      → Memᴰ shown page.items
      → Granted k ctx Action.search (resource_for object_type) none s.db
        × ((r : Rec) × (t : ObjectTypeDef) × Lists k ctx s.db object_type filter r
            × Shows k ctx s.db t r shown)
  unfolding list_records pure show_row
  list_records-Lists s page shown h m =
      let (u, a1, h1) =
        bind-ok (authorize k ctx Action.search (resource_for object_type) none) _ s page h in
      let (g, d1) = authorize-Granted k ctx Action.search (resource_for object_type) none s a1 in
      let (t, a2, h2) = bind-ok (load_object_type k ctx.tenant_id object_type) _ _ page h1 in
      let d2 = load_object_type-db k ctx object_type _ in
      let (grants, a3, h3) = bind-ok (effective_grants k ctx) _ _ page h2 in
      let d3 = effective_grants-db k ctx _ in
      let e3 = effective_grants-ok k ctx _ grants a3 ∙ ap (role_grants ctx) (d2 ∙ d1) in
      let (rows, a4, h4) =
        bind-ok (query k (candidates ctx.tenant_id object_type filter.include_archived)) _ _ page
          h3 in
      let e4 =
        sym (query-ok k _ _ rows a4)
        ∙ ap (candidates ctx.tenant_id object_type filter.include_archived) (d3 ∙ d2 ∙ d1) in
      let (items, a5, h5) =
        bind-ok
          (lift (
            window (clamp_offset filter.page.offset) (clamp_limit filter.page.limit)
              (matching k ctx object_type filter grants rows)))
          _ _ page h4 in
      let w = lift-ok _ _ items a5 in
      let q = ap (λ (p : ListResponse Rec). p.items) (ok_inj h5) in
      let (r, n, e) = map-mem (show_row k ctx t grants) items (subst (Memᴰ shown) (sym q) m) in
      let (n1, b) = pick-mem _ _ _ items w n in
      let n2 = subst (λ rs. Memᴰ r (matching k ctx object_type filter grants rs)) e4 n1 in
      let n3 =
        subst
          (λ gs. Memᴰ r (
            matching k ctx object_type filter gs
              (candidates ctx.tenant_id object_type filter.include_archived s.db)))
          e3 n2 in
      (
        g,
        (
          r,
          t,
          matching-Lists k ctx s.db object_type filter r n3,
          subst (Shows k ctx s.db t r) (sym (e ∙ ap (λ gs. show_row k ctx t gs r) e3))
              (show_by k ctx s.db t r (is_trusted ctx) refl),
        ),
      )
