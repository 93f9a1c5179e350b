-- ===== src/Kernel/Reads.antt =====
-- What `get_record` of crates/kernel/src/record.rs hands out, and how a chain of actions returns.
pub mod Windows
pub mod Listings
use latent_db.Prelude.{
  String, Bool, true, false, not, ◌&&◌, ◌||◌, Option, none, some, List, [], ◌∷◌, ◌≡◌, refl, ap, sym,
  ◌∙◌, subst, ◌⊎◌, inl, inr, any, select, if◌then◌else◌, ◌==◌, arith, Bool-cases, Memᴰ, select-mem,
  mem-of-any, find,
}
use latent_db.Contracts.Json.{Value, JsonMap}
use latent_db.Contracts.Error.{ApiError, Result, ok, err, panic}
use latent_db.Contracts.Auth.{AuthContext}
use latent_db.Contracts.Permission.{Action, PermissionGrant}
use latent_db.Contracts.Field.{ObjectTypeDef, FieldDefinition, field}
use latent_db.Contracts.Record.{Rec, project_fields}
use latent_db.Kernel.Host.{Kernel, DbError}
use latent_db.Kernel.Store.{Db}
use latent_db.Kernel.Exec.Returns.{bind-ok, query-ok, or_raise-ok, required-ok, required-db}
use latent_db.Kernel.Exec.{
  Exec, State, query, statement, outcome, settle, pure, raise, ◌>>=◌, continue, or_raise,
}
use latent_db.Kernel.Exec.Frames.{db-query}
use latent_db.Kernel.Rbac.{
  applies, is_trusted, role_grants, effective_grants, authorize, applicable_read_grants,
  field_permitted, is_restricted, opens_field,
}
use latent_db.Kernel.Objects.{find_type, load_object_type}
use latent_db.Kernel.Records.{
  find_record, load_record, require_record, resource_for, project_for_read, visible_part,
  get_record,
}
use latent_db.Kernel.Access.{Granted}
use latent_db.Kernel.Decisions.{
  Answers, read_roles, refused, effective_grants-Answers, authorize-Granted,
}

-- The field is open to the context on the record: it is not restricted, or a grant that the context
-- reads the record by opens it.
pub data Opens (k : Kernel) (ctx : AuthContext) (db : Db) (t : ObjectTypeDef) (r : Rec)
    (key : String) : Type 0 where
  by_trust : is_trusted ctx ≡ true → Opens k ctx db t r key
  unrestricted : is_restricted t key ≡ false → Opens k ctx db t r key
  by_grant :
      (g : PermissionGrant)
      → Memᴰ g (role_grants ctx db)
      → applies k ctx Action.read (resource_for r.object_type) (some r) g ≡ true
      → opens_field key g ≡ true
      → Opens k ctx db t r key

-- `shown` is the stored record with some of its fields, all of them open to the context.
pub record Shows (k : Kernel) (ctx : AuthContext) (db : Db) (t : ObjectTypeDef) (stored shown : Rec)
    : Type 0 where
  pub same_row : shown ≡ record stored { fields = shown.fields }
  pub stored_field : (e : String × Value) → Memᴰ e shown.fields → Memᴰ e stored.fields
  pub open_field : (e : String × Value) → Memᴰ e shown.fields → Opens k ctx db t stored e.0

module _ (k : Kernel) (ctx : AuthContext) (db : Db) (t : ObjectTypeDef) (r : Rec) where
  permitted-Opens :
      (key : String)
      → field_permitted
          (applicable_read_grants k (role_grants ctx db) ctx (resource_for r.object_type) (some r))
          t
          key
        ≡ true
      → Opens k ctx db t r key
  unfolding field_permitted applicable_read_grants
  permitted-Opens key e = elim (Bool-cases (is_restricted t key)) [
    | inr q ↦ unrestricted q
    | inl q ↦
        let a : any (opens_field key) (
              select (applies k ctx Action.read (resource_for r.object_type) (some r))
                (role_grants ctx db))
            ≡ true =
          grind arith in
        let (g, m, o) = mem-of-any (opens_field key) _ a in
        let (n, h) =
          select-mem (applies k ctx Action.read (resource_for r.object_type) (some r))
            (role_grants ctx db) m in
        by_grant g n h o
  ]

  pub visible_part-Shows : Shows k ctx db t r (visible_part k ctx t (role_grants ctx db) r)
  unfolding visible_part project_fields
  visible_part-Shows = record {
    same_row = refl;
    stored_field = λ e m. (select-mem _ r.fields m).0;
    open_field = λ e m. permitted-Opens e.0 (select-mem _ r.fields m).1;
  }

  pub whole-Shows : is_trusted ctx ≡ true → Shows k ctx db t r r
  whole-Shows h = record {
    same_row = refl;
    stored_field = λ e m. m;
    open_field = λ e m. by_trust h;
  }

answered :
    (k : Kernel) (ctx : AuthContext) (s : State) (p : Result (List PermissionGrant) × State)
    (grants : List PermissionGrant)
    → Answers k ctx s p
    → p.0 ≡ ok grants
    → grants ≡ role_grants ctx s.db
answered k ctx s p grants (read_roles t e q) h =
    let i = ap (λ x. x.0) q in let j : ok grants ≡ ok (role_grants ctx s.db) = sym h ∙ i in (cc)
answered k ctx s p grants (refused t x n e q) h = let i = ap (λ x. x.0) q in absurd (grind arith)

pub effective_grants-ok :
    (k : Kernel) (ctx : AuthContext) (s : State) (grants : List PermissionGrant)
    → (effective_grants k ctx s).0 ≡ ok grants
    → grants ≡ role_grants ctx s.db
effective_grants-ok k ctx s grants =
    answered k ctx s (effective_grants k ctx s) grants (effective_grants-Answers k ctx s)

module _ (k : Kernel) (ctx : AuthContext) (t : ObjectTypeDef) (r : Rec) where
  project_by :
      (b : Bool) (s : State) (shown : Rec)
      → is_trusted ctx ≡ b
      → ((if b
            then pure r
            else (effective_grants k ctx >>= λ grants. pure (visible_part k ctx t grants r)))
          s).0
        ≡ ok shown
      → Shows k ctx s.db t r shown
  unfolding pure
  project_by true s shown e h =
      let q : r ≡ shown = (cc) in subst (Shows k ctx s.db t r) q (whole-Shows k ctx s.db t r e)
  project_by false s shown e h =
      let (grants, i, j) =
        bind-ok (effective_grants k ctx) (λ grants. pure (visible_part k ctx t grants r)) s shown
          h in
      let g = effective_grants-ok k ctx s grants i in
      let q : visible_part k ctx t grants r ≡ shown = (cc) in
      subst (Shows k ctx s.db t r) (ap (λ x. visible_part k ctx t x r) (sym g) ∙ q)
        (visible_part-Shows k ctx s.db t r)

  pub project_for_read-Shows :
      (s : State) (shown : Rec)
      → (project_for_read k ctx r t s).0 ≡ ok shown
      → Shows k ctx s.db t r shown
  unfolding project_for_read
  project_for_read-Shows s shown = project_by (is_trusted ctx) s shown refl

-- What a reader of one record answers: the row with the id in the caller's tenant, which the caller
-- may read, with the fields that are open to the caller.
pub record Reads (k : Kernel) (ctx : AuthContext) (id : String) (db : Db) (shown : Rec)
    : Type 0 where
  pub stored : Rec
  pub object_type : ObjectTypeDef
  pub found : find_record ctx.tenant_id id db ≡ some stored
  pub granted : Granted k ctx Action.read (resource_for stored.object_type) (some stored) db
  pub typed : find_type ctx.tenant_id stored.object_type db ≡ some object_type
  pub shows : Shows k ctx db object_type stored shown

module _ (k : Kernel) (ctx : AuthContext) where
  pub require_record-found :
      (id message : String) (s : State) (r : Rec)
      → (require_record k ctx id message s).0 ≡ ok r
      → find_record ctx.tenant_id id s.db ≡ some r
  unfolding require_record load_record
  require_record-found id message s r = required-ok k _ _ s r

  pub require_record-db :
      (id message : String) (s : State) → (require_record k ctx id message s).1.db ≡ s.db
  unfolding require_record load_record
  require_record-db id message s = required-db k _ _ s

  pub load_object_type-found :
      (key : String) (s : State) (t : ObjectTypeDef)
      → (load_object_type k ctx.tenant_id key s).0 ≡ ok t
      → find_type ctx.tenant_id key s.db ≡ some t
  unfolding load_object_type
  load_object_type-found key s t = required-ok k _ _ s t

  pub load_object_type-db :
      (key : String) (s : State) → (load_object_type k ctx.tenant_id key s).1.db ≡ s.db
  unfolding load_object_type
  load_object_type-db key s = required-db k _ _ s

  -- Where `get_record` answers, it answers the row with the id in the caller's tenant; the caller
  -- is granted `read` on that row; and the answer differs from it in its fields only, which are
  -- stored fields, each of them unrestricted, or opened by a grant that the caller reads the row
  -- by, unless the caller is trusted.
  pub get_record-Reads :
      (id : String) (s : State) (shown : Rec)
      → (get_record k ctx id s).0 ≡ ok shown
      → Reads k ctx id s.db shown
  unfolding get_record
  get_record-Reads id s shown h =
      let (r, h1, h2) = bind-ok (require_record k ctx id "record not found") _ s shown h in
      let d1 = require_record-db id "record not found" s in
      let (u, h3, h4) =
        bind-ok (authorize k ctx Action.read (resource_for r.object_type) (some r)) _ _ shown h2 in
      let (g, d2) =
        authorize-Granted k ctx Action.read (resource_for r.object_type) (some r) _ h3 in
      let (t, h5, h6) = bind-ok (load_object_type k ctx.tenant_id r.object_type) _ _ shown h4 in
      let d3 = load_object_type-db r.object_type _ in
      record {
        stored = r;
        object_type = t;
        found = require_record-found id _ s r h1;
        granted =
            subst (λ d. Granted k ctx Action.read (resource_for r.object_type) (some r) d) d1 g;
        typed =
            sym (ap (find_type ctx.tenant_id r.object_type) (d2 ∙ d1))
            ∙ load_object_type-found r.object_type _ t h5;
        shows =
            subst (λ d. Shows k ctx d t r shown) (d3 ∙ d2 ∙ d1)
              (project_for_read-Shows k ctx t r _ shown h6);
      }

answered-db :
    (k : Kernel) (ctx : AuthContext) (s : State) (p : Result (List PermissionGrant) × State)
    → Answers k ctx s p
    → p.1.db ≡ s.db
answered-db k ctx s p (read_roles t e q) = ap (λ x. x.1.db) q ∙ e
answered-db k ctx s p (refused t x n e q) = ap (λ x. x.1.db) q ∙ e

pub effective_grants-db :
    (k : Kernel) (ctx : AuthContext) (s : State) → (effective_grants k ctx s).1.db ≡ s.db
effective_grants-db k ctx s =
    answered-db k ctx s (effective_grants k ctx s) (effective_grants-Answers k ctx s)
