-- ===== src/Kernel/Access.antt =====
-- Who may do what, as a relation that is independent of the order in which the code looks: the
-- specification of `authorize` and `grants_allow`.
use latent_db.Prelude.{
  String, Bool, true, false, not, ◌&&◌, ◌||◌, Option, ◌≡◌, refl, ◌⊎◌, inl, inr, has_str, any, ◌==◌,
  eq_iff, arith, Memᴰ, mem-of-any, any-of-mem, mem-select, select-mem, mem-flat_map, flat_map-mem,
  holds,
}
use latent_db.Contracts.Auth.{AuthContext}
use latent_db.Contracts.Permission.{Action, Action-discrete, PermissionGrant, matches_resource}
use latent_db.Contracts.Record.{Rec}
use latent_db.Kernel.Host.{Kernel}
use latent_db.Kernel.Store.{Db, RoleRow}
use latent_db.Kernel.Rbac.{
  action_covered_by, scope_ok, conditions_ok, applies, is_trusted, role_grants,
}

module _ (k : Kernel) (ctx : AuthContext) (action : Action) (resource : String)
    (target : Option Rec) where
  -- The grant covers the request.
  pub record Covers (g : PermissionGrant) : Type 0 where
    pub covers_action : (g.action ≡ action) ⊎ (g.action ≡ Action.manage)
    pub covers_resource : matches_resource g resource ≡ true
    pub covers_scope : scope_ok g.scope ctx target ≡ true
    pub covers_conditions :
        (k.flags.enable_advanced_permissions ≡ false)
        ⊎ (conditions_ok k.host g.conditions ctx target ≡ true)

  -- The context is trusted, or a role that it holds in its own tenant has a grant that covers.
  pub data Granted (db : Db) : Type 0 where
    by_trust : is_trusted ctx ≡ true → Granted db
    by_role :
        (row : RoleRow) (g : PermissionGrant)
        → Memᴰ row db.roles
        → row.tenant_id ≡ ctx.tenant_id
        → has_str ctx.role_keys row.key ≡ true
        → Memᴰ g row.grants
        → Covers g
        → Granted db

decided : {A B : Type 0} (d : Dec A) (d' : Dec B) → (holds d || holds d') ≡ true → A ⊎ B
decided (yes a) d' e = inl a
decided (no n) (yes b) e = inr b
decided (no n) (no m) e = grind arith

undecided : {A B : Type 0} (d : Dec A) (d' : Dec B) → A ⊎ B → (holds d || holds d') ≡ true
undecided (yes a) d' h = refl
undecided (no n) (yes b) h = refl
undecided (no n) (no m) (inl a) = absurd (n a)
undecided (no n) (no m) (inr b) = absurd (m b)

either_off : (b c : Bool) → (not b || c) ≡ true → (b ≡ false) ⊎ (c ≡ true)
either_off true c e = inr e
either_off false c e = inl refl

neither_off : (b c : Bool) → (b ≡ false) ⊎ (c ≡ true) → (not b || c) ≡ true
neither_off false c h = refl
neither_off true c (inl e) = grind arith
neither_off true c (inr e) = e

abbrev holds_role : AuthContext → RoleRow → Bool
holds_role ctx r = r.tenant_id == ctx.tenant_id && has_str ctx.role_keys r.key

module _ (k : Kernel) (ctx : AuthContext) (action : Action) (resource : String)
    (target : Option Rec) where
  pub Covers-of-applies :
      (g : PermissionGrant)
      → applies k ctx action resource target g ≡ true
      → Covers k ctx action resource target g
  unfolding applies action_covered_by
  Covers-of-applies g e = record {
    covers_action =
        decided (Action-discrete g.action action) (Action-discrete g.action Action.manage)
          (grind arith);
    covers_resource = grind arith;
    covers_scope = grind arith;
    covers_conditions =
        either_off k.flags.enable_advanced_permissions
          (conditions_ok k.host g.conditions ctx target) (grind arith);
  }

  pub applies-of-Covers :
      (g : PermissionGrant)
      → Covers k ctx action resource target g
      → applies k ctx action resource target g ≡ true
  unfolding applies action_covered_by
  applies-of-Covers g c =
      let a =
        undecided (Action-discrete g.action action) (Action-discrete g.action Action.manage)
          c.covers_action in
      let o = neither_off k.flags.enable_advanced_permissions _ c.covers_conditions in
      let r = c.covers_resource in let t = c.covers_scope in grind arith

  pub Granted-of-any :
      (db : Db)
      → any (applies k ctx action resource target) (role_grants ctx db) ≡ true
      → Granted k ctx action resource target db
  unfolding role_grants
  Granted-of-any db e =
      let (g, m, h) = mem-of-any (applies k ctx action resource target) _ e in
      let (row, i, j) = flat_map-mem (λ (r : RoleRow). r.grants) _ m in
      let (i', h') = select-mem (holds_role ctx) db.roles i in
      let t = eq_iff row.tenant_id ctx.tenant_id in
      by_role row g i' (grind arith) (grind arith) j (Covers-of-applies g h)

  pub any-of-Covers :
      (db : Db) (row : RoleRow) (g : PermissionGrant)
      → Memᴰ row db.roles
      → row.tenant_id ≡ ctx.tenant_id
      → has_str ctx.role_keys row.key ≡ true
      → Memᴰ g row.grants
      → Covers k ctx action resource target g
      → any (applies k ctx action resource target) (role_grants ctx db) ≡ true
  unfolding role_grants
  any-of-Covers db row g m e r n c =
      let t = eq_iff row.tenant_id ctx.tenant_id in
      any-of-mem _ _
        (mem-flat_map (λ (x : RoleRow). x.grants) _
          (mem-select (holds_role ctx) db.roles m (grind arith)) n)
        (applies-of-Covers g c)
