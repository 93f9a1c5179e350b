-- ===== src/Kernel/Edits.antt =====
-- The loop over provided values in `create_record` and `update_record` of crates/kernel/src/record.rs.
use latent_db.Prelude.{
  String, Bool, true, false, not, ◌&&◌, Option, some, List, [], ◌∷◌, ◌≡◌, refl, ap, sym, subst, ◌⊎◌,
  inl, inr, if◌then◌else◌, arith, Memᴰ,
}
use mathlib.Core.List.Memᴰ
use latent_db.Contracts.Json.{Value, JsonMap}
use latent_db.Contracts.Error.{ApiError, ok}
use latent_db.Contracts.Auth.{AuthContext}
use latent_db.Contracts.Permission.{PermissionGrant}
use latent_db.Contracts.Field.{ObjectTypeDef, FieldDefinition, field}
use latent_db.Kernel.Host.{Kernel}
use latent_db.Kernel.Exec.{State, pure, raise, ensure, or_raise}
use latent_db.Kernel.Audit.{audit_denial}
use latent_db.Kernel.Rbac.{field_permitted}
use latent_db.Kernel.Records.{refuse_field, check_field, set_fields}
use latent_db.Kernel.Exec.Returns.{bind-ok, or_raise-ok, ok_inj}

-- The key names a field that is not system-managed, and that is open to be written.
pub record Writable (t : ObjectTypeDef) (grants : List PermissionGrant) (key : String)
    : Type 0 where
  pub written : FieldDefinition
  pub known : field t key ≡ some written
  pub unmanaged : written.system ≡ false
  pub opened : (written.restricted ≡ false) ⊎ (field_permitted grants t key ≡ true)

-- The values written one after another.
abbrev pub write_all : (JsonMap → String → Value → JsonMap) → JsonMap → JsonMap → JsonMap
write_all write [] m = m
write_all write ((key, v) ∷ rest) m = write_all write rest (write m key v)

module _ (k : Kernel) (ctx : AuthContext) (resource : String) (rid : Option String)
    (t : ObjectTypeDef) (grants : List PermissionGrant) where
  refused_by :
      (key : String) (b : Bool) (s : State) (u : Unit {0})
      → ((if b then refuse_field k ctx resource rid key else pure tt) s).0 ≡ ok u
      → b ≡ false
  unfolding refuse_field raise
  refused_by key false s u h = refl
  refused_by key true s u h =
      let (v, a, h') = bind-ok (audit_denial k ctx "write_field" resource rid) _ s u h in
      absurd (grind arith)

  ensured :
      (b : Bool) (e : ApiError) (s : State) (u : Unit {0}) → (ensure b e s).0 ≡ ok u → b ≡ true
  unfolding raise
  ensured true e s u h = refl
  ensured false e s u h = absurd (grind arith)

  open_or : (b c : Bool) → (b && not c) ≡ false → (b ≡ false) ⊎ (c ≡ true)
  open_or false c e = inl refl
  open_or true true e = inr refl
  open_or true false e = absurd (grind arith)

  check_field-Writable :
      (key : String) (s : State) (u : Unit {0})
      → (check_field k ctx resource rid t grants key s).0 ≡ ok u
      → Writable t grants key
  unfolding check_field
  check_field-Writable key s u h =
      let (f, a1, h1) = bind-ok (or_raise (field t key) _) _ s u h in
      let (v, a2, h2) = bind-ok (ensure (not f.system) _) _ _ u h1 in
      let c = refused_by key (f.restricted && not (field_permitted grants t key)) _ u h2 in
      let n = ensured (not f.system) _ _ v a2 in
      record {
        written = f;
        known = or_raise-ok _ _ _ f a1;
        unmanaged = grind arith;
        opened = open_or f.restricted (field_permitted grants t key) c;
      }

  -- Where the loop over the provided values goes through, each provided key names a field of the type
  -- that is not system-managed and that is unrestricted or opened by the grants; and the outcome is
  -- the values written one after another, with none left out.
  pub set_fields-Writable :
      (write : JsonMap → String → Value → JsonMap) (given m m' : JsonMap) (s : State)
      → (set_fields k ctx resource rid t grants write given m s).0 ≡ ok m'
      → (m' ≡ write_all write given m)
        × ((key : String) (v : Value) → Memᴰ (key, v) given → Writable t grants key)
  unfolding set_fields pure
  set_fields-Writable write [] m m' s h = (sym (ok_inj h), λ key v n. absurd (Memᴰ.not-nil n))
  set_fields-Writable write ((j, w) ∷ rest) m m' s h =
      let (u, a, h1) = bind-ok (check_field k ctx resource rid t grants j) _ s m' h in
      let c = check_field-Writable j s u a in
      let (e, all) = set_fields-Writable write rest (write m j w) m' _ h1 in
      (
        e,
        λ key v n. elim (Memᴰ.cases_cons n) [
          | inl q ↦ subst (Writable t grants) (sym (ap (λ x. x.0) q)) c
          | inr i ↦ all key v i
        ],
      )
