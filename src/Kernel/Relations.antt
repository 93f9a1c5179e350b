-- ===== src/Kernel/Relations.antt =====
-- The relationship graph of crates/kernel/src/record.rs.
use latent_db.Prelude.{
  String, Bool, ◌&&◌, ◌||◌, none, some, List, [], ◌∷◌, ◌++◌, any, map, select, ◌==◌, if◌then◌else◌,
}
use latent_db.Contracts.Json.{string, object, from_map}
use latent_db.Contracts.Error.{ok}
use latent_db.Contracts.Auth.{AuthContext}
use latent_db.Contracts.Permission.{Action}
use latent_db.Contracts.Record.{Rec}
use latent_db.Kernel.Host.{Kernel}
use latent_db.Kernel.Store.{Db, RelationRow}
use latent_db.Kernel.Exec.{
  Exec, ◌>>=◌, ◌>>◌, pure, fresh_id, current_time, query, execute, transaction,
}
use latent_db.Kernel.Audit.{event_from, insert_audit}
use latent_db.Kernel.Rbac.{authorize}
use latent_db.Kernel.Records.{require_record, resource_for}

pub record RelationEdge : Type 0 where
  pub id : String
  pub relation_type : String
  pub direction : String
  pub record_id : String
  pub created_at : String

-- The unique keys of the table: the id, and the edge itself.
abbrev same_edge : RelationRow → RelationRow → Bool
same_edge a b =
    a.id == b.id
    || (a.tenant_id == b.tenant_id
        && (a.from_record == b.from_record
            && (a.to_record == b.to_record && a.relation_type == b.relation_type)))

-- `INSERT OR IGNORE INTO relations`
unfoldable pub add_relation : RelationRow → Db → Db
add_relation row db = record db {
  relations =
      if any (λ r. same_edge r row) db.relations then db.relations else db.relations ++ row ∷ [];
}

-- The transaction of `relate`.
unfoldable pub store_relation :
    Kernel → AuthContext → Rec → String → String → String → String → String → Exec (Unit {0})
unfolding add_relation
store_relation k ctx from from_id to_id relation_type id now = transaction k (do
  execute k λ db. ok (
      add_relation
        (record {
          id = id;
          tenant_id = ctx.tenant_id;
          from_record = from_id;
          to_record = to_id;
          relation_type = relation_type;
          created_by = ctx.actor_id;
          created_at = now;
        })
        db)
  ev ←
      event_from k ctx "relation.create" (some from.object_type) (some from_id) none
        (some (object (from_map (("to", string to_id) ∷ ("type", string relation_type) ∷ []))))
  insert_audit k ev)

unfoldable pub relate : Kernel → AuthContext → String → String → String → Exec RelationEdge
relate k ctx from_id to_id relation_type = do
  from ← require_record k ctx from_id "from record not found"
  to ← require_record k ctx to_id "to record not found"
  authorize k ctx Action.relate (resource_for from.object_type) (some from)
  authorize k ctx Action.read (resource_for to.object_type) (some to)
  id ← fresh_id k
  now ← current_time k
  store_relation k ctx from from_id to_id relation_type id now
  pure (record {
    id = id;
    relation_type = relation_type;
    direction = "out";
    record_id = to_id;
    created_at = now;
  })

-- An edge as the record at one of its ends sees it.
abbrev pub edge_at : String → RelationRow → RelationEdge
edge_at record_id row = record {
  id = row.id;
  relation_type = row.relation_type;
  direction = if row.from_record == record_id then "out" else "in";
  record_id = if row.from_record == record_id then row.to_record else row.from_record;
  created_at = row.created_at;
}

abbrev pub touches : String → String → RelationRow → Bool
touches tenant_id record_id row =
    row.tenant_id == tenant_id && (row.from_record == record_id || row.to_record == record_id)

unfoldable pub get_relations : Kernel → AuthContext → String → Exec (List RelationEdge)
get_relations k ctx record_id = do
  r ← require_record k ctx record_id "record not found"
  authorize k ctx Action.read (resource_for r.object_type) (some r)
  query k (λ db. map (edge_at record_id) (select (touches ctx.tenant_id record_id) db.relations))
