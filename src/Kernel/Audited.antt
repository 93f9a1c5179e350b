-- ===== src/Kernel/Audited.antt =====
-- Changes and the audit events of crates/kernel/src/audit.rs: the guarantee, and the rules for the
-- transactions.
pub mod Rules
pub mod Stores
pub mod Services
use latent_db.Prelude.{ℕ, List, ◌≤◌, ◌<◌, ◌≡◌, refl, ◌⊎◌, inl, inr, ◌∙◌, arith, length}
use latent_db.Contracts.Record.{Rec}
use latent_db.Kernel.Store.{Db, ObjectTypeRow, WorkflowRow, RelationRow}
use latent_db.Kernel.Exec.Frames.{Guarantee}

-- What the audit log is to account for: object types, workflows, records and relations.
pub record Content : Type 0 where
  pub object_types : List ObjectTypeRow
  pub workflows : List WorkflowRow
  pub records : List Rec
  pub relations : List RelationRow

abbrev pub content : Db → Content
content db = record {
  object_types = db.object_types;
  workflows = db.workflows;
  records = db.records;
  relations = db.relations;
}

abbrev pub events_logged : Db → ℕ
events_logged db = length db.audit_logs

-- The log has not shrunk, and it has grown unless the content is as it was.
abbrev pub IsAudited : Db → Db → Type 0
IsAudited a b =
    (events_logged a ≤ events_logged b)
    × ((content b ≡ content a) ⊎ (events_logged a < events_logged b))

pub logged_refl : (n : ℕ) → n ≤ n
logged_refl n = omega arith

pub IsAudited-trans : (a b c : Db) → IsAudited a b → IsAudited b c → IsAudited a c
IsAudited-trans a b c (l, inl e) (m, inl f) = (omega arith, inl (f ∙ e))
IsAudited-trans a b c (l, inl e) (m, inr s) = (omega arith, inr (omega arith))
IsAudited-trans a b c (l, inr s) (m, _) = (omega arith, inr (omega arith))

unfoldable pub audited : Guarantee
audited = record {
  rel = IsAudited;
  rel_refl = λ d. (logged_refl _, inl refl);
  rel_trans = IsAudited-trans;
}
