-- ===== src/Contracts/Field.antt =====
-- crates/contracts/src/field.rs (the data) and crates/contracts/src/object.rs
use latent_db.Prelude.{
  String, Bool, true, Option, none, some, List, [], ◌==◌, find, select, map, false,
}
use latent_db.Contracts.Json.{Value}

pub data FieldType : Type 0 where
  text long_text number money boolean date date_time enum multi_enum json : FieldType
  record_ref user_ref file_ref formula : FieldType

unfoldable pub FieldType-discrete : Discrete FieldType
FieldType-discrete = hlevel

pub record FieldDefinition : Type 0 where
  pub key : String
  pub label : String
  pub field_type : FieldType
  pub required : Bool
  pub default : Option Value
  pub enum_options : List String
  pub ref_object_type : Option String
  pub restricted : Bool
  pub system : Bool
  pub display : Bool
  pub unique : Bool
  pub indexed : Bool
  pub ai_visible : Bool
  pub read_roles : List String
  pub write_roles : List String
  pub help : Option String

abbrev pub new_field : String → String → FieldType → FieldDefinition
new_field key label field_type = record {
  key = key;
  label = label;
  field_type = field_type;
  required = false;
  default = none;
  enum_options = [];
  ref_object_type = none;
  restricted = false;
  system = false;
  display = false;
  unique = false;
  indexed = false;
  ai_visible = false;
  read_roles = [];
  write_roles = [];
  help = none;
}

-- The chained setters of a field under construction.
abbrev pub required : FieldDefinition → FieldDefinition
required f = record f { required = true }

abbrev pub display : FieldDefinition → FieldDefinition
display f = record f { display = true }

abbrev pub restricted : FieldDefinition → FieldDefinition
restricted f = record f { restricted = true }

abbrev pub ai_visible : FieldDefinition → FieldDefinition
ai_visible f = record f { ai_visible = true }

abbrev pub options : List String → FieldDefinition → FieldDefinition
options opts f = record f { enum_options = opts }

abbrev pub references : String → FieldDefinition → FieldDefinition
references object_type f = record f { ref_object_type = some object_type }

pub record ObjectTypeDef : Type 0 where
  pub id : String
  pub key : String
  pub label : String
  pub label_plural : Option String
  pub description : Option String
  pub system : Bool
  pub workflow_key : Option String
  pub display_field : Option String
  pub module_name : Option String
  pub fields : List FieldDefinition

-- `ObjectTypeDef::field`
abbrev pub field : ObjectTypeDef → String → Option FieldDefinition
field t key = find (λ f. f.key == key) t.fields

-- `ObjectTypeDef::restricted_fields`
unfoldable pub restricted_fields : ObjectTypeDef → List String
restricted_fields t = map (λ f. f.key) (select (λ f. f.restricted) t.fields)
