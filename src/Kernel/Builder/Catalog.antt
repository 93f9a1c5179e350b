-- ===== src/Kernel/Builder/Catalog.antt =====
-- crates/kernel/src/builder.rs: the built-in templates but the first
use latent_db.Prelude.{String, false, none, some, List, [], ◌∷◌}
use latent_db.Contracts.Field.{
  FieldDefinition, FieldType, new_field, required, display, restricted, ai_visible, options,
  references,
}
use latent_db.Contracts.Builder.{BuilderDefinition, BuilderTemplate}

-- `field`
abbrev pub visible_field : String → String → FieldType → FieldDefinition
visible_field key label kind = ai_visible (new_field key label kind)

abbrev pub simple_object :
    String → String → String → String → String → List FieldDefinition → BuilderDefinition
simple_object key label plural module_name display_field fields = record {
  key = key;
  label = label;
  label_plural = some plural;
  description = none;
  icon = none;
  module_name = some module_name;
  display_field = some display_field;
  fields = fields;
  relations = [];
  workflow = none;
  permissions = [];
  approval_rules = [];
  sensitive_ai_visibility_confirmed = false;
}

abbrev vendor_object : BuilderDefinition
vendor_object = simple_object "vendor" "Vendor" "Vendors" "procurement" "name" (
    display (required (visible_field "name" "Name" FieldType.text))
    ∷ visible_field "email" "Email" FieldType.text
    ∷ options ("low" ∷ "medium" ∷ "high" ∷ []) (visible_field "risk" "Risk" FieldType.enum)
    ∷ [])

abbrev purchase_request_object : BuilderDefinition
purchase_request_object =
    simple_object "purchase_request" "Purchase Request" "Purchase Requests" "procurement" "number" (
      display (required (visible_field "number" "Number" FieldType.text))
      ∷ visible_field "item" "Item" FieldType.text
      ∷ visible_field "estimated_cost" "Estimated Cost" FieldType.money
      ∷ options ("requested" ∷ "approved" ∷ "ordered" ∷ "rejected" ∷ [])
          (visible_field "status" "Status" FieldType.enum)
      ∷ [])

abbrev purchase_order_object : BuilderDefinition
purchase_order_object =
    simple_object "purchase_order" "Purchase Order" "Purchase Orders" "procurement" "number" (
      display (required (visible_field "number" "Number" FieldType.text))
      ∷ references "vendor" (visible_field "vendor_id" "Vendor" FieldType.record_ref)
      ∷ visible_field "amount" "Amount" FieldType.money
      ∷ [])

abbrev receipt_object : BuilderDefinition
receipt_object = simple_object "receipt" "Receipt" "Receipts" "procurement" "number" (
    display (required (visible_field "number" "Number" FieldType.text))
    ∷ visible_field "quantity" "Quantity" FieldType.number
    ∷ [])

unfoldable pub procurement_template : BuilderTemplate
procurement_template = record {
  key = "procurement";
  name = "Procurement";
  description = "Vendors, requests, orders, and receipts.";
  objects = vendor_object ∷ purchase_request_object ∷ purchase_order_object ∷ receipt_object ∷ [];
}

abbrev warehouse_object : BuilderDefinition
warehouse_object = simple_object "warehouse" "Warehouse" "Warehouses" "inventory" "name" (
    display (required (visible_field "name" "Name" FieldType.text))
    ∷ visible_field "location" "Location" FieldType.text
    ∷ [])

abbrev product_object : BuilderDefinition
product_object = simple_object "product" "Product" "Products" "inventory" "name" (
    display (required (visible_field "sku" "SKU" FieldType.text))
    ∷ display (required (visible_field "name" "Name" FieldType.text))
    ∷ visible_field "price" "Price" FieldType.money
    ∷ visible_field "quantity" "Quantity" FieldType.number
    ∷ visible_field "reorder_point" "Reorder Point" FieldType.number
    ∷ [])

abbrev inventory_movement_object : BuilderDefinition
inventory_movement_object =
    simple_object "inventory_movement" "Inventory Movement" "Inventory Movements" "inventory"
      "reference"
      (display (required (visible_field "reference" "Reference" FieldType.text))
        ∷ visible_field "quantity" "Quantity" FieldType.number
        ∷ [])

unfoldable pub inventory_template : BuilderTemplate
inventory_template = record {
  key = "inventory";
  name = "Inventory";
  description = "Warehouses, products, and inventory movements.";
  objects = warehouse_object ∷ product_object ∷ inventory_movement_object ∷ [];
}

abbrev contact_object : BuilderDefinition
contact_object = simple_object "contact" "Contact" "Contacts" "crm" "name" (
    display (required (visible_field "name" "Name" FieldType.text))
    ∷ visible_field "email" "Email" FieldType.text
    ∷ [])

unfoldable pub crm_template : BuilderTemplate
crm_template = record {
  key = "crm";
  name = "CRM";
  description = "Accounts, contacts, leads, and deals.";
  objects = contact_object ∷ [];
}

abbrev employee_object : BuilderDefinition
employee_object = simple_object "employee" "Employee" "Employees" "hr" "name" (
    display (required (visible_field "name" "Name" FieldType.text))
    ∷ visible_field "email" "Email" FieldType.text
    ∷ restricted (new_field "salary" "Salary" FieldType.money)
    ∷ [])

unfoldable pub hr_template : BuilderTemplate
hr_template = record {
  key = "hr";
  name = "HR";
  description = "Employees and leave requests.";
  objects = employee_object ∷ [];
}
