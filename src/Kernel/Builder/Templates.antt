-- ===== src/Kernel/Builder/Templates.antt =====
-- crates/kernel/src/builder.rs: the template for finance, and the list of all templates
use latent_db.Prelude.{String, true, false, Option, none, some, List, [], ◌∷◌, ◌==◌, find}
use latent_db.Contracts.Workflow.{WorkflowDef}
use latent_db.Contracts.Field.{
  FieldType, new_field, required, display, restricted, options, references,
}
use latent_db.Contracts.Builder.{
  BuilderDefinition, BuilderTemplate, workflow_state, workflow_transition_def,
}
use latent_db.Kernel.Builder.Catalog.{
  visible_field, simple_object, procurement_template, inventory_template, crm_template, hr_template,
}

abbrev invoice_wf : WorkflowDef
invoice_wf = record {
  key = "invoice_approval";
  object_type = "invoice";
  name = "Invoice Approval";
  initial_state = "draft";
  states =
      workflow_state "draft" false
      ∷ workflow_state "submitted" false
      ∷ workflow_state "approved" false
      ∷ workflow_state "paid" true
      ∷ workflow_state "cancelled" true
      ∷ workflow_state "rejected" true
      ∷ [];
  transitions =
      workflow_transition_def "submit" "draft" "submitted" "Submit" false
      ∷ workflow_transition_def "approve" "submitted" "approved" "Approve" true
      ∷ workflow_transition_def "reject" "submitted" "rejected" "Reject" true
      ∷ workflow_transition_def "mark_paid" "approved" "paid" "Mark paid" false
      ∷ workflow_transition_def "cancel" "draft" "cancelled" "Cancel" false
      ∷ [];
}

abbrev account_object : BuilderDefinition
account_object = record {
  key = "account";
  label = "Account";
  label_plural = some "Accounts";
  description = some "Customer or billing account.";
  icon = some "AC";
  module_name = some "finance";
  display_field = some "name";
  fields =
      display (required (visible_field "name" "Name" FieldType.text))
      ∷ visible_field "email" "Email" FieldType.text
      ∷ options ("standard" ∷ "premium" ∷ "enterprise" ∷ [])
          (visible_field "tier" "Tier" FieldType.enum)
      ∷ [];
  relations = [];
  workflow = none;
  permissions = [];
  approval_rules = [];
  sensitive_ai_visibility_confirmed = false;
}

abbrev invoice_object : BuilderDefinition
invoice_object = record {
  key = "invoice";
  label = "Invoice";
  label_plural = some "Invoices";
  description = some "Customer invoice with approval workflow.";
  icon = some "IN";
  module_name = some "finance";
  display_field = some "number";
  fields =
      display (required (visible_field "number" "Number" FieldType.text))
      ∷ references "account" (visible_field "account_id" "Account" FieldType.record_ref)
      ∷ display (required (visible_field "amount" "Amount" FieldType.money))
      ∷ options ("draft" ∷ "submitted" ∷ "approved" ∷ "paid" ∷ "cancelled" ∷ [])
          (visible_field "status" "Status" FieldType.enum)
      ∷ visible_field "due_date" "Due Date" FieldType.date
      ∷ restricted (new_field "internal_note" "Internal Note" FieldType.long_text)
      ∷ [];
  relations = [];
  workflow = some invoice_wf;
  permissions = [];
  approval_rules = [];
  sensitive_ai_visibility_confirmed = false;
}

abbrev payment_object : BuilderDefinition
payment_object = simple_object "payment" "Payment" "Payments" "finance" "reference" (
    display (required (visible_field "reference" "Reference" FieldType.text))
    ∷ references "invoice" (visible_field "invoice_id" "Invoice" FieldType.record_ref)
    ∷ visible_field "amount" "Amount" FieldType.money
    ∷ visible_field "paid_date" "Paid Date" FieldType.date
    ∷ [])

abbrev budget_object : BuilderDefinition
budget_object = simple_object "budget" "Budget" "Budgets" "finance" "name" (
    display (required (visible_field "name" "Name" FieldType.text))
    ∷ visible_field "period" "Period" FieldType.text
    ∷ visible_field "amount" "Amount" FieldType.money
    ∷ [])

unfoldable pub finance_template : BuilderTemplate
finance_template = record {
  key = "finance";
  name = "Finance";
  description = "Accounts, invoices, payments, and budgets.";
  objects = account_object ∷ invoice_object ∷ payment_object ∷ budget_object ∷ [];
}

unfoldable pub templates : List BuilderTemplate
unfolding finance_template procurement_template inventory_template crm_template hr_template
templates =
    finance_template ∷ procurement_template ∷ inventory_template ∷ crm_template ∷ hr_template ∷ []

unfoldable pub template_by_key : String → Option BuilderTemplate
unfolding templates
template_by_key key = find (λ t. t.key == key) templates
