-- ===== src/Schema/Migration/Billing.antt =====
-- `upgrade` of the initial migration: the tables `payment_orders`, `token_ledger`, `billing_records`,
-- with their indexes.
use civio.Base.{false, some, none, [], ◌∷◌}
use civio.Schema.Ddl.{
  uuid, bigint, timestamptz, varchar, numeric, enum, column, null_column, serial, foreign_key,
  unique_key, check, index, Table,
}

abbrev pub payment_orders_table : Table
payment_orders_table = record {
  name = "payment_orders";
  columns =
      (column "id" uuid (some "uuid_generate_v4()"))
      ∷ (column "user_id" uuid none)
      ∷ (column "community_id" uuid none)
      ∷ (column "provider" (varchar 32) none)
      ∷ (null_column "provider_ref" (varchar 128) none)
      ∷ (column "amount" (numeric 18 2) none)
      ∷ (column "currency" (varchar 8) (some "'TWD'"))
      ∷ (column "token_credit" (numeric 18 4) none)
      ∷ (column "status" (varchar 16) (some "'pending'"))
      ∷ (column "created_at" timestamptz (some "now()"))
      ∷ (null_column "completed_at" timestamptz none)
      ∷ [];
  primary_key = ("id" ∷ []);
  foreign_keys =
      (foreign_key "community_id" "communities" "id" none)
      ∷ (foreign_key "user_id" "users" "id" none)
      ∷ [];
  unique_keys = [];
  checks = [];
  indexes =
      (index "idx_payment_provider_ref" ("provider" ∷ "provider_ref" ∷ []) false none)
      ∷ (index "idx_payment_user" ("user_id" ∷ "created_at DESC" ∷ []) false none)
      ∷ [];
}

abbrev pub token_ledger_table : Table
token_ledger_table = record {
  name = "token_ledger";
  columns =
      (serial "id" bigint)
      ∷ (column "scope" (enum "token_scope" ("community" ∷ "user" ∷ [])) none)
      ∷ (column "community_id" uuid none)
      ∷ (null_column "user_id" uuid none)
      ∷ (column "delta" (numeric 18 4) none)
      ∷ (column "balance_after" (numeric 18 4) none)
      ∷ (column "reason" (varchar 64) none)
      ∷ (null_column "external_ref" (varchar 128) none)
      ∷ (null_column "idempotency_key" (varchar 128) none)
      ∷ (column "created_at" timestamptz (some "now()"))
      ∷ [];
  primary_key = ("id" ∷ []);
  foreign_keys =
      (foreign_key "community_id" "communities" "id" (some "RESTRICT"))
      ∷ (foreign_key "user_id" "users" "id" (some "SET NULL"))
      ∷ [];
  unique_keys = (unique_key none ("idempotency_key" ∷ [])) ∷ [];
  checks =
      (check "ck_scope_owner"
        "(scope = 'community' AND user_id IS NULL) OR (scope = 'user' AND user_id IS NOT NULL)")
      ∷ [];
  indexes =
      (index "idx_ledger_community" ("community_id" ∷ "created_at DESC" ∷ []) false none)
      ∷ (index "idx_ledger_user" ("user_id" ∷ "created_at DESC" ∷ []) false
          (some "user_id IS NOT NULL"))
      ∷ [];
}

abbrev pub billing_records_table : Table
billing_records_table = record {
  name = "billing_records";
  columns =
      (column "id" uuid (some "uuid_generate_v4()"))
      ∷ (column "call_id" uuid none)
      ∷ (column "community_id" uuid none)
      ∷ (column "token_cost" (numeric 18 4) none)
      ∷ (column "billing_scope" (enum "billing_scope" ("user" ∷ "community" ∷ "free" ∷ [])) none)
      ∷ (null_column "ledger_entry_id" bigint none)
      ∷ (column "created_at" timestamptz (some "now()"))
      ∷ [];
  primary_key = ("id" ∷ []);
  foreign_keys =
      (foreign_key "call_id" "call_logs" "id" (some "RESTRICT"))
      ∷ (foreign_key "community_id" "communities" "id" none)
      ∷ (foreign_key "ledger_entry_id" "token_ledger" "id" none)
      ∷ [];
  unique_keys = (unique_key none ("call_id" ∷ [])) ∷ [];
  checks = [];
  indexes =
      (index "idx_billing_community" ("community_id" ∷ "created_at DESC" ∷ []) false none) ∷ [];
}
