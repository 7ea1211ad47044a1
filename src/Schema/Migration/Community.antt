-- ===== src/Schema/Migration/Community.antt =====
-- `upgrade` of the initial migration: the tables `communities`, `units`, `users`,
-- `user_unit_relations`, with their indexes.
use civio.Base.{false, some, none, [], ◌∷◌}
use civio.Schema.Ddl.{
  uuid, bigint, int, boolean, jsonb, timestamptz, varchar, enum, column, null_column, foreign_key,
  unique_key, check, index, index_using, Table,
}

abbrev pub communities_table : Table
communities_table = record {
  name = "communities";
  columns =
      (column "id" uuid (some "uuid_generate_v4()"))
      ∷ (column "name" (varchar 128) none)
      ∷ (column "sip_domain" (varchar 128) none)
      ∷ (column "status"
          (enum "community_status" ("pending" ∷ "ready" ∷ "active" ∷ "suspended" ∷ []))
          (some "'pending'"))
      ∷ (column "current_version" bigint (some "0"))
      ∷ (column "metadata" jsonb (some "'{}'"))
      ∷ (column "created_at" timestamptz (some "now()"))
      ∷ (column "updated_at" timestamptz (some "now()"))
      ∷ [];
  primary_key = ("id" ∷ []);
  foreign_keys = [];
  unique_keys = (unique_key none ("sip_domain" ∷ [])) ∷ [];
  checks = [];
  indexes =
      (index_using "idx_communities_name_trgm" ("name" ∷ []) "gin" (("name", "gin_trgm_ops") ∷ []))
      ∷ (index "idx_communities_status" ("status" ∷ []) false none)
      ∷ [];
}

abbrev pub units_table : Table
units_table = record {
  name = "units";
  columns =
      (column "id" uuid (some "uuid_generate_v4()"))
      ∷ (column "community_id" uuid none)
      ∷ (column "unit_code" (varchar 64) none)
      ∷ (null_column "building_no" (varchar 32) none)
      ∷ (null_column "floor_no" int none)
      ∷ (null_column "room_no" (varchar 32) none)
      ∷ (column "ownership_status"
          (enum "ownership_status" ("owned" ∷ "sold" ∷ "pending_transfer" ∷ "rented" ∷ []))
          (some "'owned'"))
      ∷ (column "occupancy_status" (enum "occupancy_status" ("vacant" ∷ "occupied" ∷ "rented" ∷ []))
          (some "'vacant'"))
      ∷ (column "sync_version" bigint (some "0"))
      ∷ (column "metadata" jsonb (some "'{}'"))
      ∷ (column "created_at" timestamptz (some "now()"))
      ∷ (column "updated_at" timestamptz (some "now()"))
      ∷ [];
  primary_key = ("id" ∷ []);
  foreign_keys = (foreign_key "community_id" "communities" "id" (some "RESTRICT")) ∷ [];
  unique_keys =
      (unique_key (some "units_community_id_unit_code_key") ("community_id" ∷ "unit_code" ∷ []))
      ∷ [];
  checks = [];
  indexes =
      (index "idx_units_community" ("community_id" ∷ []) false none)
      ∷ (index "idx_units_ownership" ("ownership_status" ∷ []) false none)
      ∷ [];
}

abbrev pub users_table : Table
users_table = record {
  name = "users";
  columns =
      (column "id" uuid (some "uuid_generate_v4()"))
      ∷ (column "community_id" uuid none)
      ∷ (column "name" (varchar 64) none)
      ∷ (column "mobile" (varchar 32) none)
      ∷ (null_column "email" (varchar 128) none)
      ∷ (column "role" (enum "user_role" ("owner" ∷ "tenant" ∷ "family" ∷ "admin" ∷ "staff" ∷ []))
          none)
      ∷ (column "auth_status" (enum "auth_status" ("pending" ∷ "verified" ∷ "revoked" ∷ []))
          (some "'pending'"))
      ∷ (null_column "call_policy_group" (varchar 32) none)
      ∷ (column "friendship_enabled" boolean (some "TRUE"))
      ∷ (column "metadata" jsonb (some "'{}'"))
      ∷ (column "created_at" timestamptz (some "now()"))
      ∷ (column "updated_at" timestamptz (some "now()"))
      ∷ [];
  primary_key = ("id" ∷ []);
  foreign_keys = (foreign_key "community_id" "communities" "id" (some "RESTRICT")) ∷ [];
  unique_keys =
      (unique_key (some "users_community_id_mobile_key") ("community_id" ∷ "mobile" ∷ [])) ∷ [];
  checks = [];
  indexes =
      (index "idx_users_community" ("community_id" ∷ []) false none)
      ∷ (index "idx_users_mobile" ("mobile" ∷ []) false none)
      ∷ (index "idx_users_role" ("role" ∷ []) false none)
      ∷ [];
}

abbrev pub user_unit_relations_table : Table
user_unit_relations_table = record {
  name = "user_unit_relations";
  columns =
      (column "id" uuid (some "uuid_generate_v4()"))
      ∷ (column "user_id" uuid none)
      ∷ (column "unit_id" uuid none)
      ∷ (column "relation_type" (enum "relation_type" ("resident" ∷ "family" ∷ "tenant" ∷ [])) none)
      ∷ (column "effective_from" timestamptz (some "now()"))
      ∷ (null_column "effective_to" timestamptz none)
      ∷ (column "created_at" timestamptz (some "now()"))
      ∷ [];
  primary_key = ("id" ∷ []);
  foreign_keys =
      (foreign_key "unit_id" "units" "id" (some "CASCADE"))
      ∷ (foreign_key "user_id" "users" "id" (some "CASCADE"))
      ∷ [];
  unique_keys = [];
  checks =
      (check "ck_effective_range" "effective_to IS NULL OR effective_to > effective_from") ∷ [];
  indexes =
      (index "idx_uur_unit" ("unit_id" ∷ []) false (some "effective_to IS NULL"))
      ∷ (index "idx_uur_user" ("user_id" ∷ []) false (some "effective_to IS NULL"))
      ∷ [];
}
