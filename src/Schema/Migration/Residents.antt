-- ===== src/Schema/Migration/Residents.antt =====
-- `upgrade` of the initial migration: the tables `announcements`, `consent_records`,
-- `friend_mappings`, `tasks`, with their indexes.
use civio.Base.{false, some, none, [], ◌∷◌}
use civio.Schema.Ddl.{
  uuid, boolean, long_text, inet, timestamptz, varchar, enum, column, null_column, foreign_key,
  check, index, Table,
}

abbrev pub announcements_table : Table
announcements_table = record {
  name = "announcements";
  columns =
      (column "id" uuid (some "uuid_generate_v4()"))
      ∷ (column "community_id" uuid none)
      ∷ (column "author_id" uuid none)
      ∷ (column "title" (varchar 256) none)
      ∷ (column "body" long_text none)
      ∷ (column "priority"
          (enum "announcement_priority" ("low" ∷ "normal" ∷ "high" ∷ "urgent" ∷ []))
          (some "'normal'"))
      ∷ (null_column "published_at" timestamptz none)
      ∷ (null_column "expires_at" timestamptz none)
      ∷ (column "created_at" timestamptz (some "now()"))
      ∷ (column "updated_at" timestamptz (some "now()"))
      ∷ [];
  primary_key = ("id" ∷ []);
  foreign_keys =
      (foreign_key "author_id" "users" "id" none)
      ∷ (foreign_key "community_id" "communities" "id" (some "CASCADE"))
      ∷ [];
  unique_keys = [];
  checks = [];
  indexes =
      (index "idx_announcements_community" ("community_id" ∷ "published_at DESC" ∷ []) false none)
      ∷ [];
}

abbrev pub consent_records_table : Table
consent_records_table = record {
  name = "consent_records";
  columns =
      (column "id" uuid (some "uuid_generate_v4()"))
      ∷ (column "user_id" uuid none)
      ∷ (column "consent_type" (varchar 64) none)
      ∷ (column "granted" boolean none)
      ∷ (column "version" (varchar 16) none)
      ∷ (column "granted_at" timestamptz (some "now()"))
      ∷ (null_column "revoked_at" timestamptz none)
      ∷ (null_column "ip_address" inet none)
      ∷ [];
  primary_key = ("id" ∷ []);
  foreign_keys = (foreign_key "user_id" "users" "id" (some "CASCADE")) ∷ [];
  unique_keys = [];
  checks = [];
  indexes = (index "idx_consent_user_type" ("user_id" ∷ "consent_type" ∷ []) false none) ∷ [];
}

abbrev pub friend_mappings_table : Table
friend_mappings_table = record {
  name = "friend_mappings";
  columns =
      (column "id" uuid (some "uuid_generate_v4()"))
      ∷ (column "user_a_id" uuid none)
      ∷ (column "user_b_id" uuid none)
      ∷ (column "status" (enum "friend_status" ("pending" ∷ "active" ∷ "blocked" ∷ "removed" ∷ []))
          (some "'pending'"))
      ∷ (column "initiated_by" uuid none)
      ∷ (column "effective_from" timestamptz (some "now()"))
      ∷ (null_column "effective_to" timestamptz none)
      ∷ (column "created_at" timestamptz (some "now()"))
      ∷ (column "updated_at" timestamptz (some "now()"))
      ∷ [];
  primary_key = ("id" ∷ []);
  foreign_keys =
      (foreign_key "initiated_by" "users" "id" none)
      ∷ (foreign_key "user_a_id" "users" "id" (some "CASCADE"))
      ∷ (foreign_key "user_b_id" "users" "id" (some "CASCADE"))
      ∷ [];
  unique_keys = [];
  checks =
      (check "ck_sorted_users" "user_a_id < user_b_id")
      ∷ (check "ck_distinct_users" "user_a_id <> user_b_id")
      ∷ [];
  indexes =
      (index "idx_friend_active" ("user_a_id" ∷ "user_b_id" ∷ []) false (some "status = 'active'"))
      ∷ [];
}

abbrev pub tasks_table : Table
tasks_table = record {
  name = "tasks";
  columns =
      (column "id" uuid (some "uuid_generate_v4()"))
      ∷ (column "community_id" uuid none)
      ∷ (column "created_by" uuid none)
      ∷ (null_column "assigned_to" uuid none)
      ∷ (column "title" (varchar 256) none)
      ∷ (null_column "description" long_text none)
      ∷ (column "status" (varchar 16) (some "'open'"))
      ∷ (column "priority"
          (enum "announcement_priority" ("low" ∷ "normal" ∷ "high" ∷ "urgent" ∷ []))
          (some "'normal'"))
      ∷ (null_column "due_at" timestamptz none)
      ∷ (null_column "resolved_at" timestamptz none)
      ∷ (column "created_at" timestamptz (some "now()"))
      ∷ (column "updated_at" timestamptz (some "now()"))
      ∷ [];
  primary_key = ("id" ∷ []);
  foreign_keys =
      (foreign_key "assigned_to" "users" "id" none)
      ∷ (foreign_key "community_id" "communities" "id" (some "CASCADE"))
      ∷ (foreign_key "created_by" "users" "id" none)
      ∷ [];
  unique_keys = [];
  checks = [];
  indexes = (index "idx_tasks_community_status" ("community_id" ∷ "status" ∷ []) false none) ∷ [];
}
