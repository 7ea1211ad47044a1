-- ===== src/Schema/Migration/Sync.antt =====
-- `upgrade` of the initial migration: the tables `processed_events`, `sync_events`, `sync_state`,
-- `audit_log`, with their indexes.
use civio.Base.{false, some, none, [], ◌∷◌}
use civio.Schema.Ddl.{
  uuid, bigint, jsonb, inet, timestamptz, varchar, enum, column, null_column, serial, foreign_key,
  unique_key, index, Table,
}

abbrev pub processed_events_table : Table
processed_events_table = record {
  name = "processed_events";
  columns =
      (column "event_id" (varchar 64) none)
      ∷ (column "consumer_name" (varchar 64) none)
      ∷ (column "processed_at" timestamptz (some "now()"))
      ∷ [];
  primary_key = ("event_id" ∷ []);
  foreign_keys = [];
  unique_keys = [];
  checks = [];
  indexes = [];
}

abbrev pub sync_events_table : Table
sync_events_table = record {
  name = "sync_events";
  columns =
      (serial "id" bigint)
      ∷ (column "community_id" uuid none)
      ∷ (column "event_type" (varchar 64) none)
      ∷ (column "entity_type" (varchar 32) none)
      ∷ (column "entity_id" uuid none)
      ∷ (column "version" bigint none)
      ∷ (column "payload" jsonb none)
      ∷ (column "ack_status" (enum "sync_ack_status" ("pending" ∷ "acked" ∷ "failed" ∷ []))
          (some "'pending'"))
      ∷ (column "created_at" timestamptz (some "now()"))
      ∷ (null_column "acked_at" timestamptz none)
      ∷ [];
  primary_key = ("id" ∷ []);
  foreign_keys = (foreign_key "community_id" "communities" "id" (some "CASCADE")) ∷ [];
  unique_keys =
      (unique_key (some "sync_events_community_id_version_key") ("community_id" ∷ "version" ∷ []))
      ∷ [];
  checks = [];
  indexes =
      (index "idx_sync_events_pending" ("community_id" ∷ "version" ∷ []) false
        (some "ack_status = 'pending'"))
      ∷ [];
}

abbrev pub sync_state_table : Table
sync_state_table = record {
  name = "sync_state";
  columns =
      (column "community_id" uuid none)
      ∷ (null_column "last_full_sync_at" timestamptz none)
      ∷ (column "last_full_sync_version" bigint (some "0"))
      ∷ (column "last_delta_version" bigint (some "0"))
      ∷ (null_column "merkle_root" (varchar 128) none)
      ∷ (column "health_status" (varchar 16) (some "'healthy'"))
      ∷ (column "updated_at" timestamptz (some "now()"))
      ∷ [];
  primary_key = ("community_id" ∷ []);
  foreign_keys = (foreign_key "community_id" "communities" "id" (some "CASCADE")) ∷ [];
  unique_keys = [];
  checks = [];
  indexes = [];
}

abbrev pub audit_log_table : Table
audit_log_table = record {
  name = "audit_log";
  columns =
      (serial "id" bigint)
      ∷ (null_column "community_id" uuid none)
      ∷ (null_column "actor_user_id" uuid none)
      ∷ (column "action" (varchar 64) none)
      ∷ (null_column "target_type" (varchar 32) none)
      ∷ (null_column "target_id" uuid none)
      ∷ (column "payload" jsonb (some "'{}'"))
      ∷ (null_column "ip_address" inet none)
      ∷ (null_column "user_agent" (varchar 256) none)
      ∷ (column "created_at" timestamptz (some "now()"))
      ∷ [];
  primary_key = ("id" ∷ []);
  foreign_keys =
      (foreign_key "actor_user_id" "users" "id" none)
      ∷ (foreign_key "community_id" "communities" "id" none)
      ∷ [];
  unique_keys = [];
  checks = [];
  indexes =
      (index "idx_audit_actor" ("actor_user_id" ∷ "created_at DESC" ∷ []) false none)
      ∷ (index "idx_audit_community_time" ("community_id" ∷ "created_at DESC" ∷ []) false none)
      ∷ [];
}
