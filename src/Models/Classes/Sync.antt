-- ===== src/Models/Classes/Sync.antt =====
-- The mapped classes of `models/`: `ProcessedEvent`, `SyncEvent`, `SyncState`, `AuditLog`.
use civio.Base.{true, false, some, none, [], ◌∷◌}
use civio.Schema.Ddl.{uuid, bigint, jsonb, inet, timestamptz, varchar, unique_key, index}
use civio.Models.Mapping.{references, primary, autoincrement, mapped, MappedClass}
use civio.Models.Enums.Sync.{sync_ack_status_type}

abbrev pub processed_event_class : MappedClass
processed_event_class = record {
  tablename = "processed_events";
  fields =
      (mapped "event_id" (varchar 64) false none none (primary ∷ []))
      ∷ (mapped "consumer_name" (varchar 64) false (some false) none [])
      ∷ (mapped "processed_at" timestamptz false (some false) (some "now()") [])
      ∷ [];
  unique_keys = [];
  checks = [];
  indexes = [];
}

abbrev pub sync_event_class : MappedClass
sync_event_class = record {
  tablename = "sync_events";
  fields =
      (mapped "id" bigint false none none (primary ∷ autoincrement ∷ []))
      ∷ (mapped "community_id" uuid false (some false) none
          (references "communities" "id" (some "CASCADE") ∷ []))
      ∷ (mapped "event_type" (varchar 64) false (some false) none [])
      ∷ (mapped "entity_type" (varchar 32) false (some false) none [])
      ∷ (mapped "entity_id" uuid false (some false) none [])
      ∷ (mapped "version" bigint false (some false) none [])
      ∷ (mapped "payload" jsonb false (some false) none [])
      ∷ (mapped "ack_status" sync_ack_status_type false (some false) (some "'pending'") [])
      ∷ (mapped "created_at" timestamptz false (some false) (some "now()") [])
      ∷ (mapped "acked_at" timestamptz true none none [])
      ∷ [];
  unique_keys =
      (unique_key (some "sync_events_community_id_version_key") ("community_id" ∷ "version" ∷ []))
      ∷ [];
  checks = [];
  indexes =
      (index "idx_sync_events_pending" ("community_id" ∷ "version" ∷ []) false
        (some "ack_status = 'pending'"))
      ∷ [];
}

abbrev pub sync_state_class : MappedClass
sync_state_class = record {
  tablename = "sync_state";
  fields =
      (mapped "community_id" uuid false none none
        (references "communities" "id" (some "CASCADE") ∷ primary ∷ []))
      ∷ (mapped "last_full_sync_at" timestamptz true none none [])
      ∷ (mapped "last_full_sync_version" bigint false (some false) (some "0") [])
      ∷ (mapped "last_delta_version" bigint false (some false) (some "0") [])
      ∷ (mapped "merkle_root" (varchar 128) true none none [])
      ∷ (mapped "health_status" (varchar 16) false (some false) (some "'healthy'") [])
      ∷ (mapped "updated_at" timestamptz false (some false) (some "now()") [])
      ∷ [];
  unique_keys = [];
  checks = [];
  indexes = [];
}

abbrev pub audit_log_class : MappedClass
audit_log_class = record {
  tablename = "audit_log";
  fields =
      (mapped "id" bigint false none none (primary ∷ autoincrement ∷ []))
      ∷ (mapped "community_id" uuid true none none (references "communities" "id" none ∷ []))
      ∷ (mapped "actor_user_id" uuid true none none (references "users" "id" none ∷ []))
      ∷ (mapped "action" (varchar 64) false (some false) none [])
      ∷ (mapped "target_type" (varchar 32) true none none [])
      ∷ (mapped "target_id" uuid true none none [])
      ∷ (mapped "payload" jsonb false (some false) (some "'{}'") [])
      ∷ (mapped "ip_address" inet true none none [])
      ∷ (mapped "user_agent" (varchar 256) true none none [])
      ∷ (mapped "created_at" timestamptz false (some false) (some "now()") [])
      ∷ [];
  unique_keys = [];
  checks = [];
  indexes =
      (index "idx_audit_community_time" ("community_id" ∷ "created_at DESC" ∷ []) false none)
      ∷ (index "idx_audit_actor" ("actor_user_id" ∷ "created_at DESC" ∷ []) false none)
      ∷ [];
}
