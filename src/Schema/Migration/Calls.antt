-- ===== src/Schema/Migration/Calls.antt =====
-- `upgrade` of the initial migration: the tables `call_logs`, `sip_endpoints`, with their indexes.
use civio.Base.{false, some, none, [], ◌∷◌}
use civio.Schema.Ddl.{
  uuid, int, boolean, jsonb, timestamptz, varchar, numeric, enum, array, unbounded_varchar, column,
  null_column, foreign_key, unique_key, index, Table,
}

abbrev pub call_logs_table : Table
call_logs_table = record {
  name = "call_logs";
  columns =
      (column "id" uuid (some "uuid_generate_v4()"))
      ∷ (column "sip_call_id" (varchar 128) none)
      ∷ (column "community_id" uuid none)
      ∷ (null_column "caller_user_id" uuid none)
      ∷ (null_column "callee_user_id" uuid none)
      ∷ (column "caller_sip_uri" (varchar 256) none)
      ∷ (column "callee_sip_uri" (varchar 256) none)
      ∷ (null_column "callee_type" (varchar 16) none)
      ∷ (column "call_status"
          (enum "call_status"
            ("init" ∷ "ringing" ∷ "answered" ∷ "ended" ∷ "rejected" ∷ "failed" ∷ []))
          none)
      ∷ (column "start_time" timestamptz none)
      ∷ (null_column "answer_time" timestamptz none)
      ∷ (null_column "end_time" timestamptz none)
      ∷ (column "duration_sec" int (some "0"))
      ∷ (null_column "hangup_cause" (varchar 64) none)
      ∷ (null_column "billing_scope" (enum "billing_scope" ("user" ∷ "community" ∷ "free" ∷ []))
          none)
      ∷ (column "token_cost" (numeric 18 4) (some "0"))
      ∷ (null_column "reject_reason" (varchar 64) none)
      ∷ (column "metadata" jsonb (some "'{}'"))
      ∷ (column "created_at" timestamptz (some "now()"))
      ∷ [];
  primary_key = ("id" ∷ []);
  foreign_keys =
      (foreign_key "callee_user_id" "users" "id" (some "SET NULL"))
      ∷ (foreign_key "caller_user_id" "users" "id" (some "SET NULL"))
      ∷ (foreign_key "community_id" "communities" "id" (some "RESTRICT"))
      ∷ [];
  unique_keys =
      (unique_key (some "call_logs_community_id_sip_call_id_key")
        ("community_id" ∷ "sip_call_id" ∷ []))
      ∷ [];
  checks = [];
  indexes =
      (index "idx_call_logs_callee" ("callee_user_id" ∷ "start_time DESC" ∷ []) false none)
      ∷ (index "idx_call_logs_caller" ("caller_user_id" ∷ "start_time DESC" ∷ []) false none)
      ∷ (index "idx_call_logs_community_start" ("community_id" ∷ "start_time DESC" ∷ []) false none)
      ∷ [];
}

abbrev pub sip_endpoints_table : Table
sip_endpoints_table = record {
  name = "sip_endpoints";
  columns =
      (column "id" uuid (some "uuid_generate_v4()"))
      ∷ (column "user_id" uuid none)
      ∷ (column "community_id" uuid none)
      ∷ (column "username" (varchar 64) none)
      ∷ (column "password_hash" (varchar 128) none)
      ∷ (column "transport" (varchar 16) (some "'tls'"))
      ∷ (column "context" (varchar 64) none)
      ∷ (column "codec_order" (array unbounded_varchar) (some "ARRAY['opus', 'PCMU', 'PCMA']"))
      ∷ (column "webrtc_enabled" boolean (some "TRUE"))
      ∷ (column "created_at" timestamptz (some "now()"))
      ∷ (column "updated_at" timestamptz (some "now()"))
      ∷ [];
  primary_key = ("id" ∷ []);
  foreign_keys =
      (foreign_key "community_id" "communities" "id" (some "RESTRICT"))
      ∷ (foreign_key "user_id" "users" "id" (some "CASCADE"))
      ∷ [];
  unique_keys =
      (unique_key (some "sip_endpoints_community_id_username_key")
        ("community_id" ∷ "username" ∷ []))
      ∷ (unique_key none ("user_id" ∷ []))
      ∷ [];
  checks = [];
  indexes =
      (index "idx_sip_endpoints_community" ("community_id" ∷ []) false none)
      ∷ (index "idx_sip_endpoints_user" ("user_id" ∷ []) false none)
      ∷ [];
}
