-- ===== src/Models/Classes/Calls.antt =====
-- The mapped classes of `models/`: `CallLog`, `SipEndpoint`.
use civio.Base.{true, false, some, none, [], ◌∷◌, ◌++◌}
use civio.Schema.Ddl.{
  uuid, int, boolean, jsonb, timestamptz, varchar, numeric, array, unbounded_varchar, unique_key,
  index,
}
use civio.Models.Mapping.{references, primary, unique, mapped, MappedClass, timestamps}
use civio.Models.Enums.Calls.{call_status_type}
use civio.Models.Enums.Billing.{billing_scope_type}

abbrev pub call_log_class : MappedClass
call_log_class = record {
  tablename = "call_logs";
  fields =
      (mapped "id" uuid false none (some "uuid_generate_v4()") (primary ∷ []))
      ∷ (mapped "sip_call_id" (varchar 128) false (some false) none [])
      ∷ (mapped "community_id" uuid false (some false) none
          (references "communities" "id" (some "RESTRICT") ∷ []))
      ∷ (mapped "caller_user_id" uuid true none none
          (references "users" "id" (some "SET NULL") ∷ []))
      ∷ (mapped "callee_user_id" uuid true none none
          (references "users" "id" (some "SET NULL") ∷ []))
      ∷ (mapped "caller_sip_uri" (varchar 256) false (some false) none [])
      ∷ (mapped "callee_sip_uri" (varchar 256) false (some false) none [])
      ∷ (mapped "callee_type" (varchar 16) true none none [])
      ∷ (mapped "call_status" call_status_type false (some false) none [])
      ∷ (mapped "start_time" timestamptz false (some false) none [])
      ∷ (mapped "answer_time" timestamptz true none none [])
      ∷ (mapped "end_time" timestamptz true none none [])
      ∷ (mapped "duration_sec" int false (some false) (some "0") [])
      ∷ (mapped "hangup_cause" (varchar 64) true none none [])
      ∷ (mapped "billing_scope" billing_scope_type true none none [])
      ∷ (mapped "token_cost" (numeric 18 4) false (some false) (some "0") [])
      ∷ (mapped "reject_reason" (varchar 64) true none none [])
      ∷ (mapped "metadata" jsonb false (some false) (some "'{}'") [])
      ∷ (mapped "created_at" timestamptz false (some false) (some "now()") [])
      ∷ [];
  unique_keys =
      (unique_key (some "call_logs_community_id_sip_call_id_key")
        ("community_id" ∷ "sip_call_id" ∷ []))
      ∷ [];
  checks = [];
  indexes =
      (index "idx_call_logs_community_start" ("community_id" ∷ "start_time DESC" ∷ []) false none)
      ∷ (index "idx_call_logs_caller" ("caller_user_id" ∷ "start_time DESC" ∷ []) false none)
      ∷ (index "idx_call_logs_callee" ("callee_user_id" ∷ "start_time DESC" ∷ []) false none)
      ∷ [];
}

abbrev pub sip_endpoint_class : MappedClass
sip_endpoint_class = record {
  tablename = "sip_endpoints";
  fields =
      ((mapped "id" uuid false none (some "uuid_generate_v4()") (primary ∷ []))
        ∷ (mapped "user_id" uuid false (some false) none
            (references "users" "id" (some "CASCADE") ∷ unique ∷ []))
        ∷ (mapped "community_id" uuid false (some false) none
            (references "communities" "id" (some "RESTRICT") ∷ []))
        ∷ (mapped "username" (varchar 64) false (some false) none [])
        ∷ (mapped "password_hash" (varchar 128) false (some false) none [])
        ∷ (mapped "transport" (varchar 16) false (some false) (some "'tls'") [])
        ∷ (mapped "context" (varchar 64) false (some false) none [])
        ∷ (mapped "codec_order" (array unbounded_varchar) false (some false)
            (some "ARRAY['opus', 'PCMU', 'PCMA']") [])
        ∷ (mapped "webrtc_enabled" boolean false (some false) (some "TRUE") [])
        ∷ [])
      ++ timestamps;
  unique_keys =
      (unique_key (some "sip_endpoints_community_id_username_key")
        ("community_id" ∷ "username" ∷ []))
      ∷ [];
  checks = [];
  indexes =
      (index "idx_sip_endpoints_user" ("user_id" ∷ []) false none)
      ∷ (index "idx_sip_endpoints_community" ("community_id" ∷ []) false none)
      ∷ [];
}
