-- ===== src/Models/Classes/Residents.antt =====
-- The mapped classes of `models/`: `Announcement`, `ConsentRecord`, `FriendMapping`, `Task`.
use civio.Base.{true, false, some, none, [], ◌∷◌, ◌++◌}
use civio.Schema.Ddl.{uuid, boolean, long_text, inet, timestamptz, varchar, check, index}
use civio.Models.Mapping.{references, primary, mapped, MappedClass, timestamps}
use civio.Models.Enums.Residents.{friend_status_type}
use civio.Models.Enums.Calls.{announcement_priority_type}

abbrev pub announcement_class : MappedClass
announcement_class = record {
  tablename = "announcements";
  fields =
      ((mapped "id" uuid false none (some "uuid_generate_v4()") (primary ∷ []))
        ∷ (mapped "community_id" uuid false (some false) none
            (references "communities" "id" (some "CASCADE") ∷ []))
        ∷ (mapped "author_id" uuid false (some false) none (references "users" "id" none ∷ []))
        ∷ (mapped "title" (varchar 256) false (some false) none [])
        ∷ (mapped "body" long_text false (some false) none [])
        ∷ (mapped "priority" announcement_priority_type false (some false) (some "'normal'") [])
        ∷ (mapped "published_at" timestamptz true none none [])
        ∷ (mapped "expires_at" timestamptz true none none [])
        ∷ [])
      ++ timestamps;
  unique_keys = [];
  checks = [];
  indexes =
      (index "idx_announcements_community" ("community_id" ∷ "published_at DESC" ∷ []) false none)
      ∷ [];
}

abbrev pub consent_record_class : MappedClass
consent_record_class = record {
  tablename = "consent_records";
  fields =
      (mapped "id" uuid false none (some "uuid_generate_v4()") (primary ∷ []))
      ∷ (mapped "user_id" uuid false (some false) none
          (references "users" "id" (some "CASCADE") ∷ []))
      ∷ (mapped "consent_type" (varchar 64) false (some false) none [])
      ∷ (mapped "granted" boolean false (some false) none [])
      ∷ (mapped "version" (varchar 16) false (some false) none [])
      ∷ (mapped "granted_at" timestamptz false (some false) (some "now()") [])
      ∷ (mapped "revoked_at" timestamptz true none none [])
      ∷ (mapped "ip_address" inet true none none [])
      ∷ [];
  unique_keys = [];
  checks = [];
  indexes = (index "idx_consent_user_type" ("user_id" ∷ "consent_type" ∷ []) false none) ∷ [];
}

abbrev pub friend_mapping_class : MappedClass
friend_mapping_class = record {
  tablename = "friend_mappings";
  fields =
      ((mapped "id" uuid false none (some "uuid_generate_v4()") (primary ∷ []))
        ∷ (mapped "user_a_id" uuid false (some false) none
            (references "users" "id" (some "CASCADE") ∷ []))
        ∷ (mapped "user_b_id" uuid false (some false) none
            (references "users" "id" (some "CASCADE") ∷ []))
        ∷ (mapped "status" friend_status_type false (some false) (some "'pending'") [])
        ∷ (mapped "initiated_by" uuid false (some false) none (references "users" "id" none ∷ []))
        ∷ (mapped "effective_from" timestamptz false (some false) (some "now()") [])
        ∷ (mapped "effective_to" timestamptz true none none [])
        ∷ [])
      ++ timestamps;
  unique_keys = [];
  checks =
      (check "ck_distinct_users" "user_a_id <> user_b_id")
      ∷ (check "ck_sorted_users" "user_a_id < user_b_id")
      ∷ [];
  indexes =
      (index "idx_friend_active" ("user_a_id" ∷ "user_b_id" ∷ []) false (some "status = 'active'"))
      ∷ [];
}

abbrev pub task_class : MappedClass
task_class = record {
  tablename = "tasks";
  fields =
      ((mapped "id" uuid false none (some "uuid_generate_v4()") (primary ∷ []))
        ∷ (mapped "community_id" uuid false (some false) none
            (references "communities" "id" (some "CASCADE") ∷ []))
        ∷ (mapped "created_by" uuid false (some false) none (references "users" "id" none ∷ []))
        ∷ (mapped "assigned_to" uuid true none none (references "users" "id" none ∷ []))
        ∷ (mapped "title" (varchar 256) false (some false) none [])
        ∷ (mapped "description" long_text true none none [])
        ∷ (mapped "status" (varchar 16) false (some false) (some "'open'") [])
        ∷ (mapped "priority" announcement_priority_type false (some false) (some "'normal'") [])
        ∷ (mapped "due_at" timestamptz true none none [])
        ∷ (mapped "resolved_at" timestamptz true none none [])
        ∷ [])
      ++ timestamps;
  unique_keys = [];
  checks = [];
  indexes = (index "idx_tasks_community_status" ("community_id" ∷ "status" ∷ []) false none) ∷ [];
}
