-- ===== src/Models/Classes/Community.antt =====
-- The mapped classes of `models/`: `Community`, `Unit`, `User`, `UserUnitRelation`.
use civio.Base.{true, false, some, none, [], ◌∷◌, ◌++◌}
use civio.Schema.Ddl.{
  uuid, bigint, int, boolean, jsonb, timestamptz, varchar, unique_key, check, index, index_using,
}
use civio.Models.Mapping.{references, primary, unique, mapped, MappedClass, timestamps}
use civio.Models.Enums.{user_role_type, auth_status_type}
use civio.Models.Enums.Community.{community_status_type, ownership_status_type, relation_type_type}
use civio.Models.Enums.Residents.{occupancy_status_type}

abbrev pub community_class : MappedClass
community_class = record {
  tablename = "communities";
  fields =
      ((mapped "id" uuid false none (some "uuid_generate_v4()") (primary ∷ []))
        ∷ (mapped "name" (varchar 128) false (some false) none [])
        ∷ (mapped "sip_domain" (varchar 128) false (some false) none (unique ∷ []))
        ∷ (mapped "status" community_status_type false (some false) (some "'pending'") [])
        ∷ (mapped "current_version" bigint false (some false) (some "0") [])
        ∷ (mapped "metadata" jsonb false (some false) (some "'{}'") [])
        ∷ [])
      ++ timestamps;
  unique_keys = [];
  checks = [];
  indexes =
      (index "idx_communities_status" ("status" ∷ []) false none)
      ∷ (index_using "idx_communities_name_trgm" ("name" ∷ []) "gin"
          (("name", "gin_trgm_ops") ∷ []))
      ∷ [];
}

abbrev pub unit_class : MappedClass
unit_class = record {
  tablename = "units";
  fields =
      ((mapped "id" uuid false none (some "uuid_generate_v4()") (primary ∷ []))
        ∷ (mapped "community_id" uuid false (some false) none
            (references "communities" "id" (some "RESTRICT") ∷ []))
        ∷ (mapped "unit_code" (varchar 64) false (some false) none [])
        ∷ (mapped "building_no" (varchar 32) true none none [])
        ∷ (mapped "floor_no" int true none none [])
        ∷ (mapped "room_no" (varchar 32) true none none [])
        ∷ (mapped "ownership_status" ownership_status_type false (some false) (some "'owned'") [])
        ∷ (mapped "occupancy_status" occupancy_status_type false (some false) (some "'vacant'") [])
        ∷ (mapped "sync_version" bigint false (some false) (some "0") [])
        ∷ (mapped "metadata" jsonb false (some false) (some "'{}'") [])
        ∷ [])
      ++ timestamps;
  unique_keys =
      (unique_key (some "units_community_id_unit_code_key") ("community_id" ∷ "unit_code" ∷ []))
      ∷ [];
  checks = [];
  indexes =
      (index "idx_units_community" ("community_id" ∷ []) false none)
      ∷ (index "idx_units_ownership" ("ownership_status" ∷ []) false none)
      ∷ [];
}

abbrev pub user_class : MappedClass
user_class = record {
  tablename = "users";
  fields =
      ((mapped "id" uuid false none (some "uuid_generate_v4()") (primary ∷ []))
        ∷ (mapped "community_id" uuid false (some false) none
            (references "communities" "id" (some "RESTRICT") ∷ []))
        ∷ (mapped "name" (varchar 64) false (some false) none [])
        ∷ (mapped "mobile" (varchar 32) false (some false) none [])
        ∷ (mapped "email" (varchar 128) true none none [])
        ∷ (mapped "role" user_role_type false (some false) none [])
        ∷ (mapped "auth_status" auth_status_type false (some false) (some "'pending'") [])
        ∷ (mapped "call_policy_group" (varchar 32) true none none [])
        ∷ (mapped "friendship_enabled" boolean false (some false) (some "TRUE") [])
        ∷ (mapped "metadata" jsonb false (some false) (some "'{}'") [])
        ∷ [])
      ++ timestamps;
  unique_keys =
      (unique_key (some "users_community_id_mobile_key") ("community_id" ∷ "mobile" ∷ [])) ∷ [];
  checks = [];
  indexes =
      (index "idx_users_mobile" ("mobile" ∷ []) false none)
      ∷ (index "idx_users_role" ("role" ∷ []) false none)
      ∷ (index "idx_users_community" ("community_id" ∷ []) false none)
      ∷ [];
}

abbrev pub user_unit_relation_class : MappedClass
user_unit_relation_class = record {
  tablename = "user_unit_relations";
  fields =
      (mapped "id" uuid false none (some "uuid_generate_v4()") (primary ∷ []))
      ∷ (mapped "user_id" uuid false (some false) none
          (references "users" "id" (some "CASCADE") ∷ []))
      ∷ (mapped "unit_id" uuid false (some false) none
          (references "units" "id" (some "CASCADE") ∷ []))
      ∷ (mapped "relation_type" relation_type_type false (some false) none [])
      ∷ (mapped "effective_from" timestamptz false (some false) (some "now()") [])
      ∷ (mapped "effective_to" timestamptz true none none [])
      ∷ (mapped "created_at" timestamptz false (some false) (some "now()") [])
      ∷ [];
  unique_keys = [];
  checks =
      (check "ck_effective_range" "effective_to IS NULL OR effective_to > effective_from") ∷ [];
  indexes =
      (index "idx_uur_user" ("user_id" ∷ []) false (some "effective_to IS NULL"))
      ∷ (index "idx_uur_unit" ("unit_id" ∷ []) false (some "effective_to IS NULL"))
      ∷ [];
}
