-- ===== src/Schema/Catalog/Scripts.antt =====
-- The statements of `upgrade` and `downgrade` of the initial migration, in their order.
-- `op.create_table`, `op.create_index`, `op.drop_index` and `op.drop_table` are the SQL statements of
-- these names; an ENUM type is created with the first table of the run that uses it.
use civio.Base.{
  String, ◌<>◌, Bool, false, List, [], ◌∷◌, ◌++◌, map, any, str_eq, if◌then◌else◌, none, some,
}
use civio.Schema.Ddl.{
  ColumnType, enum, Column, ForeignKey, foreign_key, UniqueKey, unique_key, Index, index,
  index_using, Table,
}
use civio.Schema.Entities.{created, creation_order}
use civio.Schema.Versions.{versioned_tables}
use civio.Schema.Catalog.{
  Object, extension, enum_type, function, table, view, trigger, Statement, create, create_missing,
  each_updated_at, drop, drop_if_exists, drop_table, drop_index, drop_view, drop_type,
  drop_function, member,
}
use civio.Schema.Catalog

abbrev enum_names : List Column → List String
enum_names [] = []
enum_names (c ∷ cs) = own c.type ++ enum_names cs
  where
    own : ColumnType → List String
    own (enum n vs) = n ∷ []
    own _ = []

abbrev referred : ForeignKey → String
referred (foreign_key c t k d) = t

abbrev index_name : Index → String
index_name (index n cs u w) = n
index_name (index_using n cs u o) = n

abbrev key_names : List UniqueKey → List String
key_names [] = []
key_names (unique_key (some n) cs ∷ ks) = n ∷ key_names ks
key_names (unique_key none cs ∷ ks) = key_names ks

abbrev pub has_column : String → List Column → Bool
has_column n cs = any (λ c. str_eq n c.name) cs

-- The names that are new, and the names that are seen after them.
abbrev new_names : List String → List String → List String
new_names seen [] = []
new_names seen (n ∷ ns) = let rest = new_names seen ns in if member n seen then rest else n ∷ rest

-- `op.create_table` and the `op.create_index` on it.
abbrev create_table : List String → Table → List Statement
create_table seen t =
    map (λ n. create (enum_type n)) (new_names seen (enum_names t.columns))
    ++ (create (
          table t.name (enum_names t.columns) (map referred t.foreign_keys)
            (has_column "updated_at" t.columns))
        ∷ (map (λ n. create (Catalog.index n t.name)) (key_names t.unique_keys)
            ++ map (λ i. create (Catalog.index (index_name i) t.name)) t.indexes))

abbrev create_tables : List String → List Table → List Statement
create_tables seen [] = []
create_tables seen (t ∷ ts) = create_table seen t ++ create_tables (enum_names t.columns ++ seen) ts

abbrev pub extensions : List String
extensions = "uuid-ossp" ∷ "pgcrypto" ∷ "pg_trgm" ∷ []

-- The functions, triggers and the view that follow the tables.
abbrev post_table : List Statement
post_table =
    create_missing (function "forbid_ledger_mutation")
    ∷ create (trigger "trg_forbid_ledger_update" "token_ledger" "forbid_ledger_mutation")
    ∷ create (trigger "trg_forbid_ledger_delete" "token_ledger" "forbid_ledger_mutation")
    ∷ create (view "token_balances" "token_ledger" false)
    ∷ create (Catalog.index "idx_balances_key" "token_balances")
    ∷ create_missing (function "tg_set_updated_at")
    ∷ each_updated_at "trg_updated_at" "tg_set_updated_at"
    ∷ create_missing (function "tg_bump_community_version")
    ∷ map (λ t. create (trigger ("trg_" <> t <> "_version") t "tg_bump_community_version"))
        versioned_tables

-- What follows the extensions.
abbrev pub upgrade_tables : List Statement
upgrade_tables = create_tables [] (map created creation_order) ++ post_table

unfoldable pub upgrade : List Statement
upgrade = map (λ n. create_missing (extension n)) extensions ++ upgrade_tables

unfoldable pub downgrade : List Statement
downgrade =
    drop_if_exists (drop_view "token_balances")
    ∷ drop (drop_index "idx_billing_community")
    ∷ drop (drop_table "billing_records")
    ∷ drop (drop_index "idx_uur_user")
    ∷ drop (drop_index "idx_uur_unit")
    ∷ drop (drop_table "user_unit_relations")
    ∷ drop (drop_index "idx_ledger_user")
    ∷ drop (drop_index "idx_ledger_community")
    ∷ drop (drop_table "token_ledger")
    ∷ drop (drop_index "idx_tasks_community_status")
    ∷ drop (drop_table "tasks")
    ∷ drop (drop_index "idx_sip_endpoints_user")
    ∷ drop (drop_index "idx_sip_endpoints_community")
    ∷ drop (drop_table "sip_endpoints")
    ∷ drop (drop_index "idx_payment_user")
    ∷ drop (drop_index "idx_payment_provider_ref")
    ∷ drop (drop_table "payment_orders")
    ∷ drop (drop_index "idx_friend_active")
    ∷ drop (drop_table "friend_mappings")
    ∷ drop (drop_index "idx_consent_user_type")
    ∷ drop (drop_table "consent_records")
    ∷ drop (drop_index "idx_call_logs_community_start")
    ∷ drop (drop_index "idx_call_logs_caller")
    ∷ drop (drop_index "idx_call_logs_callee")
    ∷ drop (drop_table "call_logs")
    ∷ drop (drop_index "idx_audit_community_time")
    ∷ drop (drop_index "idx_audit_actor")
    ∷ drop (drop_table "audit_log")
    ∷ drop (drop_index "idx_announcements_community")
    ∷ drop (drop_table "announcements")
    ∷ drop (drop_index "idx_users_role")
    ∷ drop (drop_index "idx_users_mobile")
    ∷ drop (drop_index "idx_users_community")
    ∷ drop (drop_table "users")
    ∷ drop (drop_index "idx_units_ownership")
    ∷ drop (drop_index "idx_units_community")
    ∷ drop (drop_table "units")
    ∷ drop (drop_table "sync_state")
    ∷ drop (drop_index "idx_sync_events_pending")
    ∷ drop (drop_table "sync_events")
    ∷ drop (drop_table "processed_events")
    ∷ drop (drop_index "idx_communities_status")
    ∷ drop (drop_index "idx_communities_name_trgm")
    ∷ drop (drop_table "communities")
    ∷ drop_if_exists (drop_function "tg_bump_community_version")
    ∷ drop_if_exists (drop_function "tg_set_updated_at")
    ∷ drop_if_exists (drop_function "forbid_ledger_mutation")
    ∷ map (λ n. drop_if_exists (drop_type n))
        ("announcement_priority" ∷ "sync_ack_status" ∷ "billing_scope" ∷ "call_status"
          ∷ "token_scope" ∷ "friend_status" ∷ "relation_type" ∷ "auth_status" ∷ "user_role"
          ∷ "occupancy_status" ∷ "ownership_status" ∷ "community_status" ∷ [])
