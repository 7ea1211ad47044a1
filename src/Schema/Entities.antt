-- ===== src/Schema/Entities.antt =====
-- The tables in the order of their creation, each with its mapped class.
use civio.Base.{ℕ, zero, suc, List, [], ◌∷◌, map}
use civio.Schema.Ddl.{Table}
use civio.Models.Mapping.{MappedClass}
use civio.Schema.Migration.Community.{
  communities_table, units_table, users_table, user_unit_relations_table,
}
use civio.Models.Classes.Community.{
  community_class, unit_class, user_class, user_unit_relation_class,
}
use civio.Schema.Migration.Residents.{
  announcements_table, consent_records_table, friend_mappings_table, tasks_table,
}
use civio.Models.Classes.Residents.{
  announcement_class, consent_record_class, friend_mapping_class, task_class,
}
use civio.Schema.Migration.Calls.{call_logs_table, sip_endpoints_table}
use civio.Models.Classes.Calls.{call_log_class, sip_endpoint_class}
use civio.Schema.Migration.Billing.{payment_orders_table, token_ledger_table, billing_records_table}
use civio.Models.Classes.Billing.{payment_order_class, token_ledger_class, billing_record_class}
use civio.Schema.Migration.Sync.{
  processed_events_table, sync_events_table, sync_state_table, audit_log_table,
}
use civio.Models.Classes.Sync.{
  processed_event_class, sync_event_class, sync_state_class, audit_log_class,
}

-- The classes that `models/__init__.py` exports.
pub data Entity : Type 0 where
  community processed_event sync_event sync_state unit user announcement audit_log call_log
        consent_record friend_mapping payment_order sip_endpoint task token_ledger
        user_unit_relation billing_record :
      Entity

abbrev pub class_of : Entity → MappedClass
class_of community = community_class
class_of processed_event = processed_event_class
class_of sync_event = sync_event_class
class_of sync_state = sync_state_class
class_of unit = unit_class
class_of user = user_class
class_of announcement = announcement_class
class_of audit_log = audit_log_class
class_of call_log = call_log_class
class_of consent_record = consent_record_class
class_of friend_mapping = friend_mapping_class
class_of payment_order = payment_order_class
class_of sip_endpoint = sip_endpoint_class
class_of task = task_class
class_of token_ledger = token_ledger_class
class_of user_unit_relation = user_unit_relation_class
class_of billing_record = billing_record_class

abbrev pub created : Entity → Table
created community = communities_table
created processed_event = processed_events_table
created sync_event = sync_events_table
created sync_state = sync_state_table
created unit = units_table
created user = users_table
created announcement = announcements_table
created audit_log = audit_log_table
created call_log = call_logs_table
created consent_record = consent_records_table
created friend_mapping = friend_mappings_table
created payment_order = payment_orders_table
created sip_endpoint = sip_endpoints_table
created task = tasks_table
created token_ledger = token_ledger_table
created user_unit_relation = user_unit_relations_table
created billing_record = billing_records_table

-- The entities in the order in which `upgrade` creates their tables.
abbrev pub creation_order : List Entity
creation_order =
    community ∷ processed_event ∷ sync_event ∷ sync_state ∷ unit ∷ user ∷ announcement ∷ audit_log
    ∷ call_log ∷ consent_record ∷ friend_mapping ∷ payment_order ∷ sip_endpoint ∷ task
    ∷ token_ledger ∷ user_unit_relation ∷ billing_record ∷ []

-- The place of an entity in that order.
abbrev pub place : Entity → ℕ
place community = 0
place processed_event = 1
place sync_event = 2
place sync_state = 3
place unit = 4
place user = 5
place announcement = 6
place audit_log = 7
place call_log = 8
place consent_record = 9
place friend_mapping = 10
place payment_order = 11
place sip_endpoint = 12
place task = 13
place token_ledger = 14
place user_unit_relation = 15
place billing_record = 16

abbrev first : ℕ → List Entity → List Entity
first zero es = []
first (suc n) [] = []
first (suc n) (e ∷ es) = e ∷ first n es

-- What `upgrade` has created before the table of an entity.
abbrev pub earlier : Entity → List Table
earlier e = map created (first (place e) creation_order)
