-- ===== src/Schema/Catalog/Upgraded.antt =====
-- The triggers that `upgrade` leaves on the table of each mapped class.
use civio.Base.{◌≡◌, refl, String, str_eq, Bool, false, ◌&&◌, any}
use civio.Schema.Ddl.{Table}
use civio.Schema.Entities.{
  Entity, class_of, community, processed_event, sync_event, sync_state, unit, user, announcement,
  audit_log, call_log, consent_record, friend_mapping, payment_order, sip_endpoint, task,
  token_ledger, user_unit_relation, billing_record,
}
use civio.Models.Mapping.{declared}
use civio.Schema.Catalog.{Object, trigger, execute, run}
use civio.Schema.Catalog.Scripts.{has_column}
use civio.Schema.Catalog.RoundTrip.{upgraded}

abbrev is_run : String → String → Object → Bool
is_run t f (trigger m u g) = str_eq t u && str_eq f g
is_run t f _ = false

-- A trigger of the table runs the function.
abbrev pub runs : Table → String → Bool
runs t f = any (is_run t.name f) upgraded

-- A class has the field that a trigger maintains.
abbrev pub has_field : Table → String → Bool
has_field t n = has_column n t.columns

-- After `upgrade` the tables whose classes have a column `updated_at`, and no others, set it by a trigger.
pub updated_at-triggers :
    (e : Entity)
    → runs (declared (class_of e)) "tg_set_updated_at"
      ≡ has_field (declared (class_of e)) "updated_at"
unfolding run execute
updated_at-triggers community = refl
updated_at-triggers processed_event = refl
updated_at-triggers sync_event = refl
updated_at-triggers sync_state = refl
updated_at-triggers unit = refl
updated_at-triggers user = refl
updated_at-triggers announcement = refl
updated_at-triggers audit_log = refl
updated_at-triggers call_log = refl
updated_at-triggers consent_record = refl
updated_at-triggers friend_mapping = refl
updated_at-triggers payment_order = refl
updated_at-triggers sip_endpoint = refl
updated_at-triggers task = refl
updated_at-triggers token_ledger = refl
updated_at-triggers user_unit_relation = refl
updated_at-triggers billing_record = refl
