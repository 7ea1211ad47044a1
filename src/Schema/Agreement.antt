-- ===== src/Schema/Agreement.antt =====
-- The models and the initial migration describe the same tables, and the order of creation suits the keys.
use civio.Base.{
  ◌≡◌, refl, String, str_eq, Bool, true, false, ◌&&◌, Option, none, some, List, [], ◌∷◌, any, All,
  if◌then◌else◌,
}
use civio.Schema.Ddl.{
  ColumnType, uuid, bigint, Column, ForeignKey, foreign_key, UniqueKey, unique_key, Check, check,
  Index, index, index_using, Table,
}
use civio.Schema.Entities.{
  Entity, class_of, created, earlier, community, processed_event, sync_event, sync_state, unit,
  user, announcement, audit_log, call_log, consent_record, friend_mapping, payment_order,
  sip_endpoint, task, token_ledger, user_unit_relation, billing_record,
}
use civio.Models.Mapping.{declared}

abbrev same_option : Option String → Option String → Bool
same_option none none = true
same_option (some a) (some b) = str_eq a b
same_option _ _ = false

abbrev same_texts : List String → List String → Bool
same_texts [] [] = true
same_texts (a ∷ xs) (b ∷ bs) = str_eq a b && same_texts xs bs
same_texts _ _ = false

abbrev same_classes : List (String × String) → List (String × String) → Bool
same_classes [] [] = true
same_classes ((a, x) ∷ xs) ((b, y) ∷ bs) = str_eq a b && str_eq x y && same_classes xs bs
same_classes _ _ = false

abbrev same_bool : Bool → Bool → Bool
same_bool true b = b
same_bool false true = false
same_bool false false = true

abbrev same_foreign_key : ForeignKey → ForeignKey → Bool
same_foreign_key (foreign_key a t c d) (foreign_key a' t' c' d') =
    str_eq a a' && str_eq t t' && str_eq c c' && same_option d d'

abbrev same_unique_key : UniqueKey → UniqueKey → Bool
same_unique_key (unique_key n cs) (unique_key n' cs') = same_option n n' && same_texts cs cs'

abbrev same_check : Check → Check → Bool
same_check (check n e) (check n' e') = str_eq n n' && str_eq e e'

abbrev same_index : Index → Index → Bool
same_index (index n cs u w) (index n' cs' u' w') =
    str_eq n n' && same_texts cs cs' && same_bool u u' && same_option w w'
same_index (index_using n cs u o) (index_using n' cs' u' o') =
    str_eq n n' && same_texts cs cs' && str_eq u u' && same_classes o o'
same_index _ _ = false

abbrev within : {A : Type 0} → (A → A → Bool) → List A → List A → Bool
within same [] ys = true
within same (x ∷ xs) ys = any (same x) ys && within same xs ys

-- Equal as sets.
abbrev same_set : {A : Type 0} → (A → A → Bool) → List A → List A → Bool
same_set same xs ys = within same xs ys && within same ys xs

abbrev pub IsSame : Table → Table → Type 0
IsSame t d =
    (t.name ≡ d.name)
    × (t.columns ≡ d.columns)
    × (t.primary_key ≡ d.primary_key)
    × (same_set same_foreign_key t.foreign_keys d.foreign_keys ≡ true)
    × (same_set same_unique_key t.unique_keys d.unique_keys ≡ true)
    × (same_set same_check t.checks d.checks ≡ true)
    × (same_set same_index t.indexes d.indexes ≡ true)

abbrev find_column : String → List Column → Option ColumnType
find_column n [] = none
find_column n (c ∷ cs) = if str_eq n c.name then some c.type else find_column n cs

-- The type of a column that is the whole primary key of one of the tables.
abbrev find_key : String → String → List Table → Option ColumnType
find_key t c [] = none
find_key t c (u ∷ us) =
    if str_eq t u.name && same_texts (c ∷ []) u.primary_key
    then find_column c u.columns
    else find_key t c us

abbrev pub Resolves : Table → List Table → ForeignKey → Type 0
Resolves t before (foreign_key a u c d) =
    (τ : ColumnType) × (find_column a t.columns ≡ some τ) × (find_key u c before ≡ some τ)

-- For each entity, the class in `models/` declares the table that the migration creates: the same name,
-- columns in the same order with the same types, nullability and defaults, the same primary key, and
-- the same sets of foreign keys, unique keys, checks and indexes.
pub declared-IsSame : (e : Entity) → IsSame (created e) (declared (class_of e))
declared-IsSame community = (refl, refl, refl, refl, refl, refl, refl)
declared-IsSame processed_event = (refl, refl, refl, refl, refl, refl, refl)
declared-IsSame sync_event = (refl, refl, refl, refl, refl, refl, refl)
declared-IsSame sync_state = (refl, refl, refl, refl, refl, refl, refl)
declared-IsSame unit = (refl, refl, refl, refl, refl, refl, refl)
declared-IsSame user = (refl, refl, refl, refl, refl, refl, refl)
declared-IsSame announcement = (refl, refl, refl, refl, refl, refl, refl)
declared-IsSame audit_log = (refl, refl, refl, refl, refl, refl, refl)
declared-IsSame call_log = (refl, refl, refl, refl, refl, refl, refl)
declared-IsSame consent_record = (refl, refl, refl, refl, refl, refl, refl)
declared-IsSame friend_mapping = (refl, refl, refl, refl, refl, refl, refl)
declared-IsSame payment_order = (refl, refl, refl, refl, refl, refl, refl)
declared-IsSame sip_endpoint = (refl, refl, refl, refl, refl, refl, refl)
declared-IsSame task = (refl, refl, refl, refl, refl, refl, refl)
declared-IsSame token_ledger = (refl, refl, refl, refl, refl, refl, refl)
declared-IsSame user_unit_relation = (refl, refl, refl, refl, refl, refl, refl)
declared-IsSame billing_record = (refl, refl, refl, refl, refl, refl, refl)

-- A foreign key of a table refers to the whole primary key of a table created before it, and the
-- referring column has the type of the key.
pub foreign_keys-Resolves :
    (e : Entity) → All (Resolves (created e) (earlier e)) (created e).foreign_keys
foreign_keys-Resolves community = tt
foreign_keys-Resolves processed_event = tt
foreign_keys-Resolves sync_event = ((uuid, refl, refl), tt)
foreign_keys-Resolves sync_state = ((uuid, refl, refl), tt)
foreign_keys-Resolves unit = ((uuid, refl, refl), tt)
foreign_keys-Resolves user = ((uuid, refl, refl), tt)
foreign_keys-Resolves announcement = ((uuid, refl, refl), ((uuid, refl, refl), tt))
foreign_keys-Resolves audit_log = ((uuid, refl, refl), ((uuid, refl, refl), tt))
foreign_keys-Resolves call_log =
    ((uuid, refl, refl), ((uuid, refl, refl), ((uuid, refl, refl), tt)))
foreign_keys-Resolves consent_record = ((uuid, refl, refl), tt)
foreign_keys-Resolves friend_mapping =
    ((uuid, refl, refl), ((uuid, refl, refl), ((uuid, refl, refl), tt)))
foreign_keys-Resolves payment_order = ((uuid, refl, refl), ((uuid, refl, refl), tt))
foreign_keys-Resolves sip_endpoint = ((uuid, refl, refl), ((uuid, refl, refl), tt))
foreign_keys-Resolves task = ((uuid, refl, refl), ((uuid, refl, refl), ((uuid, refl, refl), tt)))
foreign_keys-Resolves token_ledger = ((uuid, refl, refl), ((uuid, refl, refl), tt))
foreign_keys-Resolves user_unit_relation = ((uuid, refl, refl), ((uuid, refl, refl), tt))
foreign_keys-Resolves billing_record =
    ((uuid, refl, refl), ((uuid, refl, refl), ((bigint, refl, refl), tt)))
