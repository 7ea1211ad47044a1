-- ===== src/Models/Enums/Community.antt =====
-- `models/enums.py`: the enumerations of communities, their units and the people in them.
use civio.Base.{String, [], ◌∷◌, map}
use civio.Schema.Ddl.{ColumnType, enum}

pub data CommunityStatus : Type 0 where
  pending ready active suspended : CommunityStatus

abbrev pub community_status_value : CommunityStatus → String
community_status_value pending = "pending"
community_status_value ready = "ready"
community_status_value active = "active"
community_status_value suspended = "suspended"

abbrev pub community_status_type : ColumnType
community_status_type =
    enum "community_status" (map community_status_value (pending ∷ ready ∷ active ∷ suspended ∷ []))

pub data OwnershipStatus : Type 0 where
  owned sold pending_transfer rented : OwnershipStatus

abbrev pub ownership_status_value : OwnershipStatus → String
ownership_status_value owned = "owned"
ownership_status_value sold = "sold"
ownership_status_value pending_transfer = "pending_transfer"
ownership_status_value rented = "rented"

abbrev pub ownership_status_type : ColumnType
ownership_status_type =
    enum "ownership_status"
      (map ownership_status_value (owned ∷ sold ∷ pending_transfer ∷ rented ∷ []))

pub data RelationType : Type 0 where
  resident family tenant : RelationType

abbrev pub relation_type_value : RelationType → String
relation_type_value resident = "resident"
relation_type_value family = "family"
relation_type_value tenant = "tenant"

abbrev pub relation_type_type : ColumnType
relation_type_type =
    enum "relation_type" (map relation_type_value (resident ∷ family ∷ tenant ∷ []))
