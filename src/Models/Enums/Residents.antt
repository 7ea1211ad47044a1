-- ===== src/Models/Enums/Residents.antt =====
-- `models/enums.py`: the enumerations of occupancy and of friends.
use civio.Base.{String, [], ◌∷◌, map}
use civio.Schema.Ddl.{ColumnType, enum}

pub data OccupancyStatus : Type 0 where
  vacant occupied rented : OccupancyStatus

abbrev pub occupancy_status_value : OccupancyStatus → String
occupancy_status_value vacant = "vacant"
occupancy_status_value occupied = "occupied"
occupancy_status_value rented = "rented"

abbrev pub occupancy_status_type : ColumnType
occupancy_status_type =
    enum "occupancy_status" (map occupancy_status_value (vacant ∷ occupied ∷ rented ∷ []))

pub data FriendStatus : Type 0 where
  pending active blocked removed : FriendStatus

abbrev pub friend_status_value : FriendStatus → String
friend_status_value pending = "pending"
friend_status_value active = "active"
friend_status_value blocked = "blocked"
friend_status_value removed = "removed"

abbrev pub friend_status_type : ColumnType
friend_status_type =
    enum "friend_status" (map friend_status_value (pending ∷ active ∷ blocked ∷ removed ∷ []))
