-- ===== src/Models/Enums/Sync.antt =====
-- `models/enums.py`: the enumerations of synchronisation.
use civio.Base.{String, [], ◌∷◌, map}
use civio.Schema.Ddl.{ColumnType, enum}

pub data SyncAckStatus : Type 0 where
  pending acked failed : SyncAckStatus

abbrev pub sync_ack_status_value : SyncAckStatus → String
sync_ack_status_value pending = "pending"
sync_ack_status_value acked = "acked"
sync_ack_status_value failed = "failed"

abbrev pub sync_ack_status_type : ColumnType
sync_ack_status_type =
    enum "sync_ack_status" (map sync_ack_status_value (pending ∷ acked ∷ failed ∷ []))
