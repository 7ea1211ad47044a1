-- ===== src/Models/Enums/Calls.antt =====
-- `models/enums.py`: the enumerations of calls, tokens and announcements.
use civio.Base.{String, [], ◌∷◌, map}
use civio.Schema.Ddl.{ColumnType, enum}

pub data TokenScope : Type 0 where
  community user : TokenScope

abbrev pub token_scope_value : TokenScope → String
token_scope_value community = "community"
token_scope_value user = "user"

abbrev pub token_scope_type : ColumnType
token_scope_type = enum "token_scope" (map token_scope_value (community ∷ user ∷ []))

pub data CallStatus : Type 0 where
  init ringing answered ended rejected failed : CallStatus

abbrev pub call_status_value : CallStatus → String
call_status_value init = "init"
call_status_value ringing = "ringing"
call_status_value answered = "answered"
call_status_value ended = "ended"
call_status_value rejected = "rejected"
call_status_value failed = "failed"

abbrev pub call_status_type : ColumnType
call_status_type =
    enum "call_status"
      (map call_status_value (init ∷ ringing ∷ answered ∷ ended ∷ rejected ∷ failed ∷ []))

pub data AnnouncementPriority : Type 0 where
  low normal high urgent : AnnouncementPriority

abbrev pub announcement_priority_value : AnnouncementPriority → String
announcement_priority_value low = "low"
announcement_priority_value normal = "normal"
announcement_priority_value high = "high"
announcement_priority_value urgent = "urgent"

abbrev pub announcement_priority_type : ColumnType
announcement_priority_type =
    enum "announcement_priority"
      (map announcement_priority_value (low ∷ normal ∷ high ∷ urgent ∷ []))
