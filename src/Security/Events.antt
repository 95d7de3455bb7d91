-- ===== src/Security/Events.antt =====
-- `database_list_security_events` of src/database.c and `api_security_events_list` of
-- src/api/security.c.
use cyrenus.Security.{events_content, not_allowed, create_json_response, json_text, MhdResponse}
use cyrenus.Security.Query.{event_query, EventArgs, EventQuery}
use cyrenus.Prelude.{
  ltb, array_text, copied_text, ◌+◌, str_eq, zero, ◌&&◌, ◌∷◌, codes, not, ltb, none, suc,
  if◌then◌else◌, [], Bool, some, some, some, Text, Option, List, ℕ,
}

-- struct security_event_record, and a row of the table, where `none` is NULL.
pub record SecurityEventRecord : Type 0 where
  pub id : ℕ
  pub timestamp : ℕ
  pub event_type : Text
  pub severity : ℕ
  pub process_name : Option Text
  pub pid : ℕ
  pub ppid : ℕ
  pub uid : ℕ
  pub command : Option Text
  pub binary_path : Option Text
  pub parent_binary : Option Text
  pub action : Option Text
  pub policy_name : Option Text
  pub src_ip : Option Text
  pub dst_ip : Option Text
  pub dst_port : ℕ
  pub file_path : Option Text
  pub file_operation : Option Text
  pub metadata : Option Text
  pub created_at : ℕ

-- The filters of the statement: those that are there are bound.
pub record EventFilter : Type 0 where
  pub severity_min : Option ℕ
  pub event_type : Option Text
  pub from : Option ℕ
  pub to : Option ℕ
  pub limit : ℕ
  pub offset : ℕ

-- A number of 32 or 64 bits that is above 0 as a signed one.
abbrev pub above_zero : ℕ → ℕ → Option ℕ
above_zero top n = if ltb 0 n && ltb n top then some n else none

unfoldable pub event_filter : EventQuery → EventFilter
event_filter q = record {
  severity_min = above_zero 2147483648 q.severity_min;
  event_type = q.event_type;
  from = above_zero 9223372036854775808 q.from;
  to = above_zero 9223372036854775808 q.to;
  limit = q.limit;
  offset = q.offset;
}

-- A column that is NULL leaves its array as it was.
abbrev pub column : ℕ → Text → Option Text → Option Text
column n old none = some (array_text old)
column n old (some text) = some (copied_text n old text)

-- One row in the arrays of a record, which malloc does not clear: `old` is what the array of a column
-- holds.
abbrev pub copied_row : (ℕ → Text) → SecurityEventRecord → SecurityEventRecord
copied_row old r = record r {
  event_type = copied_text 63 (old 2) r.event_type;
  process_name = column 255 (old 4) r.process_name;
  command = column 2047 (old 8) r.command;
  binary_path = column 4095 (old 9) r.binary_path;
  parent_binary = column 4095 (old 10) r.parent_binary;
  action = column 31 (old 11) r.action;
  policy_name = column 127 (old 12) r.policy_name;
  src_ip = column 45 (old 13) r.src_ip;
  dst_ip = column 45 (old 14) r.dst_ip;
  file_path = column 4095 (old 16) r.file_path;
  file_operation = column 31 (old 17) r.file_operation;
  metadata = column 8191 (old 18) r.metadata;
}

-- The loop from the record `idx` on: at most `left` of the rows that sqlite3_step gives.
unfoldable pub copy_rows :
    (ℕ → ℕ → Text) → ℕ → ℕ → List SecurityEventRecord → List SecurityEventRecord
copy_rows memory zero idx rows = []
copy_rows memory (suc left) idx [] = []
copy_rows memory (suc left) idx (r ∷ rows) =
    copied_row (memory idx) r ∷ copy_rows memory left (idx + 1) rows

-- The rows of the statement, `none` where it is not prepared, whether malloc has memory for a number
-- of records, and what that memory holds: of a record, the array of a column.
pub record EventSelect (Db : Type 0) : Type 0 where
  pub select_security_events : Db → EventFilter → Option (List SecurityEventRecord)
  pub malloc : ℕ → Bool
  pub memory : ℕ → ℕ → Text

-- A limit below 0 is reached at once.
abbrev pub rows_within : (ℕ → ℕ → Text) → ℕ → List SecurityEventRecord → List SecurityEventRecord
rows_within memory limit rows = if ltb limit 2147483648 then copy_rows memory limit 0 rows else []

module _ {Db : Type 0} (sql : EventSelect Db) where
  abbrev pub selected : ℕ → Option (List SecurityEventRecord) → Option (List SecurityEventRecord)
  selected limit none = none
  selected limit (some rows) =
      if sql.malloc limit then some (rows_within sql.memory limit rows) else none

  -- `none` where it returns -1; the database is `none` where it is NULL or not open.
  unfoldable pub database_list_security_events :
      Option Db → EventQuery → Option (List SecurityEventRecord)
  database_list_security_events none q = none
  database_list_security_events (some db) q =
      selected q.limit (sql.select_security_events db (event_filter q))

  abbrev pub events_response :
      EventQuery → Option (List SecurityEventRecord) → MhdResponse SecurityEventRecord
  events_response q none = json_text 500 (codes "{\"error\":\"Failed to fetch security events\"}")
  events_response q (some events) =
      create_json_response 200 (events_content events q.limit q.offset)

  unfoldable pub api_security_events_list :
      Option Db → Text → EventArgs → ℕ → MhdResponse SecurityEventRecord
  api_security_events_list g_db method args time =
      let q = event_query args time in
      if not (str_eq method (codes "GET"))
      then not_allowed
      else events_response q (database_list_security_events g_db q)
