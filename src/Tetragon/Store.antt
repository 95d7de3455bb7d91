-- ===== src/Tetragon/Store.antt =====
-- `db_insert_security_event` of src/database.c and `tetragon_store_event` of src/tetragon_events.c.
use cyrenus.Tetragon.{SecurityEvent}
use cyrenus.Http.Database.{Step}
use cyrenus.Prelude.{◌==◌, [], none, ◌∷◌, if◌then◌else◌, some, Option, codes, Text, ℕ}

-- The values that are bound for an event; `none` is NULL.
pub record EventRow : Type 0 where
  pub timestamp : ℕ
  pub event_type : Text
  pub severity : ℕ
  pub process_name : Text
  pub pid : ℕ
  pub ppid : ℕ
  pub uid : ℕ
  pub command : Text
  pub binary_path : Text
  pub parent_binary : Text
  pub action : Text
  pub policy_name : Text
  pub src_ip : Option Text
  pub dst_ip : Option Text
  pub dst_port : Option ℕ
  pub file_path : Option Text
  pub file_operation : Option Text
  pub metadata : Option Text

-- The INSERT statement, at the values bound to it.
pub record EventSql (Db : Type 0) : Type 0 where
  pub insert_security_event : Db → EventRow → Step Unit × Db

-- A text of at least one byte, or NULL.
abbrev pub non_empty : Text → Option Text
non_empty [] = none
non_empty (c ∷ cs) = some (c ∷ cs)

abbrev pub or_unknown : Text → Text
or_unknown [] = codes "unknown"
or_unknown (c ∷ cs) = c ∷ cs

module _ {Db : Type 0} (sql : EventSql Db) (inet_ntoa : ℕ → Text) where
  -- `g_db` is `none` where it is NULL or not open. The result, -1 for an error, is not looked at.
  abbrev pub db_insert_security_event : Option Db → EventRow → Option Db
  db_insert_security_event none r = none
  db_insert_security_event (some db) r = some (sql.insert_security_event db r).1

  abbrev pub event_row : SecurityEvent → EventRow
  event_row event = record {
    timestamp = event.timestamp;
    event_type = event.event_type;
    severity = event.severity;
    process_name = or_unknown event.process_name;
    pid = event.pid;
    ppid = event.ppid;
    uid = event.uid;
    command = event.command;
    binary_path = event.binary_path;
    parent_binary = event.parent_binary;
    action = event.action;
    policy_name = event.policy_name;
    src_ip = if event.src_ip == 0 then none else some (inet_ntoa event.src_ip);
    dst_ip = if event.dst_ip == 0 then none else some (inet_ntoa event.dst_ip);
    dst_port = if event.dst_port == 0 then none else some event.dst_port;
    file_path = non_empty event.file_path;
    file_operation = non_empty event.file_operation;
    metadata = event.metadata_json;
  }

  unfoldable pub tetragon_store_event : Option Db → SecurityEvent → Option Db
  tetragon_store_event g_db event = db_insert_security_event g_db (event_row event)
