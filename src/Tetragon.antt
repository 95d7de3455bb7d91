-- ===== src/Tetragon.antt =====
-- The Tetragon events of src/tetragon_events.c: the event that a line of Tetragon's log becomes, and
-- the counters of the monitor.
pub mod Classify
pub mod Parse
pub mod Store
pub mod Process
pub mod Monitor
pub mod Words
pub mod Fits
pub mod Counters
pub mod Lines
pub mod Reach
pub mod Samples
pub mod Tests
use cyrenus.Prelude.{Option, none, Text, [], ℕ}

-- struct security_event; a NULL text is `none`.
pub record SecurityEvent : Type 0 where
  pub timestamp : ℕ
  pub event_type : Text
  pub severity : ℕ
  pub alert_type : ℕ
  pub pid : ℕ
  pub ppid : ℕ
  pub uid : ℕ
  pub process_name : Text
  pub command : Text
  pub binary_path : Text
  pub parent_binary : Text
  pub action : Text
  pub policy_name : Text
  pub message : Text
  pub src_ip : ℕ
  pub dst_ip : ℕ
  pub dst_port : ℕ
  pub file_path : Text
  pub file_operation : Text
  pub metadata_json : Option Text

-- memset(event, 0, sizeof(struct security_event))
abbrev pub zero_event : SecurityEvent
zero_event = record {
  timestamp = 0;
  event_type = [];
  severity = 0;
  alert_type = 0;
  pid = 0;
  ppid = 0;
  uid = 0;
  process_name = [];
  command = [];
  binary_path = [];
  parent_binary = [];
  action = [];
  policy_name = [];
  message = [];
  src_ip = 0;
  dst_ip = 0;
  dst_port = 0;
  file_path = [];
  file_operation = [];
  metadata_json = none;
}

-- struct tetragon_stats
pub record TetragonStats : Type 0 where
  pub total_events : ℕ
  pub process_exec_events : ℕ
  pub process_exit_events : ℕ
  pub file_access_events : ℕ
  pub network_events : ℕ
  pub alerts_generated : ℕ
  pub events_blocked : ℕ
  pub last_update_time : ℕ

abbrev pub zero_stats : TetragonStats
zero_stats = record {
  total_events = 0;
  process_exec_events = 0;
  process_exit_events = 0;
  file_access_events = 0;
  network_events = 0;
  alerts_generated = 0;
  events_blocked = 0;
  last_update_time = 0;
}
