-- ===== src/Security/Tests.antt =====
-- Tests of the security API, and its theorems at concrete inputs.
use cyrenus.Security.Listed.{AreListed, database_list_security_events-first, first_rows, IsShort}
use cyrenus.Security.Events.{SecurityEventRecord, EventSelect, database_list_security_events}
use cyrenus.Security.Query.{EventQuery}
use cyrenus.Api.Samples.{Object}
use cyrenus.Security.{Os, Disk}
use cyrenus.Prelude.{List, Text, refl, [], ◌≤◌, true, none, ◌∷◌, length, ◌≡◌, some, codes, arith}

abbrev any_path : Os
any_path = record {
  resolve = λ path. path;
  writable = λ path. true;
  removable = λ path. true;
  system = λ command disk. (true, disk);
}

abbrev no_files : Disk
no_files path = none

abbrev new_policy : Object
new_policy = (codes "content", codes "kind: TracingPolicy") ∷ []

abbrev behind_first : Text → Text
behind_first [] = []
behind_first (c ∷ cs) = cs

abbrev one_row : SecurityEventRecord
one_row = record {
  id = 1;
  timestamp = 1700000000000000000;
  event_type = 80 ∷ [];
  severity = 4;
  process_name = none;
  pid = 7;
  ppid = 1;
  uid = 0;
  command = none;
  binary_path = none;
  parent_binary = none;
  action = none;
  policy_name = none;
  src_ip = none;
  dst_ip = none;
  dst_port = 0;
  file_path = none;
  file_operation = none;
  metadata = none;
  created_at = 0;
}

abbrev one_event : EventSelect Unit
one_event = record {
  select_security_events = λ db q. some (one_row ∷ one_row ∷ []);
  malloc = λ n. true;
  memory = λ i k. 63 ∷ 0 ∷ 63 ∷ [];
}

abbrev first_event : EventQuery
first_event = record {
  severity_min = 0;
  event_type = none;
  from = 0;
  to = 0;
  limit = 1;
  offset = 0;
}

one_row-IsShort : IsShort one_row
one_row-IsShort = record {
  event_type = omega arith;
  process_name = tt;
  command = tt;
  binary_path = tt;
  parent_binary = tt;
  action = tt;
  policy_name = tt;
  src_ip = tt;
  dst_ip = tt;
  file_path = tt;
  file_operation = tt;
  metadata = tt;
}

database_list_security_events-first_example :
    (rs : List SecurityEventRecord) × (database_list_security_events one_event (some tt) first_event
      ≡ some rs)
    × AreListed one_event.memory 0 (first_rows 1 (one_row ∷ one_row ∷ [])) rs
    × (length rs ≤ 1)
database_list_security_events-first_example =
    database_list_security_events-first one_event tt first_event (one_row ∷ one_row ∷ []) refl refl
      (omega arith) (one_row-IsShort, (one_row-IsShort, tt))
