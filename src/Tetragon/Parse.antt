-- ===== src/Tetragon/Parse.antt =====
-- `tetragon_parse_event` of src/tetragon_events.c. A number of JSON is the 32 bits of its `int`, and
-- strncpy into an array that ends in a zero keeps the bytes in front.
use cyrenus.Tetragon.Classify.{tetragon_classify_alert_type, tetragon_classify_severity}
use cyrenus.Tetragon.{zero_event, SecurityEvent}
use cyrenus.Api.Json.{JsonC}
use cyrenus.Prelude.{
  contains, take, if◌then◌else◌, mul64, none, zero, ◌+◌, some, some, some, some, some, some, some,
  some, some, some, some, codes, Option, suc, Bool, Text, ℕ,
}

-- json_object_is_type(_, json_type_array), json_object_array_length, json_object_array_get_idx.
pub record JsonArrays (J : Type 0) : Type 0 where
  pub is_array : J → Bool
  pub array_length : J → ℕ
  pub array_get_idx : J → ℕ → J

abbrev pub event_type_process_exec : Text
event_type_process_exec = codes "PROCESS_EXEC"

abbrev pub event_type_process_kprobe : Text
event_type_process_kprobe = codes "PROCESS_KPROBE"

module _ {J : Type 0} (json : JsonC J) (arrays : JsonArrays J) where
  -- A text that is there, into an array of n + 1 bytes.
  abbrev pub copied : ℕ → Option J → Text → Text
  copied n none old = old
  copied n (some tmp) old = take n (json.get_string tmp)

  abbrev pub number : Option J → ℕ → ℕ
  number none old = old
  number (some tmp) old = json.get_int tmp

  abbrev pub exec_parent : Option J → SecurityEvent → SecurityEvent
  exec_parent none event = event
  exec_parent (some parent) event = record event {
    ppid = number (json.get_ex parent (codes "pid")) event.ppid;
    parent_binary = copied 4095 (json.get_ex parent (codes "binary")) event.parent_binary;
  }

  abbrev pub exec_process : J → Option J → SecurityEvent → SecurityEvent
  exec_process process_exec none event = event
  exec_process process_exec (some process) event =
      exec_parent (json.get_ex process_exec (codes "parent")) (record event {
        pid = number (json.get_ex process (codes "pid")) event.pid;
        binary_path = copied 4095 (json.get_ex process (codes "binary")) event.binary_path;
        command = copied 2047 (json.get_ex process (codes "arguments")) event.command;
      })

  abbrev pub exec_info : Option J → SecurityEvent → SecurityEvent
  exec_info none event = event
  exec_info (some process_exec) event =
      exec_process process_exec (json.get_ex process_exec (codes "process"))
        (record event { event_type = take 63 event_type_process_exec })

  -- The path of one argument, if it is a file.
  abbrev pub arg_path : Option J → Text → Text
  arg_path none old = old
  arg_path (some file_arg) old = copied 4095 (json.get_ex file_arg (codes "path")) old

  -- The loop over the `left` arguments from the i-th on.
  unfoldable pub args_path : J → ℕ → ℕ → Text → Text
  args_path args zero i old = old
  args_path args (suc left) i old =
      args_path args left (i + 1)
        (arg_path (json.get_ex (arrays.array_get_idx args i) (codes "file_arg")) old)

  abbrev pub array_path : Option J → Text → Text
  array_path none old = old
  array_path (some args) old =
      if arrays.is_array args then args_path args (arrays.array_length args) 0 old else old

  abbrev pub function_path : J → Option J → Text → Text
  function_path process_kprobe none old = old
  function_path process_kprobe (some func) old =
      if contains (codes "file") (json.get_string func)
      then array_path (json.get_ex process_kprobe (codes "args")) old
      else old

  abbrev pub kprobe_process : Option J → SecurityEvent → SecurityEvent
  kprobe_process none event = event
  kprobe_process (some process) event = record event {
    pid = number (json.get_ex process (codes "pid")) event.pid;
    binary_path = copied 4095 (json.get_ex process (codes "binary")) event.binary_path;
  }

  abbrev pub kprobe_info : Option J → SecurityEvent → SecurityEvent
  kprobe_info none event = event
  kprobe_info (some process_kprobe) event =
      kprobe_process (json.get_ex process_kprobe (codes "process")) (record event {
        event_type = take 63 event_type_process_kprobe;
        file_path =
            function_path process_kprobe (json.get_ex process_kprobe (codes "function_name"))
              event.file_path;
        policy_name =
            copied 127 (json.get_ex process_kprobe (codes "policy_name")) event.policy_name;
        message = copied 1023 (json.get_ex process_kprobe (codes "message")) event.message;
        action = copied 31 (json.get_ex process_kprobe (codes "action")) event.action;
      })

  -- The time of the event is the clock's, where the event has a time.
  abbrev pub stamped : ℕ → Option J → SecurityEvent → SecurityEvent
  stamped time none event = event
  stamped time (some time_obj) event = record event { timestamp = mul64 time 1000000000 }

  abbrev pub read_event : ℕ → J → SecurityEvent
  read_event time json_event = kprobe_info (json.get_ex json_event (codes "process_kprobe")) (
      exec_info (json.get_ex json_event (codes "process_exec"))
        (stamped time (json.get_ex json_event (codes "time")) zero_event))

  abbrev pub classified : SecurityEvent → SecurityEvent
  classified event = record event {
    severity = tetragon_classify_severity event.event_type (some event.message);
    alert_type = tetragon_classify_alert_type (some event.message) event.binary_path;
  }

  -- Its arguments are not NULL, and it returns 0.
  unfoldable pub tetragon_parse_event : ℕ → J → SecurityEvent
  tetragon_parse_event time json_event = classified (read_event time json_event)
