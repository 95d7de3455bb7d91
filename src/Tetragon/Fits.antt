-- ===== src/Tetragon/Fits.antt =====
-- The texts of an event and the arrays they stand in: none is longer than its array, so that the
-- zero at its end stays.
use cyrenus.Tetragon.Parse.{
  event_type_process_exec, event_type_process_kprobe, copied, stamped, exec_parent, exec_process,
  exec_info, arg_path, array_path, function_path, kprobe_process, kprobe_info, args_path,
  tetragon_parse_event, JsonArrays,
}
use cyrenus.Api.Json.{JsonC}
use cyrenus.Tetragon.{SecurityEvent, zero_event}
use cyrenus.Prelude.{
  contains, none, zero, false, length-take, ◌+◌, true, some, some, some, some, some, some, some,
  some, some, ◌≤◌, suc, if◌then◌else◌, codes, suc, ◌<◌, take, Option, Bool, length, Text, ℕ, arith,
}

-- Each text leaves the last byte of its array free.
pub record Fits (event : SecurityEvent) : Type 0 where
  pub event_type : length event.event_type < 64
  pub process_name : length event.process_name < 256
  pub command : length event.command < 2048
  pub binary_path : length event.binary_path < 4096
  pub parent_binary : length event.parent_binary < 4096
  pub action : length event.action < 32
  pub policy_name : length event.policy_name < 128
  pub message : length event.message < 1024
  pub file_path : length event.file_path < 4096
  pub file_operation : length event.file_operation < 32

take-le : (n : ℕ) (text : Text) → length (take n text) ≤ n
take-le n text = omega (arith, length-take n text)

zero_event-Fits : Fits zero_event
zero_event-Fits = record {
  event_type = omega arith;
  process_name = omega arith;
  command = omega arith;
  binary_path = omega arith;
  parent_binary = omega arith;
  action = omega arith;
  policy_name = omega arith;
  message = omega arith;
  file_path = omega arith;
  file_operation = omega arith;
}

module _ {J : Type 0} (json : JsonC J) (arrays : JsonArrays J) where
  copied-lt :
      (n : ℕ) (tmp : Option J) (old : Text)
      → length old < suc n
      → length (copied json arrays n tmp old) < suc n
  copied-lt n none old h = h
  copied-lt n (some tmp) old h = omega (arith, take-le n (json.get_string tmp))

  stamped-Fits :
      (time : ℕ) (time_obj : Option J) (event : SecurityEvent)
      → Fits event
      → Fits (stamped json arrays time time_obj event)
  stamped-Fits time none event f = f
  stamped-Fits time (some time_obj) event f = record {
    event_type = f.event_type;
    process_name = f.process_name;
    command = f.command;
    binary_path = f.binary_path;
    parent_binary = f.parent_binary;
    action = f.action;
    policy_name = f.policy_name;
    message = f.message;
    file_path = f.file_path;
    file_operation = f.file_operation;
  }

  exec_parent-Fits :
      (parent : Option J) (event : SecurityEvent)
      → Fits event
      → Fits (exec_parent json arrays parent event)
  exec_parent-Fits none event f = f
  exec_parent-Fits (some parent) event f = record {
    event_type = f.event_type;
    process_name = f.process_name;
    command = f.command;
    binary_path = f.binary_path;
    parent_binary = copied-lt 4095 (json.get_ex parent (codes "binary")) _ (f.parent_binary);
    action = f.action;
    policy_name = f.policy_name;
    message = f.message;
    file_path = f.file_path;
    file_operation = f.file_operation;
  }

  exec_process-Fits :
      (process_exec : J) (process : Option J) (event : SecurityEvent)
      → Fits event
      → Fits (exec_process json arrays process_exec process event)
  exec_process-Fits process_exec none event f = f
  exec_process-Fits process_exec (some process) event f =
      exec_parent-Fits (json.get_ex process_exec (codes "parent")) _ (record {
        event_type = f.event_type;
        process_name = f.process_name;
        command = copied-lt 2047 (json.get_ex process (codes "arguments")) _ (f.command);
        binary_path = copied-lt 4095 (json.get_ex process (codes "binary")) _ (f.binary_path);
        parent_binary = f.parent_binary;
        action = f.action;
        policy_name = f.policy_name;
        message = f.message;
        file_path = f.file_path;
        file_operation = f.file_operation;
      })

  exec_info-Fits :
      (process_exec : Option J) (event : SecurityEvent)
      → Fits event
      → Fits (exec_info json arrays process_exec event)
  exec_info-Fits none event f = f
  exec_info-Fits (some process_exec) event f =
      exec_process-Fits process_exec (json.get_ex process_exec (codes "process")) _ (record {
        event_type = omega (arith, take-le 63 event_type_process_exec);
        process_name = f.process_name;
        command = f.command;
        binary_path = f.binary_path;
        parent_binary = f.parent_binary;
        action = f.action;
        policy_name = f.policy_name;
        message = f.message;
        file_path = f.file_path;
        file_operation = f.file_operation;
      })

  arg_path-lt :
      (file_arg : Option J) (old : Text)
      → length old < 4096
      → length (arg_path json arrays file_arg old) < 4096
  arg_path-lt none old h = h
  arg_path-lt (some file_arg) old h = copied-lt 4095 (json.get_ex file_arg (codes "path")) old h

  args_path-lt :
      (args : J) (left i : ℕ) (old : Text)
      → length old < 4096
      → length (args_path json arrays args left i old) < 4096
  unfolding args_path
  args_path-lt args zero i old h = h
  args_path-lt args (suc left) i old h =
      args_path-lt args left (i + 1) _
        (arg_path-lt (json.get_ex (arrays.array_get_idx args i) (codes "file_arg")) old h)

  if-lt :
      (b : Bool) (x y : Text) (n : ℕ)
      → length x < n
      → length y < n
      → length (if b then x else y) < n
  if-lt true x y n h k = h
  if-lt false x y n h k = k

  array_path-lt :
      (args : Option J) (old : Text)
      → length old < 4096
      → length (array_path json arrays args old) < 4096
  array_path-lt none old h = h
  array_path-lt (some args) old h =
      if-lt (arrays.is_array args) _ old 4096 (args_path-lt args (arrays.array_length args) 0 old h)
        h

  function_path-lt :
      (process_kprobe : J) (func : Option J) (old : Text)
      → length old < 4096
      → length (function_path json arrays process_kprobe func old) < 4096
  function_path-lt process_kprobe none old h = h
  function_path-lt process_kprobe (some func) old h =
      if-lt (contains (codes "file") (json.get_string func)) _ old 4096
        (array_path-lt (json.get_ex process_kprobe (codes "args")) old h) h

  kprobe_process-Fits :
      (process : Option J) (event : SecurityEvent)
      → Fits event
      → Fits (kprobe_process json arrays process event)
  kprobe_process-Fits none event f = f
  kprobe_process-Fits (some process) event f = record {
    event_type = f.event_type;
    process_name = f.process_name;
    command = f.command;
    binary_path = copied-lt 4095 (json.get_ex process (codes "binary")) _ (f.binary_path);
    parent_binary = f.parent_binary;
    action = f.action;
    policy_name = f.policy_name;
    message = f.message;
    file_path = f.file_path;
    file_operation = f.file_operation;
  }

  kprobe_info-Fits :
      (process_kprobe : Option J) (event : SecurityEvent)
      → Fits event
      → Fits (kprobe_info json arrays process_kprobe event)
  kprobe_info-Fits none event f = f
  kprobe_info-Fits (some kp) event f =
      kprobe_process-Fits (json.get_ex kp (codes "process")) _ (record {
        event_type = omega (arith, take-le 63 event_type_process_kprobe);
        process_name = f.process_name;
        command = f.command;
        binary_path = f.binary_path;
        parent_binary = f.parent_binary;
        action = copied-lt 31 (json.get_ex kp (codes "action")) _ (f.action);
        policy_name = copied-lt 127 (json.get_ex kp (codes "policy_name")) _ (f.policy_name);
        message = copied-lt 1023 (json.get_ex kp (codes "message")) _ (f.message);
        file_path = function_path-lt kp (json.get_ex kp (codes "function_name")) _ (f.file_path);
        file_operation = f.file_operation;
      })

  -- Whatever the line of the log holds, each text of its event fits the array it is copied to, with
  -- the zero behind it.
  pub tetragon_parse_event-Fits :
      (time : ℕ) (json_event : J) → Fits (tetragon_parse_event json arrays time json_event)
  unfolding tetragon_parse_event
  tetragon_parse_event-Fits time json_event =
      let f = kprobe_info-Fits (json.get_ex json_event (codes "process_kprobe")) _ (
        exec_info-Fits (json.get_ex json_event (codes "process_exec")) _
          (stamped-Fits time (json.get_ex json_event (codes "time")) zero_event zero_event-Fits)) in
      record {
        event_type = f.event_type;
        process_name = f.process_name;
        command = f.command;
        binary_path = f.binary_path;
        parent_binary = f.parent_binary;
        action = f.action;
        policy_name = f.policy_name;
        message = f.message;
        file_path = f.file_path;
        file_operation = f.file_operation;
      }
