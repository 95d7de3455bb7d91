-- ===== src/Tetragon/Tests.antt =====
-- Tests of the Tetragon events, and their theorems at concrete inputs.
use cyrenus.Live.{boot}
use cyrenus.Tetragon.Reach.{write_all, tetragon_process_json_line-reaches}
use cyrenus.Tetragon.Store.{EventRow}
use cyrenus.Tetragon.Samples.{no_address, row_list, no_arrays, quiet_monitor, kprobe_json}
use cyrenus.Tetragon.Lines.{monitor_round-lines, process_lines, log_of, AreLines}
use cyrenus.Tetragon.Process.{alert_text, Monitor, tetragon_process_json_line}
use cyrenus.Tetragon.Parse.{tetragon_parse_event}
use cyrenus.Tetragon.{zero_stats, SecurityEvent}
use cyrenus.Tetragon.Counters.{monitor_round-Tally, logged_events, Tally}
use cyrenus.Tetragon.Monitor.{monitor_round}
use cyrenus.Tetragon.Classify.{
  severity_warning, tetragon_classify_severity, tetragon_classify_alert_type,
}
use cyrenus.Live.{server_writeable, Server, established}
use cyrenus.Prelude.{
  ◌+◌, take, str_eq, str_find, true, length, refl, ◌∷◌, contains, [], some, ◌≡◌, starts_with, ◌≤◌,
  List, codes, Text, ℕ, arith,
}

abbrev joined : Server
joined = established boot 3

abbrev clock : ℕ → ℕ
clock i = 1700000000

abbrev two_lines : List Text
two_lines = codes "{}" ∷ codes "x" ∷ []

two_lines-AreLines : AreLines two_lines
unfolding codes
two_lines-AreLines = (
  ((λ e. absurd (omega arith), (λ e. absurd (omega arith), tt)), omega arith),
  (((λ e. absurd (omega arith), tt), omega arith), tt),
)

severity-test : tetragon_classify_severity [] (some (codes "suspicious file")) ≡ 2
unfolding tetragon_classify_severity codes contains str_find starts_with
severity-test = refl

alert_type-test : tetragon_classify_alert_type (some (codes "suspicious file")) [] ≡ 4
unfolding tetragon_classify_alert_type codes contains str_find starts_with
alert_type-test = refl

monitor_round-lines_example :
    monitor_round kprobe_json no_arrays row_list no_address quiet_monitor clock true
      (log_of two_lines)
    ≡ (process_lines kprobe_json no_arrays row_list no_address quiet_monitor clock 0 two_lines, [])
monitor_round-lines_example =
    monitor_round-lines kprobe_json no_arrays row_list no_address quiet_monitor clock two_lines
      two_lines-AreLines

zero-Tally : Tally quiet_monitor.stats []
zero-Tally = record {
  total = refl;
  exec = refl;
  alerts = refl;
  blocked = refl;
  unused = (refl, refl, refl);
}

monitor_round-Tally_example :
    let after =
      (monitor_round kprobe_json no_arrays row_list no_address quiet_monitor clock true
        (log_of two_lines)).0 in
    let events = logged_events kprobe_json no_arrays row_list no_address [] clock 0 two_lines in
    Tally after.stats events × (after.live.current_msg_id ≡ 0 + length events)
monitor_round-Tally_example =
    monitor_round-Tally kprobe_json no_arrays row_list no_address quiet_monitor clock two_lines
      zero-Tally two_lines-AreLines

abbrev brace_line : Text
brace_line = codes "{}"

abbrev blocked_shell : SecurityEvent
blocked_shell = tetragon_parse_event kprobe_json no_arrays 1700000000 0

blocked_shell-alert : severity_warning ≤ blocked_shell.severity
unfolding tetragon_parse_event tetragon_classify_severity codes contains str_find starts_with str_eq
    take
blocked_shell-alert = omega arith

abbrev watched : Monitor (List EventRow)
watched = record { stats = zero_stats; g_db = some []; live = joined }

joined-client : joined.clients 3 ≡ some (record { last_msg_id = 0; written = [] })
unfolding established
joined-client = refl

brace_line-parses : kprobe_json.tokener_parse (some brace_line) ≡ some 0
unfolding codes starts_with
brace_line-parses = refl

brace_line-length : 1 ≤ length brace_line
unfolding codes
brace_line-length = omega arith

joined-version : 0 ≤ joined.current_msg_id
unfolding established
joined-version = omega arith

tetragon_process_json_line-reaches_example :
    let after =
      (tetragon_process_json_line kprobe_json no_arrays row_list no_address watched 1700000000
        (some brace_line)).1 in
    (server_writeable (write_all after.live (1 ∷ 2 ∷ [])) 3).clients 3
    ≡ some (record {
      last_msg_id = joined.current_msg_id + 1;
      written = alert_text blocked_shell ∷ [];
    })
tetragon_process_json_line-reaches_example =
    tetragon_process_json_line-reaches kprobe_json no_arrays row_list no_address watched 1700000000
      3 brace_line 0 (record { last_msg_id = 0; written = [] }) (1 ∷ 2 ∷ []) brace_line-length
      brace_line-parses blocked_shell-alert joined-client joined-version
      (λ e. absurd (omega arith), (λ e. absurd (omega arith), tt))
