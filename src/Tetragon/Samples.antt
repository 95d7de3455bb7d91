-- ===== src/Tetragon/Samples.antt =====
-- A concrete log for the tests and the witnesses: each line that starts with a brace is a kprobe
-- event of a blocked shell.
use cyrenus.Live.{boot}
use cyrenus.Tetragon.{zero_stats}
use cyrenus.Http.Database.{done}
use cyrenus.Tetragon.Process.{Monitor}
use cyrenus.Tetragon.Store.{EventRow, EventSql}
use cyrenus.Tetragon.Parse.{JsonArrays}
use cyrenus.Api.Json.{JsonC}
use cyrenus.Prelude.{
  none, str_eq, ◌∷◌, codes, ◌&&◌, starts_with, ◌==◌, if◌then◌else◌, false, List, [], some, Option,
  Text, ℕ,
}

abbrev pub braces : Option Text → Option ℕ
braces none = none
braces (some text) = if starts_with (codes "{") text then some 0 else none

-- The nodes of the event by number.
abbrev pub kprobe_node : ℕ → Text → Option ℕ
kprobe_node j key =
    if j == 0 && str_eq key (codes "process_kprobe")
    then some 1
    else if j == 1 && str_eq key (codes "message")
    then some 2
    else if j == 1 && str_eq key (codes "action")
    then some 3
    else none

abbrev pub kprobe_text : ℕ → Text
kprobe_text j = if j == 2 then codes "RCE detected" else codes "Sigkill"

abbrev pub kprobe_json : JsonC ℕ
kprobe_json = record {
  tokener_parse = braces;
  get_ex = kprobe_node;
  get_string = kprobe_text;
  get_int = λ j. 0;
}

abbrev pub no_arrays : JsonArrays ℕ
no_arrays = record { is_array = λ j. false; array_length = λ j. 0; array_get_idx = λ j i. 0 }

-- A database that keeps the rows.
abbrev pub row_list : EventSql (List EventRow)
row_list = record { insert_security_event = λ db r. (done, r ∷ db) }

abbrev pub no_address : ℕ → Text
no_address ip = []

abbrev pub quiet_monitor : Monitor (List EventRow)
quiet_monitor = record { stats = zero_stats; g_db = some []; live = boot }
