-- ===== src/Tetragon/Process.antt =====
-- `tetragon_generate_alert` and `tetragon_process_json_line` of src/tetragon_events.c.
use cyrenus.Tetragon.Classify.{severity_warning, severity_critical}
use cyrenus.Tetragon.Store.{tetragon_store_event, EventSql}
use cyrenus.Live.{ws_broadcast_message, Server}
use cyrenus.Tetragon.Parse.{tetragon_parse_event, event_type_process_exec, JsonArrays}
use cyrenus.Api.Json.{JsonC}
use cyrenus.Tetragon.{TetragonStats, SecurityEvent}
use cyrenus.Prelude.{
  [], none, true, ◌∷◌, some, some, decimal, ◌||◌, ltb, leb, false, ◌==◌, ◌++◌, str_eq, Option,
  if◌then◌else◌, codes, take, Bool, add64, Text, ℕ,
}

-- The counters, the database of the program and the live stream.
pub record Monitor (Db : Type 0) : Type 0 where
  pub stats : TetragonStats
  pub g_db : Option Db
  pub live : Server

abbrev pub severity_str : ℕ → Text
severity_str severity = if severity == severity_critical then codes "CRITICAL" else codes "WARNING"

-- The text that snprintf is given, before its cut.
unfoldable pub alert_text : SecurityEvent → Text
alert_text event =
    codes "{\"type\":\"security_alert\",\"severity\":\""
    ++ (severity_str event.severity
        ++ (codes "\",\"pid\":"
            ++ decimal event.pid (codes ",\"action\":\"" ++ (event.action ++ codes "\"}"))))

abbrev pub alert_json : SecurityEvent → Text
alert_json event = take 1023 (alert_text event)

-- The action says that the event was stopped.
abbrev pub is_blocked : SecurityEvent → Bool
is_blocked event = str_eq event.action (codes "Sigkill") || str_eq event.action (codes "block")

abbrev pub is_exec : SecurityEvent → Bool
is_exec event = str_eq event.event_type event_type_process_exec

abbrev pub alerted : TetragonStats → SecurityEvent → TetragonStats
alerted stats event = record stats {
  alerts_generated = add64 stats.alerts_generated 1;
  events_blocked = if is_blocked event then add64 stats.events_blocked 1 else stats.events_blocked;
}

abbrev pub counted_event : TetragonStats → SecurityEvent → TetragonStats
counted_event stats event = record stats {
  total_events = add64 stats.total_events 1;
  process_exec_events =
      if is_exec event then add64 stats.process_exec_events 1 else stats.process_exec_events;
}

module _ {J Db : Type 0} (json : JsonC J) (arrays : JsonArrays J) (sql : EventSql Db)
    (inet_ntoa : ℕ → Text) where
  unfoldable pub tetragon_generate_alert : Monitor Db → SecurityEvent → Monitor Db
  tetragon_generate_alert m event = if ltb event.severity severity_warning then m else record m {
    live = ws_broadcast_message m.live (alert_json event);
    stats = alerted m.stats event;
  }

  abbrev pub notify : Monitor Db → SecurityEvent → Monitor Db
  notify m event =
      if leb severity_warning event.severity
      then tetragon_generate_alert m event
      else record m { live = ws_broadcast_message m.live (codes "{\"type\":\"security_update\"}") }

  abbrev pub count_event : Monitor Db → SecurityEvent → Monitor Db
  count_event m event = record m { stats = counted_event m.stats event }

  -- One event: stored, told to the clients, counted.
  unfoldable pub handle_event : Monitor Db → SecurityEvent → Monitor Db
  handle_event m event =
      count_event
        (notify (record m { g_db = tetragon_store_event sql inet_ntoa m.g_db event }) event) event

  abbrev pub process_json : Monitor Db → ℕ → Option J → Bool × Monitor Db
  process_json m time none = (false, m)
  process_json m time (some json_event) =
      (true, handle_event m (tetragon_parse_event json arrays time json_event))

  -- Whether it returns 0, and the state; a line that is `none` is NULL.
  unfoldable pub tetragon_process_json_line : Monitor Db → ℕ → Option Text → Bool × Monitor Db
  tetragon_process_json_line m time none = (false, m)
  tetragon_process_json_line m time (some []) = (false, m)
  tetragon_process_json_line m time (some (c ∷ cs)) =
      process_json m time (json.tokener_parse (some (c ∷ cs)))
