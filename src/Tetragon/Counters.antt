-- ===== src/Tetragon/Counters.antt =====
-- The counters of the monitor against the events of the lines that it processed.
use cyrenus.Tetragon.Monitor.{after_line, monitor_round}
use cyrenus.Tetragon.Lines.{monitor_round-lines, log_of, process_lines, AreLines}
use cyrenus.Live.{ws_broadcast_message}
use cyrenus.Tetragon.Store.{EventSql}
use cyrenus.Tetragon.Process.{
  alerted, process_json, counted_event, tetragon_process_json_line, Monitor,
  tetragon_generate_alert, handle_event, is_exec, is_blocked,
}
use cyrenus.Tetragon.Classify.{severity_warning}
use cyrenus.Tetragon.Parse.{tetragon_parse_event, JsonArrays}
use cyrenus.Api.Json.{JsonC}
use cyrenus.Tetragon.{SecurityEvent, TetragonStats}
use cyrenus.Prelude.{
  inr, inr, none, refl, inl, inl, some, some, Bool-cases, ltb, Option, false, [], true, ◌+◌, Text,
  ◌∷◌, length, add64, if◌then◌else◌, List, leb, ◌&&◌, u64, ◌≡◌, Bool, ℕ, arith,
}

-- How many events of the list satisfy the test.
abbrev pub count_of : (SecurityEvent → Bool) → List SecurityEvent → ℕ
count_of p [] = 0
count_of p (e ∷ es) = let n = count_of p es in if p e then 1 + n else n

abbrev pub is_alert : SecurityEvent → Bool
is_alert e = leb severity_warning e.severity

abbrev pub is_blocked_alert : SecurityEvent → Bool
is_blocked_alert e = is_alert e && is_blocked e

-- The counters are the numbers of events of their kinds, as 64-bit numbers; three are never used.
pub record Tally (stats : TetragonStats) (events : List SecurityEvent) : Type 0 where
  pub total : stats.total_events ≡ u64 (length events)
  pub exec : stats.process_exec_events ≡ u64 (count_of is_exec events)
  pub alerts : stats.alerts_generated ≡ u64 (count_of is_alert events)
  pub blocked : stats.events_blocked ≡ u64 (count_of is_blocked_alert events)
  pub unused :
      (stats.process_exit_events ≡ 0) × (stats.file_access_events ≡ 0) × (stats.network_events ≡ 0)

step_u64 : (x n : ℕ) → x ≡ u64 n → add64 x 1 ≡ u64 (1 + n)
step_u64 x n h = omega arith

if_u64 :
    (b : Bool) (x n : ℕ) → x ≡ u64 n → (if b then add64 x 1 else x) ≡ u64 (if b then 1 + n else n)
if_u64 true x n h = omega arith
if_u64 false x n h = h

abbrev new_stats : TetragonStats → SecurityEvent → TetragonStats
new_stats stats e = counted_event (if is_alert e then alerted stats e else stats) e

alert-Tally :
    (stats : TetragonStats) (e : SecurityEvent) (events : List SecurityEvent)
    → is_alert e ≡ true
    → Tally stats events
    → Tally (counted_event (alerted stats e) e) (e ∷ events)
alert-Tally stats e events a t = record {
  total = omega (arith, t.total);
  exec = if_u64 (is_exec e) _ _ (t.exec);
  alerts = rw a (step_u64 _ _ (t.alerts));
  blocked = rw a (if_u64 (is_blocked e) _ _ (t.blocked));
  unused = t.unused;
}

quiet-Tally :
    (stats : TetragonStats) (e : SecurityEvent) (events : List SecurityEvent)
    → is_alert e ≡ false
    → Tally stats events
    → Tally (counted_event stats e) (e ∷ events)
quiet-Tally stats e events a t = record {
  total = omega (arith, t.total);
  exec = if_u64 (is_exec e) _ _ (t.exec);
  alerts = rw a (t.alerts);
  blocked = rw a (t.blocked);
  unused = t.unused;
}

new_stats-Tally :
    (stats : TetragonStats) (e : SecurityEvent) (events : List SecurityEvent)
    → Tally stats events
    → Tally (new_stats stats e) (e ∷ events)
new_stats-Tally stats e events t = elim (Bool-cases (is_alert e)) [
  | inl a ↦ rw a (alert-Tally stats e events a t)
  | inr a ↦ rw a (quiet-Tally stats e events a t)
]

not_below : (s : ℕ) → leb 2 s ≡ true → ltb s 2 ≡ false
not_below s h = ground arith

module _ {J Db : Type 0} (json : JsonC J) (arrays : JsonArrays J) (sql : EventSql Db)
    (inet_ntoa : ℕ → Text) where
  -- One event: its statistics, and one broadcast.
  handle_event-counts :
      (m : Monitor Db) (e : SecurityEvent)
      → let after = handle_event json arrays sql inet_ntoa m e in
        (after.stats ≡ new_stats m.stats e)
        × (after.live.current_msg_id ≡ m.live.current_msg_id + 1)
  unfolding handle_event tetragon_generate_alert ws_broadcast_message
  handle_event-counts m e = elim (Bool-cases (is_alert e)) [
    | inl a ↦ rw (a, not_below e.severity a) (refl, refl)
    | inr a ↦ rw a (refl, refl)
  ]

  -- The value of a line, and its event.
  abbrev pub parsed_line : Text → Option J
  parsed_line [] = none
  parsed_line (c ∷ cs) = json.tokener_parse (some (c ∷ cs))

  abbrev pub parsed_event : ℕ → Option J → Option SecurityEvent
  parsed_event time none = none
  parsed_event time (some j) = some (tetragon_parse_event json arrays time j)

  abbrev pub with_event : Option SecurityEvent → List SecurityEvent → List SecurityEvent
  with_event none es = es
  with_event (some e) es = e ∷ es

  abbrev pub event_of : ℕ → Text → Option SecurityEvent
  event_of time line = parsed_event time (parsed_line line)

  -- The events of the lines, the latest first, in front of those before.
  abbrev pub logged_events : List SecurityEvent → (ℕ → ℕ) → ℕ → List Text → List SecurityEvent
  logged_events es times i [] = es
  logged_events es times i (l ∷ ls) =
      logged_events (with_event (event_of (times i) l) es) times (i + 1) ls

  after_parse-Tally :
      (m : Monitor Db) (time : ℕ) (j : Option J) (es : List SecurityEvent)
      → Tally m.stats es
      → let after = (process_json json arrays sql inet_ntoa m time j).1 in
        let new = with_event (parsed_event time j) es in
        Tally after.stats new
        × (after.live.current_msg_id + length es ≡ m.live.current_msg_id + length new)
  after_parse-Tally m time none es t = (t, refl)
  after_parse-Tally m time (some j) es t =
      let c = handle_event-counts m (tetragon_parse_event json arrays time j) in
      (rw c.0 (new_stats-Tally m.stats _ es t), omega (arith, c.1))

  after_line-Tally :
      (m : Monitor Db) (time : ℕ) (l : Text) (es : List SecurityEvent)
      → Tally m.stats es
      → let after = after_line json arrays sql inet_ntoa m time l in
        let new = with_event (event_of time l) es in
        Tally after.stats new
        × (after.live.current_msg_id + length es ≡ m.live.current_msg_id + length new)
  unfolding tetragon_process_json_line
  after_line-Tally m time [] es t = (t, refl)
  after_line-Tally m time (c ∷ cs) es t =
      after_parse-Tally m time (json.tokener_parse (some (c ∷ cs))) es t

  process_lines-Tally :
      (m : Monitor Db) (times : ℕ → ℕ) (i : ℕ) (ls : List Text) (es : List SecurityEvent)
      → Tally m.stats es
      → let after = process_lines json arrays sql inet_ntoa m times i ls in
        let new = logged_events es times i ls in
        Tally after.stats new
        × (after.live.current_msg_id + length es ≡ m.live.current_msg_id + length new)
  process_lines-Tally m times i [] es t = (t, refl)
  process_lines-Tally m times i (l ∷ ls) es t =
      let a = after_line-Tally m (times i) l es t in
      let r =
        process_lines-Tally (after_line json arrays sql inet_ntoa m (times i) l) times (i + 1) ls
          (with_event (event_of (times i) l) es) a.0 in
      (r.0, omega (arith, a.1, r.1))

  -- A round, with all counters at 0 before, on a modified log of whole lines of at most 8190 bytes:
  -- the counters are the numbers of the events of the lines that are JSON, of those among them that
  -- start a process, that are alerts, and that are alerts of a stopped action, as 64-bit numbers;
  -- and the live stream has one message more for each event.
  pub monitor_round-Tally :
      (m : Monitor Db) (times : ℕ → ℕ) (ls : List Text)
      → Tally m.stats []
      → AreLines ls
      → let after = (monitor_round json arrays sql inet_ntoa m times true (log_of ls)).0 in
        let events = logged_events [] times 0 ls in
        Tally after.stats events
        × (after.live.current_msg_id ≡ m.live.current_msg_id + length events)
  monitor_round-Tally m times ls t h =
      let r = process_lines-Tally m times 0 ls [] t in
      rw (monitor_round-lines json arrays sql inet_ntoa m times ls h) (r.0, omega (arith, r.1))
