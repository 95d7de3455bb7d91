-- ===== src/Tetragon/Reach.antt =====
-- The way of an alert from a line of the log to a client of the live stream.
use cyrenus.Tetragon.Fits.{tetragon_parse_event-Fits}
use cyrenus.Tetragon.Store.{EventSql}
use cyrenus.Tetragon.Parse.{tetragon_parse_event, JsonArrays}
use cyrenus.Api.Json.{JsonC}
use cyrenus.Live.{Server, set_client, write_client, Client, ws_broadcast_message, server_writeable}
use cyrenus.Tetragon.Classify.{severity_warning, severity_critical}
use cyrenus.Tetragon.{SecurityEvent}
use cyrenus.Tetragon.Process.{
  Monitor, tetragon_generate_alert, handle_event, tetragon_process_json_line, severity_str,
  alert_text,
}
use cyrenus.Prelude.{
  sym, List, ◌≢◌, Option-cases, ◌≤◌, length-decimal_digits, take_short, false, true, ◌∙◌, leb, some,
  decimal, Option, refl, [], inr, inr, inl, inl, ap, ltb, ◌∷◌, length-append, ◌==◌, ◌≡◌, ◌+◌, ◌++◌,
  Bool-cases, ◌≤◌, ◌<◌, length, Text, codes, ℕ, arith,
}

length-append-le :
    (xs ys : Text) (a b : ℕ) → length xs ≤ a → length ys ≤ b → length (xs ++ ys) ≤ a + b
length-append-le xs ys a b h k = omega (arith, length-append xs ys)

length-codes-severity : (s : ℕ) → length (severity_str s) ≤ 8
unfolding codes
length-codes-severity s = elim (Bool-cases (s == severity_critical)) [
  | inl e ↦ rw e (omega arith)
  | inr e ↦ rw e (omega arith)
]

after_pid : SecurityEvent → Text
after_pid e = codes ",\"action\":\"" ++ (e.action ++ codes "\"}")

after_pid-le : (e : SecurityEvent) → length e.action < 32 → length (after_pid e) ≤ 50
unfolding codes after_pid
after_pid-le e h = omega (arith, length-append e.action (34 ∷ 125 ∷ []))

after_severity : SecurityEvent → Text
unfolding after_pid
after_severity e = codes "\",\"pid\":" ++ decimal e.pid (after_pid e)

after_severity-le : (e : SecurityEvent) → length e.action < 32 → length (after_severity e) ≤ 80
unfolding codes after_severity
after_severity-le e h =
    omega (arith, length-decimal_digits 20 e.pid (after_pid e), after_pid-le e h)

-- The text of an alert has less than 200 bytes, so that neither buffer cuts it.
alert_text-short : (e : SecurityEvent) → length e.action < 32 → length (alert_text e) ≤ 200
unfolding alert_text codes after_severity after_pid
alert_text-short e h = omega (
  arith,
  length-append (severity_str e.severity) (after_severity e),
  length-codes-severity e.severity,
  after_severity-le e h,
)

set_client-here :
    (clients : ℕ → Option Client) (c : ℕ) (client : Client)
    → set_client clients c client c ≡ some client
set_client-here clients c client = ground arith

behind : (a b : ℕ) → a ≤ b → ltb a (b + 1) ≡ true
behind a b h = ground arith

write_client-newest :
    (s : Server) (msg : Text) (client : Client)
    → length msg ≤ 4095
    → client.last_msg_id ≤ s.current_msg_id
    → write_client (ws_broadcast_message s msg) client
      ≡ record { last_msg_id = s.current_msg_id + 1; written = msg ∷ client.written }
unfolding ws_broadcast_message write_client
write_client-newest s msg client l v =
    rw (behind client.last_msg_id s.current_msg_id v)
      (rw (take_short 4095 msg l) (rw (take_short 4095 msg l) refl))

-- The service lets clients write, one after the other.
abbrev pub write_all : Server → List ℕ → Server
write_all s [] = s
write_all s (d ∷ ds) = write_all (server_writeable s d) ds

-- None of the clients is c.
abbrev pub Without : ℕ → List ℕ → Type 0
Without c [] = Unit
Without c (d ∷ ds) = (d ≢ c) × Without c ds

-- What a write to other clients leaves for c.
abbrev pub IsSame : ℕ → Server → Server → Type 0
IsSame c s t =
    (t.clients c ≡ s.clients c)
    × (t.broadcast_msg ≡ s.broadcast_msg)
    × (t.current_msg_id ≡ s.current_msg_id)

server_writeable-IsSame : (s : Server) (c d : ℕ) → d ≢ c → IsSame c s (server_writeable s d)
unfolding server_writeable
server_writeable-IsSame s c d n = elim (Option-cases (s.clients d)) [
  | inl e ↦ rw e (refl, refl, refl)
  | inr e ↦ rw e.1 (ground arith, refl, refl)
]

write_all-IsSame : (s : Server) (c : ℕ) (ds : List ℕ) → Without c ds → IsSame c s (write_all s ds)
write_all-IsSame s c [] w = (refl, refl, refl)
write_all-IsSame s c (d ∷ ds) w =
    let one = server_writeable-IsSame s c d w.0 in
    let more = write_all-IsSame (server_writeable s d) c ds w.1 in
    (more.0 ∙ one.0, more.1 ∙ one.1, more.2 ∙ one.2)

write_client-same :
    (s t : Server) (c : ℕ) (client : Client)
    → IsSame c s t
    → write_client t client ≡ write_client s client
unfolding write_client
write_client-same s t c client e = rw (e.1, e.2) refl

-- Two states that are the same for c write the same to it.
server_writeable-same :
    (s t : Server) (c : ℕ)
    → IsSame c s t
    → (server_writeable t c).clients c ≡ (server_writeable s c).clients c
unfolding server_writeable write_client
server_writeable-same s t c e = elim (Option-cases (s.clients c)) [
  | inl n ↦ rw (e.0) (rw n (e.0))
  | inr n ↦ rw (e.0) (
      rw (n.1) (
        set_client-here t.clients c (write_client t n.0)
        ∙ ap (λ client. some client) (write_client-same s t c n.0 e)
        ∙ sym (set_client-here s.clients c (write_client s n.0))))
]

-- A client that has seen no version to come is sent what was broadcast last.
broadcast_then_write :
    (s : Server) (msg : Text) (c : ℕ) (client : Client)
    → length msg ≤ 4095
    → s.clients c ≡ some client
    → client.last_msg_id ≤ s.current_msg_id
    → (server_writeable (ws_broadcast_message s msg) c).clients c
      ≡ some (record { last_msg_id = s.current_msg_id + 1; written = msg ∷ client.written })
unfolding server_writeable ws_broadcast_message
broadcast_then_write s msg c client l e v = rw e (
    set_client-here s.clients c (write_client (ws_broadcast_message s msg) client)
    ∙ ap (λ client'. some client') (write_client-newest s msg client l v))

at_least :
    (s : ℕ)
    → severity_warning ≤ s
    → (leb severity_warning s ≡ true) × (ltb s severity_warning ≡ false)
at_least s h = ground arith

module _ {J Db : Type 0} (json : JsonC J) (arrays : JsonArrays J) (sql : EventSql Db)
    (inet_ntoa : ℕ → Text) where
  handle_event-live :
      (m : Monitor Db) (e : SecurityEvent)
      → severity_warning ≤ e.severity
      → length e.action < 32
      → (handle_event json arrays sql inet_ntoa m e).live
        ≡ ws_broadcast_message m.live (alert_text e)
  unfolding handle_event tetragon_generate_alert
  handle_event-live m e s l =
      let b = at_least e.severity s in
      rw (b.0, b.1)
        (ap (λ msg. ws_broadcast_message m.live msg)
          (take_short 1023 (alert_text e) (omega (arith, alert_text-short e l))))

  line-live :
      (m : Monitor Db) (time : ℕ) (line : Text) (j : J)
      → 1 ≤ length line
      → json.tokener_parse (some line) ≡ some j
      → severity_warning ≤ (tetragon_parse_event json arrays time j).severity
      → (tetragon_process_json_line json arrays sql inet_ntoa m time (some line)).1.live
        ≡ ws_broadcast_message m.live (alert_text (tetragon_parse_event json arrays time j))
  unfolding tetragon_process_json_line
  line-live m time [] j n p s = absurd (omega arith)
  line-live m time (c ∷ cs) j n p s = rw p (
      handle_event-live m (tetragon_parse_event json arrays time j) s
        ((tetragon_parse_event-Fits json arrays time j).action))

  -- A line of the log that is JSON and whose event is an alert: if the service then lets any other
  -- clients of the live stream write, and after them this one, with no other message broadcast in
  -- between, the client is sent the whole text of the alert, whatever the event holds. (The stream
  -- keeps one message only, so that the next broadcast would take the place of the alert.)
  pub tetragon_process_json_line-reaches :
      (m : Monitor Db) (time c : ℕ) (line : Text) (j : J) (client : Client) (others : List ℕ)
      → 1 ≤ length line
      → json.tokener_parse (some line) ≡ some j
      → severity_warning ≤ (tetragon_parse_event json arrays time j).severity
      → m.live.clients c ≡ some client
      → client.last_msg_id ≤ m.live.current_msg_id
      → Without c others
      → let after = (tetragon_process_json_line json arrays sql inet_ntoa m time (some line)).1 in
        (server_writeable (write_all after.live others) c).clients c
        ≡ some (record {
          last_msg_id = m.live.current_msg_id + 1;
          written = alert_text (tetragon_parse_event json arrays time j) ∷ client.written;
        })
  tetragon_process_json_line-reaches m time c line j client others n p s e v w =
      let event = tetragon_parse_event json arrays time j in
      let l = alert_text-short event ((tetragon_parse_event-Fits json arrays time j).action) in
      rw (line-live m time line j n p s) (
        server_writeable-same (ws_broadcast_message m.live (alert_text event)) _ c
          (write_all-IsSame (ws_broadcast_message m.live (alert_text event)) c others w)
        ∙ (broadcast_then_write m.live (alert_text event) c client (omega (arith, l)) e v))
