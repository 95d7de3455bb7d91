-- ===== src/Tetragon/Monitor.antt =====
-- `tetragon_event_monitor_thread` of src/tetragon_events.c: the lines that a round reads of the log,
-- and what it does with them.
use cyrenus.Tetragon.Process.{tetragon_process_json_line, Monitor}
use cyrenus.Tetragon.Store.{EventSql}
use cyrenus.Tetragon.Parse.{JsonArrays}
use cyrenus.Api.Json.{JsonC}
use cyrenus.Prelude.{some, length, ◌+◌, Bool, zero, ◌==◌, if◌then◌else◌, suc, [], ◌∷◌, Text, ℕ}

-- At most n bytes, up to a newline and with it, and what is left: fgets at the start of a text.
unfoldable pub fgets : ℕ → Text → Text × Text
fgets zero text = ([], text)
fgets (suc n) [] = ([], [])
fgets (suc n) (c ∷ cs) = let r = fgets n cs in if c == 10 then (c ∷ [], cs) else (c ∷ r.0, r.1)

-- line[strcspn(line, "\n")] = 0
unfoldable pub before_newline : Text → Text
before_newline [] = []
before_newline (c ∷ cs) = let rest = before_newline cs in if c == 10 then [] else c ∷ rest

module _ {J Db : Type 0} (json : JsonC J) (arrays : JsonArrays J) (sql : EventSql Db)
    (inet_ntoa : ℕ → Text) where
  -- The state after a line that was read, its result being ignored.
  abbrev pub after_line : Monitor Db → ℕ → Text → Monitor Db
  after_line m time line =
      (tetragon_process_json_line json arrays sql inet_ntoa m time (some line)).1

  -- The inner loop, from the i-th reading of the clock on: the state, and the text that is not read
  -- where the fuel ends. `line` has 8192 bytes.
  unfoldable pub read_loop : ℕ → Monitor Db → (ℕ → ℕ) → ℕ → Text → Monitor Db × Text
  read_loop zero m times i text = (m, text)
  read_loop (suc fuel) m times i [] = (m, [])
  read_loop (suc fuel) m times i (c ∷ cs) =
      let r = fgets 8191 (c ∷ cs) in
      read_loop fuel (after_line m (times i) (before_newline r.0)) times (i + 1) r.1

  -- One round of the thread: whether the log was modified, and what it has behind the position.
  -- Every fgets takes a byte.
  unfoldable pub monitor_round : Monitor Db → (ℕ → ℕ) → Bool → Text → Monitor Db × Text
  monitor_round m times modified text =
      if modified then read_loop (length text) m times 0 text else (m, text)
