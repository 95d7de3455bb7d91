-- ===== src/Tetragon/Lines.antt =====
-- What a round of the monitor reads of the log: each whole line once and in order, and all of the
-- text that was there.
use cyrenus.Tetragon.Process.{Monitor}
use cyrenus.Tetragon.Store.{EventSql}
use cyrenus.Tetragon.Parse.{JsonArrays}
use cyrenus.Api.Json.{JsonC}
use cyrenus.Tetragon.Monitor.{after_line, read_loop, monitor_round, fgets, before_newline}
use cyrenus.Prelude.{
  inr, inr, inr, inr, ◌∙◌, zero, refl, inl, inl, inl, inl, ◌==◌, ◌+◌, true, length-append, ◌≡◌,
  Bool-cases, ◌≢◌, ◌≤◌, ◌<◌, [], suc, ◌∷◌, length, ◌++◌, Text, List, ℕ, arith,
}

-- No newline stands in the line.
abbrev pub NoNewline : Text → Type 0
NoNewline [] = Unit
NoNewline (c ∷ cs) = (c ≢ 10) × NoNewline cs

-- Lines that the buffer holds whole.
abbrev pub AreLines : List Text → Type 0
AreLines [] = Unit
AreLines (l ∷ ls) = (NoNewline l × (length l ≤ 8190)) × AreLines ls

-- The log that holds the lines.
abbrev pub log_of : List Text → Text
log_of [] = []
log_of (l ∷ ls) = l ++ (10 ∷ log_of ls)

fgets-line :
    (n : ℕ) (l rest : Text)
    → NoNewline l
    → length l < n
    → fgets n (l ++ (10 ∷ rest)) ≡ (l ++ (10 ∷ []), rest)
unfolding fgets
fgets-line zero l rest h k = absurd (omega arith)
fgets-line (suc n) [] rest h k = refl
fgets-line (suc n) (c ∷ cs) rest (h, hs) k = elim (Bool-cases (c == 10)) [
  | inl e ↦ absurd (h (ground arith))
  | inr e ↦ rw (e, fgets-line n cs rest hs (omega arith)) refl
]

before_newline-line : (l : Text) → NoNewline l → before_newline (l ++ (10 ∷ [])) ≡ l
unfolding before_newline
before_newline-line [] h = refl
before_newline-line (c ∷ cs) (h, hs) = elim (Bool-cases (c == 10)) [
  | inl e ↦ absurd (h (ground arith))
  | inr e ↦ rw (e, before_newline-line cs hs) refl
]

fgets-rest-le : (n : ℕ) (text : Text) → length (fgets n text).1 ≤ length text
unfolding fgets
fgets-rest-le zero text = omega arith
fgets-rest-le (suc n) [] = omega arith
fgets-rest-le (suc n) (c ∷ cs) = elim (Bool-cases (c == 10)) [
  | inl e ↦ rw e (omega arith)
  | inr e ↦ rw e (omega (arith, fgets-rest-le n cs))
]

fgets-takes : (n c : ℕ) (cs : Text) → length (fgets (suc n) (c ∷ cs)).1 ≤ length cs
unfolding fgets
fgets-takes n c cs = elim (Bool-cases (c == 10)) [
  | inl e ↦ rw e (omega arith)
  | inr e ↦ rw e (omega (arith, fgets-rest-le n cs))
]

module _ {J Db : Type 0} (json : JsonC J) (arrays : JsonArrays J) (sql : EventSql Db)
    (inet_ntoa : ℕ → Text) where
  -- The lines processed one by one, from the i-th reading of the clock on.
  abbrev pub process_lines : Monitor Db → (ℕ → ℕ) → ℕ → List Text → Monitor Db
  process_lines m times i [] = m
  process_lines m times i (l ∷ ls) =
      process_lines (after_line json arrays sql inet_ntoa m (times i) l) times (i + 1) ls

  read_loop-rest :
      (fuel : ℕ) (m : Monitor Db) (times : ℕ → ℕ) (i : ℕ) (text : Text)
      → length text ≤ fuel
      → (read_loop json arrays sql inet_ntoa fuel m times i text).1 ≡ []
  unfolding read_loop
  read_loop-rest zero m times i [] h = refl
  read_loop-rest zero m times i (c ∷ cs) h = absurd (omega arith)
  read_loop-rest (suc fuel) m times i [] h = refl
  read_loop-rest (suc fuel) m times i (c ∷ cs) h =
      read_loop-rest fuel _ times (i + 1) (fgets 8191 (c ∷ cs)).1
        (omega (arith, fgets-takes 8190 c cs))

  -- A round reads all that the log holds, if it was modified.
  pub monitor_round-all :
      (m : Monitor Db) (times : ℕ → ℕ) (text : Text)
      → (monitor_round json arrays sql inet_ntoa m times true text).1 ≡ []
  unfolding monitor_round
  monitor_round-all m times text = read_loop-rest (length text) m times 0 text (omega arith)

  read_loop-line :
      (fuel : ℕ) (m : Monitor Db) (times : ℕ → ℕ) (i : ℕ) (l rest : Text)
      → NoNewline l
      → length l ≤ 8190
      → read_loop json arrays sql inet_ntoa (suc fuel) m times i (l ++ (10 ∷ rest))
        ≡ read_loop json arrays sql inet_ntoa fuel
            (after_line json arrays sql inet_ntoa m (times i) l)
            times
            (i + 1)
            rest
  unfolding read_loop
  read_loop-line fuel m times i [] rest h k =
      rw (fgets-line 8191 [] rest h (omega arith), before_newline-line [] h) refl
  read_loop-line fuel m times i (c ∷ cs) rest h k =
      rw (fgets-line 8191 (c ∷ cs) rest h (omega arith), before_newline-line (c ∷ cs) h) refl

  read_loop-lines :
      (fuel : ℕ) (m : Monitor Db) (times : ℕ → ℕ) (i : ℕ) (ls : List Text)
      → AreLines ls
      → length (log_of ls) ≤ fuel
      → read_loop json arrays sql inet_ntoa fuel m times i (log_of ls)
        ≡ (process_lines m times i ls, [])
  unfolding read_loop
  read_loop-lines zero m times i [] h k = refl
  read_loop-lines (suc fuel) m times i [] h k = refl
  read_loop-lines zero m times i (l ∷ ls) h k =
      absurd (omega (arith, length-append l (10 ∷ log_of ls)))
  read_loop-lines (suc fuel) m times i (l ∷ ls) ((h, s), hs) k =
      read_loop-line fuel m times i l (log_of ls) h s
      ∙ read_loop-lines fuel _ times (i + 1) ls hs (omega (arith, length-append l (10 ∷ log_of ls)))

  -- A round on a modified log that holds whole lines of at most 8190 bytes processes each line once
  -- and in order, and leaves nothing unread.
  pub monitor_round-lines :
      (m : Monitor Db) (times : ℕ → ℕ) (ls : List Text)
      → AreLines ls
      → monitor_round json arrays sql inet_ntoa m times true (log_of ls)
        ≡ (process_lines m times 0 ls, [])
  unfolding monitor_round
  monitor_round-lines m times ls h =
      read_loop-lines (length (log_of ls)) m times 0 ls h (omega arith)
