-- ===== src/Security/Listed.antt =====
-- What the list of the security events answers: the range of time that it asks for, and how many
-- events it gives.
use cyrenus.Security.Events.{
  column, event_filter, copied_row, database_list_security_events, copy_rows, SecurityEventRecord,
  EventSelect,
}
use cyrenus.Security.Query.{EventQuery, to_nanoseconds}
use cyrenus.Prelude.{
  array_text, ltb, ◌<◌, copied_text-short, ◌+◌, ap, true, refl, ◌*◌, ltb, ◌<◌, ◌≡◌, zero, [], none,
  ◌≤◌, length, Text, ◌∷◌, some, suc, some, Option, List, ℕ, arith,
}

-- A time between the 4th of February 1970 and the year 2065, in seconds: given in seconds, in
-- milliseconds or in nanoseconds, it becomes the same number of nanoseconds.
pub to_nanoseconds-units :
    (t : ℕ)
    → 3000000 ≤ t
    → t < 3000000000
    → (to_nanoseconds t ≡ t * 1000000000)
      × (to_nanoseconds (t * 1000) ≡ t * 1000000000)
      × (to_nanoseconds (t * 1000000000) ≡ t * 1000000000)
unfolding to_nanoseconds
to_nanoseconds-units t h k = (ground arith, ground arith, ground arith)

-- A text of a row leaves room for its end in its array.
abbrev pub Short : ℕ → Option Text → Type 0
Short n none = Unit
Short n (some text) = length text < n

pub record IsShort (r : SecurityEventRecord) : Type 0 where
  pub event_type : length r.event_type < 63
  pub process_name : Short 255 r.process_name
  pub command : Short 2047 r.command
  pub binary_path : Short 4095 r.binary_path
  pub parent_binary : Short 4095 r.parent_binary
  pub action : Short 31 r.action
  pub policy_name : Short 127 r.policy_name
  pub src_ip : Short 45 r.src_ip
  pub dst_ip : Short 45 r.dst_ip
  pub file_path : Short 4095 r.file_path
  pub file_operation : Short 31 r.file_operation
  pub metadata : Short 8191 r.metadata

abbrev pub AreShort : List SecurityEventRecord → Type 0
AreShort [] = Unit
AreShort (r ∷ rs) = IsShort r × AreShort rs

-- The text of a column, or, where it is NULL, what the memory of its array held.
abbrev pub Shown : Text → Option Text → Option Text → Type 0
Shown old none out = out ≡ some (array_text old)
Shown old (some text) out = out ≡ some text

column-Shown : (n : ℕ) (old : Text) (o : Option Text) → Short n o → Shown old o (column n old o)
column-Shown n old none h = refl
column-Shown n old (some text) h = ap (λ t. some t) (copied_text-short n old text h)

-- A record of the list shows a row of the table; the memory is that of the record.
pub record IsListed (old : ℕ → Text) (r r' : SecurityEventRecord) : Type 0 where
  pub id : r'.id ≡ r.id
  pub timestamp : r'.timestamp ≡ r.timestamp
  pub event_type : r'.event_type ≡ r.event_type
  pub severity : r'.severity ≡ r.severity
  pub pid : r'.pid ≡ r.pid
  pub ppid : r'.ppid ≡ r.ppid
  pub uid : r'.uid ≡ r.uid
  pub dst_port : r'.dst_port ≡ r.dst_port
  pub created_at : r'.created_at ≡ r.created_at
  pub process_name : Shown (old 4) r.process_name r'.process_name
  pub command : Shown (old 8) r.command r'.command
  pub binary_path : Shown (old 9) r.binary_path r'.binary_path
  pub parent_binary : Shown (old 10) r.parent_binary r'.parent_binary
  pub action : Shown (old 11) r.action r'.action
  pub policy_name : Shown (old 12) r.policy_name r'.policy_name
  pub src_ip : Shown (old 13) r.src_ip r'.src_ip
  pub dst_ip : Shown (old 14) r.dst_ip r'.dst_ip
  pub file_path : Shown (old 16) r.file_path r'.file_path
  pub file_operation : Shown (old 17) r.file_operation r'.file_operation
  pub metadata : Shown (old 18) r.metadata r'.metadata

-- The records from `idx` on show the rows, one each.
abbrev pub AreListed :
    (ℕ → ℕ → Text) → ℕ → List SecurityEventRecord → List SecurityEventRecord → Type 0
AreListed memory idx [] [] = Unit
AreListed memory idx (r ∷ rows) (r' ∷ rs) =
    IsListed (memory idx) r r' × AreListed memory (idx + 1) rows rs
AreListed memory idx _ _ = ⊥

copied_row-IsListed :
    (old : ℕ → Text) (r : SecurityEventRecord) → IsShort r → IsListed old r (copied_row old r)
copied_row-IsListed old r h = record {
  id = refl;
  timestamp = refl;
  severity = refl;
  pid = refl;
  ppid = refl;
  uid = refl;
  dst_port = refl;
  created_at = refl;
  event_type = copied_text-short 63 (old 2) r.event_type (h.event_type);
  process_name = column-Shown 255 (old 4) r.process_name (h.process_name);
  command = column-Shown 2047 (old 8) r.command (h.command);
  binary_path = column-Shown 4095 (old 9) r.binary_path (h.binary_path);
  parent_binary = column-Shown 4095 (old 10) r.parent_binary (h.parent_binary);
  action = column-Shown 31 (old 11) r.action (h.action);
  policy_name = column-Shown 127 (old 12) r.policy_name (h.policy_name);
  src_ip = column-Shown 45 (old 13) r.src_ip (h.src_ip);
  dst_ip = column-Shown 45 (old 14) r.dst_ip (h.dst_ip);
  file_path = column-Shown 4095 (old 16) r.file_path (h.file_path);
  file_operation = column-Shown 31 (old 17) r.file_operation (h.file_operation);
  metadata = column-Shown 8191 (old 18) r.metadata (h.metadata);
}

-- The rows in front.
abbrev pub first_rows : ℕ → List SecurityEventRecord → List SecurityEventRecord
first_rows zero rows = []
first_rows (suc n) [] = []
first_rows (suc n) (r ∷ rows) = r ∷ first_rows n rows

copy_rows-AreListed :
    (memory : ℕ → ℕ → Text) (left idx : ℕ) (rows : List SecurityEventRecord)
    → AreShort rows
    → AreListed memory idx (first_rows left rows) (copy_rows memory left idx rows)
unfolding copy_rows
copy_rows-AreListed memory zero idx rows h = tt
copy_rows-AreListed memory (suc left) idx [] h = tt
copy_rows-AreListed memory (suc left) idx (r ∷ rows) (h, hs) =
    (copied_row-IsListed (memory idx) r h, copy_rows-AreListed memory left (idx + 1) rows hs)

copy_rows-le :
    (memory : ℕ → ℕ → Text) (left idx : ℕ) (rows : List SecurityEventRecord)
    → length (copy_rows memory left idx rows) ≤ left
unfolding copy_rows
copy_rows-le memory zero idx rows = omega arith
copy_rows-le memory (suc left) idx [] = omega arith
copy_rows-le memory (suc left) idx (r ∷ rows) =
    omega (arith, copy_rows-le memory left (idx + 1) rows)

positive_limit : (limit : ℕ) → limit < 2147483648 → ltb limit 2147483648 ≡ true
positive_limit limit h = ground arith

module _ {Db : Type 0} (sql : EventSelect Db) where
  -- The statement is prepared, there is memory for the limit, which is not below 0, and each text
  -- of the rows is at least two bytes shorter than its array: the list shows the rows in front, as
  -- many as the limit allows, in their order; each record has the numbers and texts of its row, but
  -- for a column that is NULL the text is what the uncleared memory of its array held.
  pub database_list_security_events-first :
      (db : Db) (q : EventQuery) (rows : List SecurityEventRecord)
      → sql.select_security_events db (event_filter q) ≡ some rows
      → sql.malloc q.limit ≡ true
      → q.limit < 2147483648
      → AreShort rows
      → (rs : List SecurityEventRecord) × (database_list_security_events sql (some db) q ≡ some rs)
        × AreListed sql.memory 0 (first_rows q.limit rows) rs
        × (length rs ≤ q.limit)
  unfolding database_list_security_events
  database_list_security_events-first db q rows e m l h = (
    copy_rows sql.memory q.limit 0 rows,
    rw e (rw m (rw (positive_limit q.limit l) refl)),
    copy_rows-AreListed sql.memory q.limit 0 rows h,
    copy_rows-le sql.memory q.limit 0 rows,
  )
