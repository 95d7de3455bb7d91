-- ===== src/Database.antt =====
-- The connection of src/database.c: how it is prepared, opened and closed.
pub mod Keys
pub mod IpLists
pub mod Opened
pub mod Tests
use cyrenus.Prelude.{
  is_empty, ◌++◌, not, none, ◌==◌, true, [], codes, ◌&&◌, ◌∷◌, take, if◌then◌else◌, some, Bool,
  Text, Option, false, ℕ,
}

-- struct database; `handle` is whether `db` is not NULL.
pub record Database : Type 0 where
  pub handle : Bool
  pub db_path : Text
  pub encryption_key : Text
  pub is_open : Bool
  pub is_encrypted : Bool

-- What SQLite answers: whether a file can be opened, and whether a command succeeds on it.
pub record Sqlite3 : Type 0 where
  pub opens : Text → Bool
  pub exec : Text → Text → Bool

-- The bytes before the first newline.
abbrev pub first_line : Text → Text
first_line [] = []
first_line (c ∷ cs) = if c == 10 then [] else c ∷ first_line cs

-- The key file: `none` where it cannot be opened; fgets finds nothing in an empty one.
abbrev pub with_key_file : Option Text → Database → Database
with_key_file none db = record db { is_encrypted = false }
with_key_file (some []) db = db
with_key_file (some (c ∷ cs)) db = record db {
  encryption_key = first_line (take 64 (c ∷ cs));
  is_encrypted = true;
}

-- It returns 0, its arguments not being NULL; the folder of the path is made if it is not there.
unfoldable pub database_init : Text → Option Text → Database
database_init db_path key_file = with_key_file key_file (record {
  handle = false;
  db_path = take 511 db_path;
  encryption_key = [];
  is_open = false;
  is_encrypted = false;
})

unfoldable pub database_close : Database → Database
database_close db = record db { handle = false; is_open = false }

abbrev pub pragma_key : Text → Text
pragma_key key = take 127 (codes "PRAGMA key = '" ++ (key ++ codes "';"))

module _ (sqlite : Sqlite3) where
  -- With the key applied: the last check of database_open. The pragmas are run before it, and their
  -- results are not looked at.
  abbrev pub check_open : Database → Bool × Database
  check_open db =
      if sqlite.exec db.db_path (codes "SELECT count(*) FROM sqlite_master;")
      then (true, record db { is_open = true })
      else (false, database_close (record db { is_open = true }))

  abbrev pub apply_key : Database → Bool × Database
  apply_key db =
      if db.is_encrypted && not (is_empty db.encryption_key)
      then if sqlite.exec db.db_path (pragma_key db.encryption_key)
        then check_open db
        else (false, db)
      else check_open db

  -- Whether it returns 0, and the connection. sqlite3_open leaves a handle also when it fails.
  unfoldable pub database_open : Database → Bool × Database
  database_open db =
      if db.is_open
      then (true, db)
      else if sqlite.opens db.db_path
      then apply_key (record db { handle = true })
      else (false, record db { handle = true })
