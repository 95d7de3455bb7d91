-- ===== src/Database/Tests.antt =====
-- Tests of the database, and its theorems at concrete inputs.
use cyrenus.Database.IpLists.{
  database_insert_ip_list, any_selected, database_check_ip_in_list-inserted, inserted_row,
  database_check_ip_in_list, IpEntry,
}
use cyrenus.Database.Keys.{KeyRow}
use cyrenus.Database.Opened.{IsSound}
use cyrenus.Database.{Sqlite3, Database, database_init, database_open}
use cyrenus.Prelude.{str_eq, Text, [], take, true, false, codes, ◌≡◌, some, ◌∷◌, none, refl, ℕ}

abbrev healthy : Sqlite3
healthy = record { opens = λ path. true; exec = λ path command. true }

abbrev prepared : Database
prepared = record {
  handle = false;
  db_path = codes "a.db";
  encryption_key = [];
  is_open = false;
  is_encrypted = false;
}

init-test : database_init (codes "a.db") none ≡ prepared
unfolding database_init codes take
init-test = refl

open-test :
    database_open healthy prepared ≡ (true, record prepared { handle = true; is_open = true })
unfolding database_open
open-test = refl

prepared-IsSound : IsSound prepared
prepared-IsSound = record { sound = refl }

abbrev a_key : KeyRow
a_key = record {
  id = 1;
  name = some (97 ∷ []);
  key_hash = none;
  key_prefix = none;
  permissions = none;
  last_used_at = 0;
  expires_at = 0;
  created_at = 0;
}

abbrev question_marks : ℕ → ℕ → Text
question_marks i k = 63 ∷ 63 ∷ []

abbrev permanent : IpEntry
permanent = record {
  ip_address = codes "10.0.0.1";
  cidr_range = 32;
  list_type = codes "blacklist";
  reason = [];
  expires_at = 0;
}

-- An entry for ever is not found.
database_check_ip_in_list-inserted_example :
    database_check_ip_in_list true
      (inserted_row permanent ∷ [])
      (codes "10.0.0.1")
      (codes "blacklist")
      1700000000
    ≡ some false
unfolding codes str_eq database_insert_ip_list database_check_ip_in_list any_selected
database_check_ip_in_list-inserted_example =
    database_check_ip_in_list-inserted [] (inserted_row permanent ∷ []) permanent (codes "10.0.0.1")
      (codes "blacklist") 1700000000 false refl refl
