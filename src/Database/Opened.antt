-- ===== src/Database/Opened.antt =====
-- When the connection is open.
use cyrenus.Database.{
  pragma_key, check_open, apply_key, database_close, database_open, Database, Sqlite3,
}
use cyrenus.Prelude.{is_empty, sym, refl, codes, not, true, false, ◌&&◌, ◌≡◌, if◌then◌else◌, Bool}

-- An open connection has a handle.
pub record IsSound (db : Database) : Type 0 where
  pub sound : (db.is_open && not db.handle) ≡ false

-- What an attempt to open comes to: it succeeds exactly if the connection is open after it.
abbrev Right : Bool × Database → Type 0
Right (b, db) = (b ≡ db.is_open) × ((db.is_open && not db.handle) ≡ false)

if-Right : (b : Bool) (x y : Bool × Database) → Right x → Right y → Right (if b then x else y)
if-Right true x y h k = h
if-Right false x y h k = k

if-Right_eq :
    (b : Bool) (x y : Bool × Database)
    → (b ≡ true → Right x)
    → (b ≡ false → Right y)
    → Right (if b then x else y)
if-Right_eq true x y h k = h refl
if-Right_eq false x y h k = k refl

and_false : (b : Bool) → (b && false) ≡ false
and_false true = refl
and_false false = refl

module _ (sqlite : Sqlite3) where
  check_open-Right : (db : Database) → db.handle ≡ true → Right (check_open sqlite db)
  unfolding database_close
  check_open-Right db h =
      if-Right (sqlite.exec db.db_path (codes "SELECT count(*) FROM sqlite_master;")) _ _
        (refl, rw h refl) (refl, refl)

  apply_key-Right :
      (db : Database) → db.handle ≡ true → db.is_open ≡ false → Right (apply_key sqlite db)
  apply_key-Right db h o =
      if-Right (db.is_encrypted && not (is_empty db.encryption_key)) _ _
        (if-Right (sqlite.exec db.db_path (pragma_key db.encryption_key)) _ _
          (check_open-Right db h) (sym o, rw o refl))
        (check_open-Right db h)

  database_open-Right : (db : Database) → IsSound db → Right (database_open sqlite db)
  unfolding database_open
  database_open-Right db s =
      if-Right_eq db.is_open _ _ (λ e. (sym e, s.sound))
        (λ e.
          if-Right (sqlite.opens db.db_path) _ _
            (apply_key-Right (record db { handle = true }) refl e) (sym e, and_false db.is_open))

  -- From a connection that is sound, as one after database_init is: database_open returns 0 exactly
  -- if the connection is open after it, and the connection is sound again; after database_close it
  -- is not open, and it is sound.
  pub database_open-IsSound :
      (db : Database)
      → IsSound db
      → let r = database_open sqlite db in
        (r.0 ≡ r.1.is_open)
        × IsSound r.1
        × ((database_close r.1).is_open ≡ false)
        × IsSound (database_close r.1)
  unfolding database_open database_close
  database_open-IsSound db s =
      let r = database_open-Right db s in
      (r.0, record { sound = r.1 }, refl, record { sound = refl })
