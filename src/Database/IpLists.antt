-- ===== src/Database/IpLists.antt =====
-- The addresses of the lists in src/database.c, with the table and the two statements of the file.
use cyrenus.Prelude.{
  ap, some-injective, arith, sym, ◌||◌, [], ltb, ◌&&◌, ◌∷◌, if◌then◌else◌, ◌∷◌, ◌≡◌, Option, str_eq,
  false, ◌++◌, true, Text, ℕ, List, none, some, Bool,
}

-- The values that are bound for an entry.
pub record IpEntry : Type 0 where
  pub ip_address : Text
  pub cidr_range : ℕ
  pub list_type : Text
  pub reason : Text
  pub expires_at : ℕ

-- A row of the table, of which the column of the expiry may be NULL.
pub record IpRow : Type 0 where
  pub ip_address : Text
  pub cidr_range : ℕ
  pub list_type : Text
  pub reason : Text
  pub expires_at : Option ℕ

-- The row that the INSERT adds: every column is bound.
abbrev pub inserted_row : IpEntry → IpRow
inserted_row e = record {
  ip_address = e.ip_address;
  cidr_range = e.cidr_range;
  list_type = e.list_type;
  reason = e.reason;
  expires_at = some e.expires_at;
}

-- expires_at IS NULL OR expires_at > ?
abbrev pub is_current : ℕ → Option ℕ → Bool
is_current time none = true
is_current time (some expires_at) = ltb time expires_at

-- ip_address = ? AND list_type = ? AND (expires_at IS NULL OR expires_at > ?)
abbrev pub is_selected : Text → Text → ℕ → IpRow → Bool
is_selected ip list_type time r =
    str_eq r.ip_address ip && (str_eq r.list_type list_type && is_current time r.expires_at)

-- Whether the SELECT has a row.
unfoldable pub any_selected : Text → Text → ℕ → List IpRow → Bool
any_selected ip list_type time [] = false
any_selected ip list_type time (r ∷ rows) =
    is_selected ip list_type time r || any_selected ip list_type time rows

-- The rows after it, `none` where it returns -1: the statement is not prepared, or the step fails.
unfoldable pub database_insert_ip_list : Bool → Bool → List IpRow → IpEntry → Option (List IpRow)
database_insert_ip_list prepared done rows entry =
    if prepared && done then some (rows ++ (inserted_row entry ∷ [])) else none

-- Whether the address was found, `none` where it returns -1; the time is the clock's.
unfoldable pub database_check_ip_in_list : Bool → List IpRow → Text → Text → ℕ → Option Bool
database_check_ip_in_list prepared rows ip list_type time =
    if prepared then some (any_selected ip list_type time rows) else none

any_selected-append :
    (ip list_type : Text) (time : ℕ) (rows : List IpRow) (r : IpRow)
    → any_selected ip list_type time (rows ++ (r ∷ []))
      ≡ (any_selected ip list_type time rows || is_selected ip list_type time r)
unfolding any_selected
any_selected-append ip list_type time [] r = ground arith
any_selected-append ip list_type time (x ∷ rows) r =
    rw (any_selected-append ip list_type time rows r) (ground arith)

-- After an entry is inserted, an address is found in a list exactly if it was before, or if it is the
-- address of the entry, the list is that of the entry and the time is before its expiry. An entry with
-- the expiry 0, which the INSERT does not make NULL, so adds nothing to what is found.
pub database_check_ip_in_list-inserted :
    (rows after : List IpRow) (e : IpEntry) (ip list_type : Text) (time : ℕ) (before : Bool)
    → database_insert_ip_list true true rows e ≡ some after
    → database_check_ip_in_list true rows ip list_type time ≡ some before
    → database_check_ip_in_list true after ip list_type time
      ≡ some (
          before
          || str_eq e.ip_address ip && (str_eq e.list_type list_type && ltb time e.expires_at))
unfolding database_insert_ip_list database_check_ip_in_list
database_check_ip_in_list-inserted rows after e ip list_type time before i b =
    rw (sym (some-injective _ _ i)) (
      rw (sym (some-injective _ _ b))
        (ap (λ x. some x) (any_selected-append ip list_type time rows (inserted_row e))))
