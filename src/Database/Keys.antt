-- ===== src/Database/Keys.antt =====
-- `database_list_api_keys` of src/database.c: the array that grows with the rows.
use cyrenus.Prelude.{
  ◌++◌, ltb, ◌<◌, copied_text, ◌%◌, length, ◌⊎◌, ◌^◌, take, ◌*◌, [], leb, none, Text, if◌then◌else◌,
  ◌+◌, ◌≡◌, ◌≤◌, ltb, some, some, some, Option, List, ◌∷◌, Bool, ◌<◌, ℕ,
}

-- A row of the table; a text that is NULL is `none`.
pub record KeyRow : Type 0 where
  pub id : ℕ
  pub name : Option Text
  pub key_hash : Option Text
  pub key_prefix : Option Text
  pub permissions : Option Text
  pub last_used_at : ℕ
  pub expires_at : ℕ
  pub created_at : ℕ

-- The loop ends with the list, without memory, or, were it to happen, with a write outside of it.
pub data KeyList : Type 0 where
  listed : List KeyRow → KeyList
  no_memory : KeyList
  outside : KeyList

abbrev pub or_empty : Option Text → Text
or_empty none = []
or_empty (some text) = text

abbrev pub key_column : ℕ → Text → Option Text → Option Text
key_column n old o = some (copied_text n old (or_empty o))

-- A row in the arrays of a record, which are not cleared: `old` is what the array of a column holds.
abbrev pub copied_key : (ℕ → Text) → KeyRow → KeyRow
copied_key old r = record r {
  name = key_column 63 (old 1) r.name;
  key_hash = key_column 127 (old 2) r.key_hash;
  key_prefix = key_column 7 (old 3) r.key_prefix;
  permissions = key_column 63 (old 4) r.permissions;
}

abbrev pub key_then : KeyRow → KeyList → KeyList
key_then r (listed rs) = listed (r ∷ rs)
key_then r no_memory = no_memory
key_then r outside = outside

-- The capacity before a write at `size`, `none` where realloc has no memory for it. The capacity is an
-- int; its double keeps 32 bits.
abbrev pub make_room : (ℕ → Bool) → ℕ → ℕ → Option ℕ
make_room realloc capacity size =
    let doubled = capacity * 2 % 2 ^ 32 in
    if leb capacity size then if realloc doubled then some doubled else none else some capacity

-- The write of a row, and the rest of the loop at a capacity.
abbrev pub store_key : (ℕ → ℕ → Text) → KeyRow → ℕ → Option ℕ → (ℕ → KeyList) → KeyList
store_key memory r size none rest = no_memory
store_key memory r size (some capacity) rest =
    if ltb size capacity then key_then (copied_key (memory size) r) (rest capacity) else outside

unfoldable pub keys_loop : (ℕ → ℕ → Text) → (ℕ → Bool) → ℕ → ℕ → List KeyRow → KeyList
keys_loop memory realloc capacity size [] = listed []
keys_loop memory realloc capacity size (r ∷ rows) =
    store_key memory r size (make_room realloc capacity size)
      (λ capacity'. keys_loop memory realloc capacity' (size + 1) rows)

-- The rows are `none` where the statement is not prepared, which is -1 as well; `memory` is what the
-- allocated memory holds, of a record the array of a column.
unfoldable pub database_list_api_keys :
    (ℕ → ℕ → Text) → Bool → (ℕ → Bool) → Option (List KeyRow) → KeyList
database_list_api_keys memory malloc realloc none = no_memory
database_list_api_keys memory malloc realloc (some rows) =
    if malloc then keys_loop memory realloc 10 0 rows else no_memory

-- The texts of a row, but for the prefix, leave room for their end.
pub record FitsKey (r : KeyRow) : Type 0 where
  pub name : length (or_empty r.name) < 63
  pub key_hash : length (or_empty r.key_hash) < 127
  pub permissions : length (or_empty r.permissions) < 63

abbrev pub FitKeys : List KeyRow → Type 0
FitKeys [] = Unit
FitKeys (r ∷ rows) = FitsKey r × FitKeys rows

-- A prefix of less than 7 bytes as it is; of a longer one the first 7, and something behind them.
abbrev pub IsPrefix : Text → Option Text → Type 0
IsPrefix text out =
    (out ≡ some text) ⊎ ((7 ≤ length text) × (rest : Text) × (out ≡ some (take 7 text ++ rest)))

-- A record of the list shows a row.
pub record IsKey (r r' : KeyRow) : Type 0 where
  pub id : r'.id ≡ r.id
  pub name : r'.name ≡ some (or_empty r.name)
  pub key_hash : r'.key_hash ≡ some (or_empty r.key_hash)
  pub key_prefix : IsPrefix (or_empty r.key_prefix) r'.key_prefix
  pub permissions : r'.permissions ≡ some (or_empty r.permissions)
  pub last_used_at : r'.last_used_at ≡ r.last_used_at
  pub expires_at : r'.expires_at ≡ r.expires_at
  pub created_at : r'.created_at ≡ r.created_at

abbrev pub AreKeys : List KeyRow → List KeyRow → Type 0
AreKeys [] [] = Unit
AreKeys (r ∷ rows) (r' ∷ rs) = IsKey r r' × AreKeys rows rs
AreKeys _ _ = ⊥

-- A result that is right for the rows: all of them, or none for want of memory.
abbrev pub IsRight : List KeyRow → KeyList → Type 0
IsRight rows (listed rs) = AreKeys rows rs
IsRight rows no_memory = Unit
IsRight rows outside = ⊥
