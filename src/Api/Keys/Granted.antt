-- ===== src/Api/Keys/Granted.antt =====
-- A key that is created is one that the dispatcher accepts.
use cyrenus.Api.Keys.{expiry, generate_api_key, new_key, api_keys_create}
use cyrenus.Api.Json.{key_body, JsonC}
use cyrenus.Http.Guard.{Times, api_key_id, key_id}
use cyrenus.Http.Hash.{digest, hash_api_key, Digest, hex}
use cyrenus.Http.Database.{
  database_validate_api_key, row, database_create_api_key, done, stored_api_key, NewKey,
  ApiKeyRecord, Sqlite,
}
use cyrenus.Prelude.{
  ◌+◌, inr, ◌&&◌, ◌⊎◌, inl, sym, ◌∙◌, codes, refl, zero, false, ap, [], if◌then◌else◌, ◌∷◌, none,
  ltb, ◌*◌, suc, ◌≡◌, ◌≤◌, some, true, length, Option, Text, Bool, ℕ, arith, take,
}

-- The condition on the expiry in the statement that looks for a key.
abbrev pub is_unexpired : ℕ → Option ℕ → Bool
is_unexpired time none = true
is_unexpired time (some expires_at) = ltb time expires_at

-- The expiry that a body asks for, in days from now: none without the number, or where it is not
-- above 0 as a signed one.
abbrev pub asked_expiry : ℕ → Option ℕ → Option ℕ
asked_expiry now none = none
asked_expiry now (some days) =
    if ltb 0 days && ltb days 2147483648 then some (now + days * 86400) else none

-- At most 24855 days, or a number below 0.
abbrev pub WithinInt : Option ℕ → Type 0
WithinInt none = Unit
WithinInt (some days) = (days ≤ 24855) ⊎ (2147483648 ≤ days)

-- The table of keys, as SQL documents it: a row that was inserted is selected by its hash, if no
-- other has it, as long as it expires later than the time that is asked for, or never.
pub record IsKeyTable {Db : Type 0} (sql : Sqlite Db) : Type 0 where
  pub new_id : Db → ℕ
  pub inserted :
      (db : Db) (key : NewKey) (time : ℕ)
      → (sql.insert_api_key db key).0 ≡ done
      → ((t : ℕ) → sql.select_api_key db key.key_hash t ≡ done)
      → sql.select_api_key (sql.insert_api_key db key).1 key.key_hash time ≡ (
          if is_unexpired time key.expires_at
          then row
              (record { id = new_id db; name = some key.name; permissions = some key.permissions })
          else done)

length-hex : (bytes : Text) → length (hex bytes) ≡ 2 * length bytes
unfolding hex
length-hex [] = omega arith
length-hex (b ∷ bs) = omega (arith, length-hex bs)

take_whole : (n : ℕ) (text : Text) → length text ≤ n → take n text ≡ text
unfolding take
take_whole zero [] h = refl
take_whole (suc n) [] h = refl
take_whole zero (t ∷ ts) h = absurd (omega arith)
take_whole (suc n) (t ∷ ts) h = ap (λ ts'. t ∷ ts') (take_whole n ts (omega arith))

found_id :
    (b : Bool) (key_rec : ApiKeyRecord)
    → key_id (stored_api_key (if b then row key_rec else done))
      ≡ (if b then some key_rec.id else none)
found_id true key_rec = refl
found_id false key_rec = refl

module _ {Db J : Type 0} (sql : Sqlite Db) (evp_sha256 : Text → Digest) (json : JsonC J) where
  hashed :
      (key bytes : Text) → evp_sha256 key ≡ digest bytes → hash_api_key evp_sha256 key ≡ hex bytes
  unfolding hash_api_key
  hashed key bytes d = rw (d, hash_api_key) refl

  stored_expiry :
      (raw_key hash : Text) (now : ℕ) (root : J)
      → (new_key json raw_key hash now root).expires_at
        ≡ expiry json now (json.get_ex root (codes "expires_in_days"))
  unfolding new_key
  stored_expiry raw_key hash now root = refl

  -- The number of days in a body.
  abbrev pub asked_days : J → Option ℕ
  asked_days root = elim (json.get_ex root (codes "expires_in_days")) [
    | none ↦ none
    | some j ↦ some (json.get_int j)
  ]

  expiry-asked :
      (now : ℕ) (o : Option J)
      → WithinInt (elim o [ none ↦ none | some j ↦ some (json.get_int j) ])
      → expiry json now o
        ≡ asked_expiry now (elim o [ none ↦ none | some j ↦ some (json.get_int j) ])
  expiry-asked now none h = refl
  expiry-asked now (some j) (inl h) = ground arith
  expiry-asked now (some j) (inr h) = ground arith

  create-inserts :
      (db : Db) (rand : ℕ → ℕ) (now : ℕ) (upload_data : Option Text) (root : J) (bytes : Text)
      → json.tokener_parse upload_data ≡ some root
      → evp_sha256 (generate_api_key rand) ≡ digest bytes
      → (sql.insert_api_key db (new_key json (generate_api_key rand) (hex bytes) now root)).0 ≡ done
      → api_keys_create json sql evp_sha256 db rand now upload_data ≡ (
        record { status = 200; body = key_body (generate_api_key rand) },
        (sql.insert_api_key db (new_key json (generate_api_key rand) (hex bytes) now root)).1,
      )
  unfolding api_keys_create database_create_api_key
  create-inserts db rand now upload_data root bytes p d e =
      rw p (rw (hashed (generate_api_key rand) bytes d) (rw e refl))

  -- The hash fits its array.
  stored_hash :
      (raw_key bytes : Text) (now : ℕ) (root : J)
      → length bytes ≡ 32
      → (new_key json raw_key (hex bytes) now root).key_hash ≡ hex bytes
  unfolding new_key
  stored_hash raw_key bytes now root l =
      take_whole 127 (hex bytes) (omega (arith, length-hex bytes))

  selects :
      (db : Db) (key : NewKey) (hash : Text) (time : ℕ) (t : IsKeyTable sql)
      → key.key_hash ≡ hash
      → (sql.insert_api_key db key).0 ≡ done
      → ((u : ℕ) → sql.select_api_key db hash u ≡ done)
      → sql.select_api_key (sql.insert_api_key db key).1 hash time ≡ (
          if is_unexpired time key.expires_at
          then row (record {
            id = t.new_id db;
            name = some key.name;
            permissions = some key.permissions;
          })
          else done)
  selects db key hash time t q e n =
      ap (λ h. sql.select_api_key (sql.insert_api_key db key).1 h time) (sym q)
      ∙ t.inserted db key time e (λ u. ap (λ h. sql.select_api_key db h u) q ∙ n u)

  -- A key that is created, where the digest has its 32 bytes, the row can be stored and its hash is
  -- not in the table yet, and the body asks for no expiry beyond 24855 days: the answer is 200 with
  -- the key, and a caller with it in the header is let through, by the database that the request
  -- leaves, exactly as long as the days that the body asks for have not passed, or for ever if it
  -- asks for none.
  pub api_keys_create-grants :
      (db : Db) (rand : ℕ → ℕ) (now : ℕ) (upload_data : Option Text) (root : J) (bytes : Text)
      (times : Times) (t : IsKeyTable sql)
      → json.tokener_parse upload_data ≡ some root
      → evp_sha256 (generate_api_key rand) ≡ digest bytes
      → length bytes ≡ 32
      → (sql.insert_api_key db (new_key json (generate_api_key rand) (hex bytes) now root)).0 ≡ done
      → ((time : ℕ) → sql.select_api_key db (hex bytes) time ≡ done)
      → WithinInt (asked_days root)
      → let created = api_keys_create json sql evp_sha256 db rand now upload_data in
        (created.0 ≡ record { status = 200; body = key_body (generate_api_key rand) })
        × (api_key_id sql evp_sha256 created.1 times (some (generate_api_key rand)) ≡ (
            if is_unexpired times.at_key (asked_expiry now (asked_days root))
            then some (t.new_id db)
            else none))
  unfolding api_key_id database_validate_api_key
  api_keys_create-grants db rand now upload_data root bytes times t p d l e n v =
      rw (create-inserts db rand now upload_data root bytes p d e) (
        refl,
        rw (hashed (generate_api_key rand) bytes d) (
            ap (λ r. key_id (stored_api_key r))
              (selects db (new_key json (generate_api_key rand) (hex bytes) now root) (hex bytes)
                times.at_key t (stored_hash (generate_api_key rand) bytes now root l) e n)
            ∙ found_id _ _
            ∙ ap (λ x. if is_unexpired times.at_key x then some (t.new_id db) else none)
                (stored_expiry (generate_api_key rand) (hex bytes) now root
                  ∙ expiry-asked now (json.get_ex root (codes "expires_in_days")) v)),
      )
