-- ===== src/Http/Samples.antt =====
-- A concrete table of sessions, and requests, for the tests and the witnesses.
use cyrenus.Http.Hash.{digest, Digest}
use cyrenus.Http.Guard.{Times}
use cyrenus.Http.Types.{Request, SessionRecord}
use cyrenus.Http.Database.{row, ApiKeyRecord, Step, done, Sqlite}
use cyrenus.Prelude.{some, none, ltb, str_eq, if◌then◌else◌, [], codes, ◌∷◌, List, Text, Option, ℕ}

-- The first row with the token that has not expired.
unfoldable pub find_session : List SessionRecord → Text → ℕ → Step SessionRecord
find_session [] token time = done
find_session (s ∷ rows) token time =
    let rest = find_session rows token time in
    if str_eq s.token token then (if ltb time s.expires_at then row s else done) else rest

-- One key is known, by the hash "k".
abbrev pub find_key : Text → Step ApiKeyRecord
find_key hash =
    if str_eq hash (codes "6b")
    then row (record { id = 7; name = none; permissions = some (codes "read") })
    else done

abbrev pub table : Sqlite (List SessionRecord)
table = record {
  select_session = find_session;
  insert_session = λ rows s. (done, s ∷ rows);
  select_api_key = λ rows hash time. find_key hash;
  update_api_key = λ rows time id. (done, rows);
  insert_api_key = λ rows key. (done, rows);
  delete_api_key = λ rows id. (done, rows);
}

-- A digest that is the text itself.
abbrev pub plain_digest : Text → Digest
plain_digest key = digest key

abbrev pub sample_session : SessionRecord
sample_session = record {
  user_id = codes "u";
  session_id = codes "s";
  token = codes "t";
  expires_at = 100;
}

abbrev pub rows : List SessionRecord
rows = sample_session ∷ []

abbrev pub times : Times
times = record { at_lookup = 10; at_check = 11; at_key = 12; at_use = 13 }

abbrev pub delete_request : Option Text → Option Text → Request
delete_request authorization api_key = record {
  method = codes "DELETE";
  url = codes "/api/v1/rules/10.0.0.1_80_6";
  authorization = authorization;
  api_key = api_key;
}
