-- ===== src/Api/Json.antt =====
-- What the handlers of src/api use of json-c, and their responses.
use cyrenus.Prelude.{Option, Text, ℕ}

-- json_tokener_parse, json_object_object_get_ex, and the two readings of a value; an `int` is the
-- number of its 32 bits.
pub record JsonC (J : Type 0) : Type 0 where
  pub tokener_parse : Option Text → Option J
  pub get_ex : J → Text → Option J
  pub get_string : J → Text
  pub get_int : J → ℕ

-- The bodies: a text as it stands, the token of a new session with its seconds, a new key.
pub data Body : Type 0 where
  text : Text → Body
  session_body : Text → ℕ → Body
  key_body : Text → Body

pub record Response : Type 0 where
  pub status : ℕ
  pub body : Body

abbrev pub respond : ℕ → Text → Response
respond status t = record { status = status; body = text t }
