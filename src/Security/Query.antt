-- ===== src/Security/Query.antt =====
-- The query of `api_security_events_list` of src/api/security.c: its numbers and its times.
use cyrenus.Prelude.{
  [], ◌%◌, digits, ◌-◌, ◌^◌, mul64, ◌==◌, ◌&&◌, atoi, none, ◌∷◌, ltb, some, some, Text, skip_space,
  if◌then◌else◌, Option, ℕ,
}

-- atoll: the 64 bits of its result.
unfoldable pub signed64 : Text → ℕ
signed64 [] = 0
signed64 (c ∷ cs) =
    if c == 45
    then (2 ^ 64 - digits 0 cs % 2 ^ 64) % 2 ^ 64
    else if c == 43
    then digits 0 cs % 2 ^ 64
    else digits 0 (c ∷ cs) % 2 ^ 64

unfoldable pub atoll : Text → ℕ
unfolding skip_space signed64
atoll text = signed64 (skip_space text)

-- A time in nanoseconds: a small number is taken for seconds, a larger one for milliseconds.
unfoldable pub to_nanoseconds : ℕ → ℕ
to_nanoseconds val =
    if ltb 0 val && ltb val 3000000000
    then mul64 val 1000000000
    else if ltb 0 val && ltb val 3000000000000
    then mul64 val 1000000
    else val

-- The arguments of the request that MHD_lookup_connection_value finds.
pub record EventArgs : Type 0 where
  pub severity : Option Text
  pub event_type : Option Text
  pub from : Option Text
  pub to : Option Text
  pub limit : Option Text
  pub offset : Option Text

abbrev pub int_arg : Option Text → ℕ → ℕ
int_arg none default = default
int_arg (some text) default = atoi text

abbrev pub time_arg : Option Text → ℕ → ℕ
time_arg none default = default
time_arg (some text) default = atoll text

-- The arguments of database_list_security_events; the numbers are the bits of their words.
pub record EventQuery : Type 0 where
  pub severity_min : ℕ
  pub event_type : Option Text
  pub from : ℕ
  pub to : ℕ
  pub limit : ℕ
  pub offset : ℕ

unfoldable pub event_query : EventArgs → ℕ → EventQuery
event_query args time = record {
  severity_min = int_arg args.severity 0;
  event_type = args.event_type;
  from = to_nanoseconds (time_arg args.from 0);
  to = to_nanoseconds (time_arg args.to time);
  limit = int_arg args.limit 100;
  offset = int_arg args.offset 0;
}
