-- ===== src/Security.antt =====
-- The security API of src/api/security.c: its responses, and the disk that the policies stand on.
pub mod Policies
pub mod Query
pub mod Events
pub mod Saved
pub mod Listed
pub mod Tests
use cyrenus.Prelude.{
  false, true, is_some, ◌&&◌, some, none, str_eq, List, Option, Bool, if◌then◌else◌, Text, codes, ℕ,
}

-- The contents of a response: a text as it stands, a policy with its name, a configuration, or the
-- events with their limit and offset.
pub data Content (Row : Type 0) : Type 0 where
  plain_text : Text → Content Row
  policy_content : Text → Text → Content Row
  config_content : Text → Content Row
  events_content : List Row → ℕ → ℕ → Content Row

-- A response of microhttpd, which gets its status only when it is queued.
pub record MhdResponse (Row : Type 0) : Type 0 where
  pub content : Content Row
  pub content_type : Text

-- create_response: the status is not looked at.
abbrev pub create_response : {Row : Type 0} → ℕ → Content Row → Text → MhdResponse Row
create_response status_code content type = record { content = content; content_type = type }

abbrev pub create_json_response : {Row : Type 0} → ℕ → Content Row → MhdResponse Row
create_json_response status_code json = create_response status_code json (codes "application/json")

abbrev pub not_allowed : {Row : Type 0} → MhdResponse Row
not_allowed = create_response 405 (plain_text (codes "Method not allowed")) (codes "text/plain")

abbrev pub json_text : {Row : Type 0} → ℕ → Text → MhdResponse Row
json_text status_code t = create_json_response status_code (plain_text t)

-- The contents of the files.
abbrev pub Disk : Type 0
Disk = Text → Option Text

-- The file that a path names, which the "." and ".." in it and the links of the disk decide; which
-- paths can be opened for writing and unlinked; and what a command of the shell leaves, with whether
-- its status is 0.
pub record Os : Type 0 where
  pub resolve : Text → Text
  pub writable : Text → Bool
  pub removable : Text → Bool
  pub system : Text → Disk → Bool × Disk

abbrev pub read_path : Os → Disk → Text → Option Text
read_path os disk path = disk (os.resolve path)

abbrev pub write_file : Os → Disk → Text → Text → Disk
write_file os disk path content file =
    if str_eq (os.resolve path) file then some content else disk file

abbrev pub remove_file : Os → Disk → Text → Disk
remove_file os disk path file = if str_eq (os.resolve path) file then none else disk file

-- Whether unlink returns 0, and the files after it.
abbrev pub unlink : Os → Disk → Text → Bool × Disk
unlink os disk path =
    if os.removable path && is_some (read_path os disk path)
    then (true, remove_file os disk path)
    else (false, disk)
