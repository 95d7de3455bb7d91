-- ===== src/Tetragon/Classify.antt =====
-- `tetragon_classify_severity` and `tetragon_classify_alert_type` of src/tetragon_events.c. A
-- message that is `none` is NULL.
use cyrenus.Prelude.{
  ◌||◌, contains, [], ◌∷◌, ◌∷◌, ◌+◌, none, false, codes, if◌then◌else◌, some, some, List, Text,
  Bool, Option, ℕ,
}

abbrev pub severity_info : ℕ
severity_info = 1

abbrev pub severity_warning : ℕ
severity_warning = 2

abbrev pub severity_critical : ℕ
severity_critical = 4

-- One of the words occurs: the chain of strstr calls under ||.
abbrev pub any_of : List Text → Text → Bool
any_of [] message = false
any_of (w ∷ ws) message = contains w message || any_of ws message

abbrev pub critical_words : List Text
critical_words = codes "CRITICAL" ∷ codes "RCE detected" ∷ codes "blocked" ∷ codes "Sigkill" ∷ []

abbrev pub warning_words : List Text
warning_words = codes "WARNING" ∷ codes "detected" ∷ codes "suspicious" ∷ codes "unauthorized" ∷ []

abbrev pub message_severity : Text → ℕ
message_severity message =
    if any_of critical_words message
    then severity_critical
    else if any_of warning_words message
    then severity_warning
    else severity_info

-- The name of the function is not looked at.
unfoldable pub tetragon_classify_severity : Text → Option Text → ℕ
tetragon_classify_severity function_name none = severity_info
tetragon_classify_severity function_name (some message) = message_severity message

abbrev pub rce_words : List Text
rce_words = codes "RCE" ∷ codes "shell spawn" ∷ []

abbrev pub privilege_words : List Text
privilege_words = codes "privilege" ∷ codes "setuid" ∷ []

abbrev pub integrity_words : List Text
integrity_words = codes "file" ∷ codes "integrity" ∷ []

abbrev pub injection_words : List Text
injection_words = codes "inject" ∷ codes "ptrace" ∷ []

abbrev pub reverse_words : List Text
reverse_words = codes "reverse shell" ∷ []

abbrev pub webshell_words : List Text
webshell_words = codes "webshell" ∷ codes "web directory" ∷ []

abbrev pub persistence_words : List Text
persistence_words = codes "cron" ∷ codes "systemd" ∷ codes "persistence" ∷ []

abbrev pub container_words : List Text
container_words = codes "namespace" ∷ codes "container" ∷ []

-- Each flag is a bit of its own, so that `|=` adds it.
abbrev pub flag : Bool → ℕ → ℕ
flag b value = if b then value else 0

-- The flags from 0x0001 to 0x0080; the path of the binary is not looked at.
unfoldable pub tetragon_classify_alert_type : Option Text → Text → ℕ
tetragon_classify_alert_type none binary_path = 0
tetragon_classify_alert_type (some message) binary_path =
    flag (any_of rce_words message) 1
    + (flag (any_of privilege_words message) 2
        + (flag (any_of integrity_words message) 4
            + (flag (any_of injection_words message) 8
                + (flag (any_of reverse_words message) 16
                    + (flag (any_of webshell_words message) 32
                        + (flag (any_of persistence_words message) 64
                            + flag (any_of container_words message) 128))))))
