-- ===== src/Uplink.antt =====
-- `apply_global_block` of src/saas_uplink.c: the rule that blocks an address for all installations.
pub mod Block
pub mod Tests
use cyrenus.Api.Maps.{Syscalls}
use cyrenus.Xdp.State.{State}
use cyrenus.Xdp.Types.{RuleKey, Rule}
use cyrenus.Prelude.{not, if◌then◌else◌, none, Bool, some, some, Option, Text, ℕ}

-- The key for every port, of TCP only.
abbrev pub global_key : ℕ → RuleKey
global_key ip = record { ip = ip; port = 0; proto = 6 }

-- The members that are not named are 0.
abbrev pub global_rule : Rule
global_rule = record { port_start = 0; port_end = 0; proto = 0; action = 1 }

-- What the map update leaves; its result is not looked at.
abbrev pub rules_set : State → Option (RuleKey → Option Rule) → State
rules_set s none = s
rules_set s (some m) = record s { rules = m }

abbrev pub block_address : Syscalls → State → Option ℕ → State
block_address bpf s none = s
block_address bpf s (some ip) = rules_set s (bpf.rules.update s.rules (global_key ip) global_rule)

-- `has_fd` is `ctx->fds && ctx->fds->rules_fd > 0`.
unfoldable pub apply_global_block : (Text → Option ℕ) → Syscalls → Bool → State → Text → State
apply_global_block inet_pton bpf has_fd s ip_str =
    if not has_fd then s else block_address bpf s (inet_pton ip_str)
