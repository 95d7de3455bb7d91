-- ===== src/Xdp/Attack.antt =====
-- `update_attack_info`: the log of attacks, an array of `max_attacks` entries and its count.
pub mod Log
use cyrenus.Prelude.{ℕ, ◌-◌, Option, none, some, leb, if◌then◌else◌, add32}
use cyrenus.Xdp.Types.{AttackInfo, max_attacks}
use cyrenus.Xdp.State.{State, Helpers, now, tick}

abbrev pub count_or_zero : Option ℕ → ℕ
count_or_zero none = 0
count_or_zero (some n) = n

-- The number of attacks that the state has counted.
abbrev pub logged : State → ℕ
logged s = count_or_zero (s.attack_count 0)

-- The slot that the next attack goes to.
unfoldable pub attack_slot : State → ℕ
attack_slot s = if leb max_attacks (logged s) then max_attacks - 1 else logged s

unfoldable pub update_attack_info : Helpers → State → ℕ → ℕ → ℕ → ℕ → State
update_attack_info h s src_ip protocol packets bytes =
    let count = attack_slot s in
    let new_attack : AttackInfo = record {
      timestamp = now s;
      src_ip = src_ip;
      protocol = protocol;
      packets = packets;
      bytes = bytes;
    } in
    let s' = tick s in
    record s' {
      attack_info_array = h.update_attack_info_array s.attack_info_array count new_attack;
      attack_count = h.update_attack_count s.attack_count 0 (add32 count 1);
    }
