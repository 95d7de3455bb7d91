-- ===== src/Attacks.antt =====
-- `get_attack_info` of src/attack_info.c: the attacks that the server reads from the filter's log.
pub mod Slots
pub mod Tests
use cyrenus.Xdp.State.{Map}
use cyrenus.Xdp.Types.{max_attacks, AttackInfo}
use cyrenus.Prelude.{
  ◌+◌, leb, zero, ◌&&◌, ◌∷◌, codes, none, suc, ltb, [], ◌==◌, some, Bool, List, if◌then◌else◌,
  Option, Text, ℕ,
}

-- An entry that was written: the test of the loop.
abbrev pub is_attack : AttackInfo → Bool
is_attack a = ltb 0 a.packets && ltb 0 a.timestamp

-- What bpf_map_lookup_elem found at a key, after `count` attacks; `rest` goes on from a count.
abbrev pub visit : Option AttackInfo → ℕ → (ℕ → List AttackInfo) → List AttackInfo
visit none count rest = rest count
visit (some a) count rest =
    if is_attack a
    then a ∷ (if leb max_attacks (count + 1) then [] else rest (count + 1))
    else rest count

-- What bpf_map_get_next_key found; `rest` goes on from a key and a count.
abbrev pub at_next : Map AttackInfo → Option ℕ → ℕ → (ℕ → ℕ → List AttackInfo) → List AttackInfo
at_next m none count rest = []
at_next m (some next_key) count rest = visit (m next_key) count (λ count'. rest next_key count')

-- The loop: `get_next_key` is bpf_map_get_next_key on the array, and `fuel` bounds its calls.
unfoldable pub attack_walk : ℕ → (ℕ → Option ℕ) → Map AttackInfo → ℕ → ℕ → List AttackInfo
attack_walk zero get_next_key m key count = []
attack_walk (suc fuel) get_next_key m key count =
    at_next m (get_next_key key) count (λ key' count'. attack_walk fuel get_next_key m key' count')

-- The attacks that are copied into the array of the caller; the array of the filter has
-- `max_attacks` keys. Without memory for them there are none.
unfoldable pub get_attack_info : (ℕ → Option ℕ) → Map AttackInfo → List AttackInfo
get_attack_info get_next_key m = attack_walk max_attacks get_next_key m 0 0

-- get_proto_name
unfoldable pub get_proto_name : ℕ → Text
get_proto_name proto =
    if proto == 6
    then codes "TCP"
    else if proto == 17
    then codes "UDP"
    else if proto == 1
    then codes "ICMP"
    else if proto == 2
    then codes "IGMP"
    else if proto == 4
    then codes "IPIP"
    else if proto == 47
    then codes "GRE"
    else if proto == 50
    then codes "ESP"
    else if proto == 51
    then codes "AH"
    else if proto == 58
    then codes "ICMPv6"
    else if proto == 132
    then codes "SCTP"
    else codes "Unknown"
