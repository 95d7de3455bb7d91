-- ===== src/Attacks/Tests.antt =====
-- Tests of the list of attacks, and its theorems at concrete inputs.
use cyrenus.Attacks.{get_proto_name, get_attack_info}
use cyrenus.Xdp.State.{Map}
use cyrenus.Xdp.Types.{AttackInfo}
use cyrenus.Attacks.Slots.{get_attack_info-slots, IsArrayWalk, in_slots}
use cyrenus.Prelude.{
  none, ◌+◌, some, [], refl, ltb, ◌∷◌, codes, if◌then◌else◌, ◌≡◌, Option, ℕ, arith,
}

-- The keys of an array of 1000 entries.
abbrev array_keys : ℕ → Option ℕ
array_keys i = if ltb (i + 1) 1000 then some (i + 1) else none

array_keys-IsArrayWalk : IsArrayWalk 1000 array_keys
array_keys-IsArrayWalk = record { next = λ i h. ground arith; last = λ i h. ground arith }

abbrev seen : ℕ → AttackInfo
seen ip = record { timestamp = 5; src_ip = ip; protocol = 6; packets = 1; bytes = 60 }

-- An attack in each of the first two slots.
abbrev two_slots : Map AttackInfo
two_slots i = if ltb i 2 then some (seen i) else none

slots-test : in_slots two_slots 5 1 ≡ seen 1 ∷ []
slots-test = refl

proto-test : get_proto_name 17 ≡ codes "UDP"
unfolding get_proto_name
proto-test = refl

get_attack_info-slots_example : get_attack_info array_keys two_slots ≡ in_slots two_slots 999 1
get_attack_info-slots_example = get_attack_info-slots array_keys two_slots array_keys-IsArrayWalk
