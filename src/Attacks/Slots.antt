-- ===== src/Attacks/Slots.antt =====
-- Which slots of the filter's log are listed.
use cyrenus.Xdp.Types.{AttackInfo, max_attacks}
use cyrenus.Attacks.{at_next, is_attack, visit, attack_walk, get_attack_info}
use cyrenus.Xdp.State.{Map}
use cyrenus.Prelude.{
  false, inr, inr, leb, ap, ◌∷◌, inl, refl, none, if◌then◌else◌, Bool-cases, zero, some, [], suc,
  length, some, ◌<◌, List, ◌≤◌, ◌≡◌, ◌+◌, Option, ℕ, arith,
}

-- bpf_map_get_next_key on an array of n entries: the index behind a key, and none behind the last.
pub record IsArrayWalk (n : ℕ) (get_next_key : ℕ → Option ℕ) : Type 0 where
  pub next : (i : ℕ) → i + 1 < n → get_next_key i ≡ some (i + 1)
  pub last : (i : ℕ) → i + 1 ≡ n → get_next_key i ≡ none

-- The attacks in `left` slots from the i-th on.
abbrev pub in_slot : Option AttackInfo → List AttackInfo → List AttackInfo
in_slot none rest = rest
in_slot (some a) rest = if is_attack a then a ∷ rest else rest

abbrev pub in_slots : Map AttackInfo → ℕ → ℕ → List AttackInfo
in_slots m zero i = []
in_slots m (suc left) i = in_slot (m i) (in_slots m left (i + 1))

below_max : (count : ℕ) → count + 1 < 1000 → leb max_attacks (count + 1) ≡ false
below_max count h = ground arith

visit-in_slot :
    (o : Option AttackInfo) (count : ℕ) (rest : ℕ → List AttackInfo) (slots : List AttackInfo)
    → count + 1 < 1000
    → ((c : ℕ) → c ≤ count + 1 → rest c ≡ slots)
    → visit o count rest ≡ in_slot o slots
visit-in_slot none count rest slots l h = h count (omega arith)
visit-in_slot (some a) count rest slots l h = elim (Bool-cases (is_attack a)) [
  | inl e ↦ rw e (rw (below_max count l) (ap (λ xs. a ∷ xs) (h (count + 1) (omega arith))))
  | inr e ↦ rw e (h count (omega arith))
]

walk-in_slots :
    (get_next_key : ℕ → Option ℕ) (m : Map AttackInfo) (left fuel key count : ℕ)
    → IsArrayWalk 1000 get_next_key
    → left ≤ fuel
    → key + left ≡ 999
    → count ≤ key
    → attack_walk (suc fuel) get_next_key m key count ≡ in_slots m left (key + 1)
unfolding attack_walk
walk-in_slots get_next_key m zero fuel key count w f k c = rw (w.last key (omega arith)) refl
walk-in_slots get_next_key m (suc left) zero key count w f k c = absurd (omega arith)
walk-in_slots get_next_key m (suc left) (suc fuel) key count w f k c =
    rw (w.next key (omega arith)) (
      visit-in_slot (m (key + 1)) count _ _ (omega arith) (λ c' l.
        walk-in_slots get_next_key m left fuel (key + 1) c' w (omega arith) (omega arith)
          (omega arith)))

-- The attacks listed are those in the slots from the second to the last, in their order: the walk
-- starts behind key 0, so that the attack in slot 0 is not listed.
pub get_attack_info-slots :
    (get_next_key : ℕ → Option ℕ) (m : Map AttackInfo)
    → IsArrayWalk 1000 get_next_key
    → get_attack_info get_next_key m ≡ in_slots m 999 1
unfolding get_attack_info
get_attack_info-slots get_next_key m w =
    walk-in_slots get_next_key m 999 999 0 0 w (omega arith) (omega arith) (omega arith)

under_max : (count : ℕ) → leb max_attacks (count + 1) ≡ false → count + 1 < 1000
under_max count h = ground arith

visit-room :
    (o : Option AttackInfo) (count : ℕ) (rest : ℕ → List AttackInfo)
    → count < 1000
    → ((c : ℕ) → c < 1000 → c + length (rest c) ≤ 1000)
    → count + length (visit o count rest) ≤ 1000
visit-room none count rest l h = h count l
visit-room (some a) count rest l h = elim (Bool-cases (is_attack a)) [
  | inl e ↦ rw e (elim (Bool-cases (leb max_attacks (count + 1))) [
    | inl f ↦ rw f (omega arith)
    | inr f ↦ rw f (omega (arith, h (count + 1) (under_max count f)))
  ])
  | inr e ↦ rw e (h count l)
]

at_next-room :
    (m : Map AttackInfo) (o : Option ℕ) (count : ℕ) (rest : ℕ → ℕ → List AttackInfo)
    → count < 1000
    → ((key c : ℕ) → c < 1000 → c + length (rest key c) ≤ 1000)
    → count + length (at_next m o count rest) ≤ 1000
at_next-room m none count rest l h = omega arith
at_next-room m (some key) count rest l h = visit-room (m key) count _ l (λ c b. h key c b)

walk-room :
    (get_next_key : ℕ → Option ℕ) (m : Map AttackInfo) (fuel key count : ℕ)
    → count < 1000
    → count + length (attack_walk fuel get_next_key m key count) ≤ 1000
unfolding attack_walk
walk-room get_next_key m zero key count l = omega arith
walk-room get_next_key m (suc fuel) key count l =
    at_next-room m (get_next_key key) count _ l (λ key' c b. walk-room get_next_key m fuel key' c b)

-- Whatever the kernel answers, and however long the walk goes on, no more attacks are copied than
-- the array of the caller has room for.
pub attack_walk-le :
    (get_next_key : ℕ → Option ℕ) (m : Map AttackInfo) (fuel : ℕ)
    → length (attack_walk fuel get_next_key m 0 0) ≤ max_attacks
attack_walk-le get_next_key m fuel = omega (arith, walk-room get_next_key m fuel 0 0 (omega arith))
