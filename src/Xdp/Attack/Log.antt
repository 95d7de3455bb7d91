-- ===== src/Xdp/Attack/Log.antt =====
-- The attack log of `update_attack_info` as a bounded list: what it keeps when it is full.
use cyrenus.Xdp.Types.{max_attacks}
use cyrenus.Xdp.Attack.{logged, attack_slot, update_attack_info}
use cyrenus.Xdp.State.{now, State, IsArrayUpdate, Helpers}
use Prim.Native.Nat.{min}
use cyrenus.Prelude.{
  refl, ◌-◌, length, add32, arith, ◌<◌, ◌+◌, some, ◌==◌, if◌then◌else◌, ◌≡◌, ◌≤◌, [], ◌∷◌, List, ℕ,
}

pub record Attack : Type 0 where
  pub src_ip : ℕ
  pub protocol : ℕ
  pub packets : ℕ
  pub bytes : ℕ

abbrev pub log_step : Helpers → State → Attack → State
log_step h s a = update_attack_info h s a.src_ip a.protocol a.packets a.bytes

pub log_run : Helpers → State → List Attack → State
log_run h s [] = s
log_run h s (a ∷ rest) = log_run h (log_step h s a) rest

-- The helpers behave as the kernel documents it of arrays of these sizes.
pub record LogUpdates (h : Helpers) : Type 0 where
  pub entries : IsArrayUpdate max_attacks h.update_attack_info_array
  pub count : IsArrayUpdate 1 h.update_attack_count

module _ (h : Helpers) (laws : LogUpdates h) where
  -- One attack: it is stored in the slot, the other entries stay, and the count stays in bounds.
  log_step-lem :
      (s : State) (a : Attack) (i : ℕ)
      → logged s ≤ max_attacks
      → let s' = log_step h s a in
        (s'.attack_info_array i ≡ (
          if attack_slot s == i
          then some (record {
            timestamp = now s;
            src_ip = a.src_ip;
            protocol = a.protocol;
            packets = a.packets;
            bytes = a.bytes;
          })
          else s.attack_info_array i))
        × (logged s' ≡ attack_slot s + 1)
        × (attack_slot s < max_attacks)
  unfolding update_attack_info attack_slot
  log_step-lem s a i b = ground (
    arith,
    laws.entries.inside s.attack_info_array (attack_slot s)
        (record {
          timestamp = now s;
          src_ip = a.src_ip;
          protocol = a.protocol;
          packets = a.packets;
          bytes = a.bytes;
        })
        i,
    laws.count.inside s.attack_count 0 (add32 (attack_slot s) 1) 0,
  )

  -- The count after any attacks: one for each, and `max_attacks` at most.
  pub log_run-logged :
      (s : State) (attacks : List Attack)
      → logged s ≤ max_attacks
      → logged (log_run h s attacks) ≡ min (logged s + length attacks) max_attacks
  unfolding log_run attack_slot
  log_run-logged s [] b = omega arith
  log_run-logged s (a ∷ rest) b =
      let step = log_step-lem s a 0 b in ground (arith, step, log_run-logged (log_step h s a) rest)

  -- The entries below the count stay as they are whatever attacks follow, but for the last slot:
  -- of a full log the oldest entries are kept, and not the newest.
  pub log_run-keeps :
      (s : State) (attacks : List Attack) (i : ℕ)
      → logged s ≤ max_attacks
      → i < logged s
      → i + 1 < max_attacks
      → (log_run h s attacks).attack_info_array i ≡ s.attack_info_array i
  unfolding log_run attack_slot
  log_run-keeps s [] i b lt inside = refl
  log_run-keeps s (a ∷ rest) i b lt inside =
      let step = log_step-lem s a i b in ground (arith, step, log_run-keeps (log_step h s a) rest i)

  -- The newest attack is in the log: behind the others, or in the last slot once it is full.
  pub log_run-newest :
      (s : State) (attacks : List Attack) (a : Attack)
      → logged s ≤ max_attacks
      → let s' = log_run h s attacks in
        (log_step h s' a).attack_info_array (min (logged s + length attacks) (max_attacks - 1))
        ≡ some (record {
          timestamp = now s';
          src_ip = a.src_ip;
          protocol = a.protocol;
          packets = a.packets;
          bytes = a.bytes;
        })
  unfolding attack_slot
  log_run-newest s attacks a b =
      let total = log_run-logged s attacks b in
      let slot = min (logged s + length attacks) (max_attacks - 1) in
      ground (arith, total, log_step-lem (log_run h s attacks) a slot)
