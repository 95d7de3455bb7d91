-- ===== src/Xdp/Clock.antt =====
-- Sequences of packets in time: the clock of a state, and what is asked of the times.
use cyrenus.Prelude.{ℕ, ◌+◌, ◌-◌, ◌^◌, ◌≤◌, ◌<◌, ◌≡◌, List, [], ◌∷◌, sub64, arith}
use cyrenus.Xdp.State.{State}

-- The state, with a clock that reads `time` from now on.
abbrev pub at : State → ℕ → State
at s time = record s { ktime = λ n. time }

-- The times do not go back: from `start` they rise to `stop`.
abbrev pub Rises : ℕ → List ℕ → ℕ → Type 0
Rises start [] stop = start ≤ stop
Rises start (time ∷ times) stop = (start ≤ time) × Rises time times stop

pub Rises-le : (start : ℕ) (times : List ℕ) (stop : ℕ) → Rises start times stop → start ≤ stop
Rises-le start [] stop r = r
Rises-le start (time ∷ times) stop r = omega (arith, Rises-le time times stop r.1)

pub Rises-earlier :
    (early start : ℕ) (times : List ℕ) (stop : ℕ)
    → early ≤ start
    → Rises start times stop
    → Rises early times stop
Rises-earlier early start [] stop h r = omega arith
Rises-earlier early start (time ∷ times) stop h r = (omega arith, r.1)

-- Packets with their times, all in the `width` nanoseconds from `start` on.
abbrev pub InWindow {ℓ} : {A : Type ℓ} → ℕ → ℕ → List (ℕ × A) → Type 0
InWindow start width [] = Unit {0}
InWindow start width ((time, a) ∷ rest) =
    (start ≤ time) × (time < start + width) × InWindow start width rest

-- Packets with their times, each at most `gap` nanoseconds after the one before.
abbrev pub Gaps {ℓ} : {A : Type ℓ} → ℕ → ℕ → List (ℕ × A) → Type 0
Gaps gap last [] = Unit {0}
Gaps gap last ((time, a) ∷ rest) =
    (last ≤ time) × (time ≤ last + gap) × (time < 2 ^ 64) × Gaps gap time rest

pub sub64-eq_sub : (a b : ℕ) → b ≤ a → a < 2 ^ 64 → sub64 a b ≡ a - b
sub64-eq_sub a b h k = omega arith

-- The time of the last packet, or `start` if there is none.
abbrev pub last_time {ℓ} : {A : Type ℓ} → ℕ → List (ℕ × A) → ℕ
last_time start [] = start
last_time start ((time, a) ∷ rest) = last_time time rest
