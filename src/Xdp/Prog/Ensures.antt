-- ===== src/Xdp/Prog/Ensures.antt =====
-- What a verdict satisfies, with the rules for the parts that `xdp_prog` is composed of.
use cyrenus.Xdp.Untouched.{Untouched, IsCheck}
use cyrenus.Xdp.Packet.{Returns}
use cyrenus.Xdp.Prog.{then_check, Verdict}
use cyrenus.Xdp.State.{State}
use cyrenus.Xdp.Types.{tx, pass, drop, Action}
use cyrenus.Prelude.{
  ◌>>=◌, inr, inl, if◌then◌else◌, false, refl, true, none, ◌≡◌, some, Option, Bool,
}

-- A property of the result, if there is one.
abbrev pub Ensures : (Action × State → Type 0) → Verdict → Type 0
Ensures P none = Unit {0}
Ensures P (some r) = P r

module _ (P : Action × State → Type 0) where
  pub >>=-Ensures {ℓ} :
      {A : Type ℓ} (o : Option A) (f : A → Verdict)
      → ((a : A) → Ensures P (f a))
      → Ensures P (o >>= f)
  >>=-Ensures none f h = tt
  >>=-Ensures (some a) f h = h a

  -- The same, where the rest is told what the first step returned.
  pub >>=-Ensures_eq {ℓ} :
      {A : Type ℓ} (o : Option A) (f : A → Verdict)
      → ((a : A) → o ≡ some a → Ensures P (f a))
      → Ensures P (o >>= f)
  >>=-Ensures_eq none f h = tt
  >>=-Ensures_eq (some a) f h = h a refl

  pub if-Ensures :
      (b : Bool) (x y : Verdict)
      → (b ≡ true → Ensures P x)
      → (b ≡ false → Ensures P y)
      → Ensures P (if b then x else y)
  if-Ensures true x y f g = f refl
  if-Ensures false x y f g = g refl

  -- A check that stops with `drop`, or passes to what follows.
  pub then_check-Ensures :
      (s : State) (r : Action × State) (next : State → Verdict)
      → IsCheck s r
      → (r.0 ≡ drop → P (drop, r.1))
      → ((s' : State) → Untouched s s' → r.1 ≡ s' → r.0 ≡ pass → Ensures P (next s'))
      → Ensures P (then_check r next)
  then_check-Ensures s (drop, s') next c f g = f refl
  then_check-Ensures s (pass, s') next c f g = g s' c.untouched refl refl
  then_check-Ensures s (tx, s') next c f g = elim c.verdict [
    | inl e ↦ absurd (cc)
    | inr e ↦ absurd (cc)
  ]

  -- With a result, the property holds of it.
  pub Ensures-holds :
      (o : Verdict) → Returns o → Ensures P o → (r : Action × State) × (o ≡ some r) × P r
  Ensures-holds none (r, e) h = absurd (cc)
  Ensures-holds (some r) n h = (r, refl, h)

pub Ensures-map :
    (P Q : Action × State → Type 0) (o : Verdict)
    → ((r : Action × State) → P r → Q r)
    → Ensures P o
    → Ensures Q o
Ensures-map P Q none f h = tt
Ensures-map P Q (some r) f h = f r h
