-- ===== src/Prelude/Find.antt =====
-- Whether one text occurs in another: strstr as a test, and what it decides.
use cyrenus.Prelude.Tests.{Bool-cases}
use cyrenus.Prelude.Strings.{Text, starts_with, str_find, starts_with-append}
use Prim.Native.Nat.{ℕ, suc}
use mathlib.Core.Path.{◌≡◌, refl, ap, ◌∙◌, sym}
use mathlib.Core.Logic.{inl, inr, ◌↔◌}
use mathlib.Core.Bool.{Bool, true, false}
use mathlib.Core.Option.{Option, none, some}
use mathlib.Core.List.{[], ◌∷◌, ◌++◌}
use native.Mathlib.Omega.{arith}

abbrev pub is_some {ℓ} : {A : Type ℓ} → Option A → Bool
is_some none = false
is_some (some a) = true

-- strstr(text, needle) != NULL
unfoldable pub contains : Text → Text → Bool
unfolding str_find
contains needle text = is_some (str_find needle text)

-- The needle stands somewhere in the text.
abbrev pub Occurs : Text → Text → Type 0
Occurs needle text = (before : Text) × (after : Text) × (text ≡ before ++ (needle ++ after))

starts_with→rest :
    (needle text : Text)
    → starts_with needle text ≡ true
    → (after : Text) × (text ≡ needle ++ after)
unfolding starts_with
starts_with→rest [] text h = (text, refl)
starts_with→rest (n ∷ ns) [] h = absurd (cc)
starts_with→rest (n ∷ ns) (t ∷ ts) h =
    let r = starts_with→rest ns ts (ground arith) in (r.0, ground (arith, r.1))

contains-here : (needle text : Text) → starts_with needle text ≡ true → contains needle text ≡ true
unfolding contains str_find
contains-here needle [] h = rw h refl
contains-here needle (t ∷ ts) h = rw h refl

is_some-shift :
    (o : Option ℕ) → is_some (elim o [ none ↦ none | some i ↦ some (suc i) ]) ≡ is_some o
is_some-shift none = refl
is_some-shift (some i) = refl

contains-later :
    (needle ts : Text) (t : ℕ)
    → starts_with needle (t ∷ ts) ≡ false
    → contains needle (t ∷ ts) ≡ contains needle ts
unfolding contains str_find
contains-later needle ts t h = rw h (is_some-shift (str_find needle ts))

contains-nil : (needle : Text) → starts_with needle [] ≡ false → contains needle [] ≡ false
unfolding contains str_find
contains-nil needle h = rw h refl

contains→occurs : (needle text : Text) → contains needle text ≡ true → Occurs needle text
contains→occurs needle [] h = elim (Bool-cases (starts_with needle [])) [
  | inl e ↦ let r = starts_with→rest needle [] e in ([], r.0, r.1)
  | inr e ↦ absurd (cc (h, contains-nil needle e))
]
contains→occurs needle (t ∷ ts) h = elim (Bool-cases (starts_with needle (t ∷ ts))) [
  | inl e ↦ let r = starts_with→rest needle (t ∷ ts) e in ([], r.0, r.1)
  | inr e ↦
      let r = contains→occurs needle ts (sym (contains-later needle ts t e) ∙ h) in
      (t ∷ r.0, r.1, ap (λ ts'. t ∷ ts') r.2)
]

contains-append :
    (before needle after : Text) → contains needle (before ++ (needle ++ after)) ≡ true
contains-append [] needle after =
    contains-here needle (needle ++ after) (starts_with-append needle after)
contains-append (b ∷ bs) needle after =
    elim (Bool-cases (starts_with needle (b ∷ (bs ++ (needle ++ after))))) [
      | inl e ↦ contains-here needle (b ∷ (bs ++ (needle ++ after))) e
      | inr e ↦
          contains-later needle (bs ++ (needle ++ after)) b e ∙ contains-append bs needle after
    ]

-- strstr finds a needle exactly where there is one.
pub contains-Occurs : (needle text : Text) → (contains needle text ≡ true) ↔ Occurs needle text
contains-Occurs needle text =
    (contains→occurs needle text, λ o. rw o.2 (contains-append o.0 needle o.1))
