-- ===== src/Tetragon/Words.antt =====
-- What the classes of an event say of its message: which words stand in it.
use mathlib.Core.Path.{subst}
use cyrenus.Tetragon.Classify.{
  tetragon_classify_alert_type, container_words, persistence_words, webshell_words, reverse_words,
  injection_words, integrity_words, privilege_words, rce_words, flag, warning_words, critical_words,
  any_of, tetragon_classify_severity,
}
use cyrenus.Prelude.{
  zero, some-injective, suc, sym, ◌∙◌, ap, has_bit, bit, get_elem?, ◌==◌, ◌+◌, ◌*◌, Bool-cases, ◌≤◌,
  inr, contains-Occurs, [], Occurs, ◌⊎◌, contains, arith, ◌↔◌, refl, inl, ◌∷◌, true, false, some,
  Text, ◌||◌, ◌≡◌, if◌then◌else◌, List, Bool, ℕ,
}

-- One of the words stands in the text.
unfoldable pub AnyOccurs : List Text → Text → Type 0
AnyOccurs [] text = ⊥
AnyOccurs (w ∷ ws) text = Occurs w text ⊎ AnyOccurs ws text

or-split : (a b : Bool) → (a || b) ≡ true → (a ≡ true) ⊎ (b ≡ true)
or-split true b h = inl refl
or-split false b h = inr h

or-left : (a b : Bool) → a ≡ true → (a || b) ≡ true
or-left a b h = rw h refl

or-right : (a b : Bool) → b ≡ true → (a || b) ≡ true
or-right true b h = refl
or-right false b h = h

any_of→occurs : (ws : List Text) (text : Text) → any_of ws text ≡ true → AnyOccurs ws text
unfolding AnyOccurs
any_of→occurs [] text h = absurd (cc)
any_of→occurs (w ∷ ws) text h = elim (or-split (contains w text) (any_of ws text) h) [
  | inl e ↦ inl ((contains-Occurs w text).0 e)
  | inr e ↦ inr (any_of→occurs ws text e)
]

occurs→any_of : (ws : List Text) (text : Text) → AnyOccurs ws text → any_of ws text ≡ true
unfolding AnyOccurs
occurs→any_of [] text o = absurd o
occurs→any_of (w ∷ ws) text (inl o) = or-left (contains w text) _ ((contains-Occurs w text).1 o)
occurs→any_of (w ∷ ws) text (inr o) =
    or-right (contains w text) (any_of ws text) (occurs→any_of ws text o)

any_of-none : (ws : List Text) (text : Text) → (any_of ws text ≡ false) ↔ (AnyOccurs ws text → ⊥)
any_of-none ws text = (
  λ e o. cc (e, occurs→any_of ws text o),
  λ n. elim (Bool-cases (any_of ws text)) [
    | inl e ↦ absurd (n (any_of→occurs ws text e))
    | inr e ↦ e
  ],
)

abbrev severity_of : Bool → Bool → ℕ
severity_of critical warning = if critical then 4 else if warning then 2 else 1

critical-severity_of : (c w : Bool) → severity_of c w ≡ 4 → c ≡ true
critical-severity_of c w h = ground arith

info-severity_of : (c w : Bool) → severity_of c w ≡ 1 → (c ≡ false) × (w ≡ false)
info-severity_of c w h = ground arith

-- An event is critical exactly when its message has one of the critical words, and it is of the
-- lowest severity exactly when its message has none of the critical and none of the warning words.
pub tetragon_classify_severity-words :
    (function_name message : Text)
    → ((tetragon_classify_severity function_name (some message) ≡ 4)
        ↔ AnyOccurs critical_words message)
      × ((tetragon_classify_severity function_name (some message) ≡ 1)
          ↔ ((AnyOccurs critical_words message → ⊥) × (AnyOccurs warning_words message → ⊥)))
unfolding tetragon_classify_severity
tetragon_classify_severity-words function_name message =
    let c = any_of-none critical_words message in
    let w = any_of-none warning_words message in
    (
      (
        λ h.
            any_of→occurs critical_words message (
              critical-severity_of (any_of critical_words message) (any_of warning_words message)
                h),
        λ o. rw (occurs→any_of critical_words message o) refl,
      ),
      (
        λ h.
            let b =
              info-severity_of (any_of critical_words message) (any_of warning_words message) h in
            (c.0 b.0, w.0 b.1),
        λ n. rw (c.1 n.0, w.1 n.1) refl,
      ),
    )

-- The words of the flags, from the lowest bit on.
abbrev pub flag_words : List (List Text)
flag_words =
    rce_words ∷ privilege_words ∷ integrity_words ∷ injection_words ∷ reverse_words ∷ webshell_words
    ∷ persistence_words ∷ container_words ∷ []

abbrev as_number : Bool → ℕ
as_number b = if b then 1 else 0

as_number-le : (b : Bool) → as_number b ≤ 1
as_number-le true = omega arith
as_number-le false = omega arith

flag-as_number : (b : Bool) (n : ℕ) → flag b n ≡ n * as_number b
flag-as_number true n = omega arith
flag-as_number false n = omega arith

as_number-eq : (b : Bool) → (as_number b == 1) ≡ b
as_number-eq true = refl
as_number-eq false = refl

abbrev sum8 : ℕ → ℕ → ℕ → ℕ → ℕ → ℕ → ℕ → ℕ → ℕ
sum8 a b c d e f g h = a + (2 * b + (4 * c + (8 * d + (16 * e + (32 * f + (64 * g + 128 * h))))))

-- Each of eight bits is read back from their sum.
bit-sum8 :
    (a b c d e f g h : ℕ)
    → a ≤ 1
    → b ≤ 1
    → c ≤ 1
    → d ≤ 1
    → e ≤ 1
    → f ≤ 1
    → g ≤ 1
    → h ≤ 1
    → let x = sum8 a b c d e f g h in
      (bit x 0 ≡ a)
      × (bit x 1 ≡ b)
      × (bit x 2 ≡ c)
      × (bit x 3 ≡ d)
      × (bit x 4 ≡ e)
      × (bit x 5 ≡ f)
      × (bit x 6 ≡ g)
      × (bit x 7 ≡ h)
bit-sum8 a b c d e f g h la lb lc ld le lf lg lh = (
  omega arith,
  omega arith,
  omega arith,
  omega arith,
  omega arith,
  omega arith,
  omega arith,
  omega arith,
)

abbrev found : Text → List Text → ℕ
found message ws = as_number (any_of ws message)

found-le : (message : Text) (ws : List Text) → found message ws ≤ 1
found-le message ws = as_number-le (any_of ws message)

alert_type-sum8 :
    (message binary_path : Text)
    → tetragon_classify_alert_type (some message) binary_path
      ≡ sum8
          (found message rce_words)
          (found message privilege_words)
          (found message integrity_words)
          (found message injection_words)
          (found message reverse_words)
          (found message webshell_words)
          (found message persistence_words)
          (found message container_words)
unfolding tetragon_classify_alert_type
alert_type-sum8 message binary_path =
    rw
      (
        flag-as_number (any_of privilege_words message) 2,
        flag-as_number (any_of integrity_words message) 4,
        flag-as_number (any_of injection_words message) 8,
        flag-as_number (any_of reverse_words message) 16,
        flag-as_number (any_of webshell_words message) 32,
        flag-as_number (any_of persistence_words message) 64,
        flag-as_number (any_of container_words message) 128,
      )
      refl

read_by :
    (message : Text) (y : ℕ) (ws ws' : List Text)
    → some ws ≡ some ws'
    → y ≡ found message ws
    → y ≡ found message ws'
read_by message y ws ws' e h = subst (λ v. y ≡ found message v) (some-injective ws ws' e) h

choose :
    (message : Text) (x k : ℕ) (ws : List Text)
    → (bit x 0 ≡ found message rce_words)
      × (bit x 1 ≡ found message privilege_words)
      × (bit x 2 ≡ found message integrity_words)
      × (bit x 3 ≡ found message injection_words)
      × (bit x 4 ≡ found message reverse_words)
      × (bit x 5 ≡ found message webshell_words)
      × (bit x 6 ≡ found message persistence_words)
      × (bit x 7 ≡ found message container_words)
    → get_elem? flag_words k ≡ some ws
    → bit x k ≡ found message ws
choose message x zero ws b e = read_by message _ _ ws e b.0
choose message x (suc zero) ws b e = read_by message _ _ ws e b.1
choose message x (suc (suc zero)) ws b e = read_by message _ _ ws e b.2
choose message x (suc (suc (suc zero))) ws b e = read_by message _ _ ws e b.3
choose message x (suc (suc (suc (suc zero)))) ws b e = read_by message _ _ ws e b.4
choose message x (suc (suc (suc (suc (suc zero))))) ws b e = read_by message _ _ ws e b.5
choose message x (suc (suc (suc (suc (suc (suc zero)))))) ws b e = read_by message _ _ ws e b.6
choose message x (suc (suc (suc (suc (suc (suc (suc zero))))))) ws b e =
    read_by message _ _ ws e b.7
choose message x (suc (suc (suc (suc (suc (suc (suc (suc k)))))))) ws b e = absurd (cc)

flag_bits :
    (message : Text) (x k : ℕ) (ws : List Text)
    → x
      ≡ sum8
          (found message rce_words)
          (found message privilege_words)
          (found message integrity_words)
          (found message injection_words)
          (found message reverse_words)
          (found message webshell_words)
          (found message persistence_words)
          (found message container_words)
    → get_elem? flag_words k ≡ some ws
    → bit x k ≡ found message ws
flag_bits message x k ws s e =
    let l = found-le message in
    let b =
      bit-sum8 _ _ _ _ _ _ _ _ (l rce_words) (l privilege_words) (l integrity_words)
        (l injection_words) (l reverse_words) (l webshell_words) (l persistence_words)
        (l container_words) in
    rw s (choose message _ k ws b e)

-- A bit that counts the words of a list tells whether one of them stands in the message.
bit_tells :
    (ws : List Text) (message : Text) (x k : ℕ)
    → bit x k ≡ as_number (any_of ws message)
    → (has_bit x k ≡ true) ↔ AnyOccurs ws message
bit_tells ws message x k e =
    let b = ap (λ y. y == 1) e ∙ as_number-eq (any_of ws message) in
    (λ h. any_of→occurs ws message (sym b ∙ h), λ o. b ∙ occurs→any_of ws message o)

-- Bit k of the alert type of a message, for each of the eight flags: it is set exactly when one of
-- the words of the flag stands in the message.
pub tetragon_classify_alert_type-words :
    (message binary_path : Text) (k : ℕ) (ws : List Text)
    → get_elem? flag_words k ≡ some ws
    → (has_bit (tetragon_classify_alert_type (some message) binary_path) k ≡ true)
      ↔ AnyOccurs ws message
tetragon_classify_alert_type-words message binary_path k ws e =
    bit_tells ws message (tetragon_classify_alert_type (some message) binary_path) k
      (flag_bits message _ k ws (alert_type-sum8 message binary_path) e)
