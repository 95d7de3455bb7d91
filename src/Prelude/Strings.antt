-- ===== src/Prelude/Strings.antt =====
-- C strings as lists of bytes, without the end mark, and the library calls that the program makes
-- on them: `strcmp`, `strncmp` with a whole literal, `strstr`, `strncpy` and `atoi`.
use Prim.Native.String.{String}
use Prim.Native.Char.{code}
use cyrenus.Prelude.Tests.{ltb, leb, ◌==◌, if◌then◌else◌}
use cyrenus.Prelude.Lists.{length}
use Prim.Native.Nat.{ℕ, zero, suc, min, ◌≤◌, ◌<◌, ◌+◌, ◌-◌, ◌*◌, ◌%◌, ◌^◌}
use mathlib.Core.Path.{◌≡◌, refl, ap}
use mathlib.Core.Bool.{Bool, true, false, ◌&&◌, ◌||◌}
use mathlib.Core.Option.{Option, none, some}
use mathlib.Core.List.{List, [], ◌∷◌, ◌++◌}
use native.Mathlib.Omega.{arith}

abbrev pub Text : Type 0
Text = List ℕ

-- The bytes of an ASCII literal.
unfoldable pub codes : String → Text
codes String.[] = []
codes (String.◌∷◌ c s) = code c ∷ codes s

-- strlen(text) == 0
abbrev pub is_empty : Text → Bool
is_empty [] = true
is_empty (c ∷ cs) = false

-- strcmp(a, b) == 0
unfoldable pub str_eq : Text → Text → Bool
str_eq [] [] = true
str_eq [] (b ∷ bs) = false
str_eq (a ∷ as') [] = false
str_eq (a ∷ as') (b ∷ bs) = a == b && str_eq as' bs

pub str_eq→eq : (a b : Text) → str_eq a b ≡ true → a ≡ b
unfolding str_eq
str_eq→eq [] [] h = refl
str_eq→eq [] (b ∷ bs) h = absurd (cc)
str_eq→eq (a ∷ as') [] h = absurd (cc)
str_eq→eq (a ∷ as') (b ∷ bs) h = ground (arith, str_eq→eq as' bs)

pub str_eq_refl : (a : Text) → str_eq a a ≡ true
unfolding str_eq
str_eq_refl [] = refl
str_eq_refl (a ∷ as') = ground (arith, str_eq_refl as')

-- strncmp(text, prefix, strlen(prefix)) == 0
unfoldable pub starts_with : Text → Text → Bool
starts_with [] text = true
starts_with (p ∷ ps) [] = false
starts_with (p ∷ ps) (t ∷ ts) = p == t && starts_with ps ts

pub starts_with-append : (prefix rest : Text) → starts_with prefix (prefix ++ rest) ≡ true
unfolding starts_with
starts_with-append [] rest = refl
starts_with-append (p ∷ ps) rest = ground (arith, starts_with-append ps rest)

-- text + n
unfoldable pub drop : ℕ → Text → Text
drop zero text = text
drop (suc n) [] = []
drop (suc n) (t ∷ ts) = drop n ts

-- The first n bytes.
unfoldable pub take : ℕ → Text → Text
take zero text = []
take (suc n) [] = []
take (suc n) (t ∷ ts) = t ∷ take n ts

pub length-take : (n : ℕ) (text : Text) → length (take n text) ≡ min n (length text)
unfolding take
length-take zero text = omega arith
length-take (suc n) [] = omega arith
length-take (suc n) (t ∷ ts) = omega (arith, length-take n ts)

pub take_all : (text : Text) → take (length text) text ≡ text
unfolding take
take_all [] = refl
take_all (t ∷ ts) = ap (λ ts'. t ∷ ts') (take_all ts)

-- A text that is short enough is taken whole.
pub take_short : (n : ℕ) (text : Text) → length text ≤ n → take n text ≡ text
unfolding take
take_short zero [] h = refl
take_short zero (t ∷ ts) h = absurd (omega arith)
take_short (suc n) [] h = refl
take_short (suc n) (t ∷ ts) h = ap (λ ts'. t ∷ ts') (take_short n ts (omega arith))

pub drop-append : (prefix rest : Text) → drop (length prefix) (prefix ++ rest) ≡ rest
unfolding drop
drop-append [] rest = refl
drop-append (p ∷ ps) rest = drop-append ps rest

-- strstr(text, needle): the position of the first occurrence.
unfoldable pub str_find : Text → Text → Option ℕ
unfolding starts_with
str_find needle [] = if starts_with needle [] then some 0 else none
str_find needle (t ∷ ts) =
    let rest = str_find needle ts in
    if starts_with needle (t ∷ ts)
    then some 0
    else elim rest [ none ↦ none | some i ↦ some (suc i) ]

-- isspace
abbrev pub is_space : ℕ → Bool
is_space c = c == 32 || (leb 9 c && leb c 13)

abbrev pub is_digit : ℕ → Bool
is_digit c = leb 48 c && leb c 57

unfoldable pub skip_space : Text → Text
skip_space [] = []
skip_space (c ∷ cs) = let rest = skip_space cs in if is_space c then rest else c ∷ cs

-- The number that the digits in front make, after `acc`.
unfoldable pub digits : ℕ → Text → ℕ
digits acc [] = acc
digits acc (c ∷ cs) = let rest = digits (acc * 10 + (c - 48)) cs in if is_digit c then rest else acc

-- The number after an optional sign, as the 32 bits of an `int`.
unfoldable pub signed : Text → ℕ
unfolding digits
signed [] = 0
signed (c ∷ cs) =
    if c == 45
    then (2 ^ 32 - digits 0 cs % 2 ^ 32) % 2 ^ 32
    else if c == 43
    then digits 0 cs % 2 ^ 32
    else digits 0 (c ∷ cs) % 2 ^ 32

-- atoi: the 32 bits of its result. C leaves open what it is at a number out of range, which wraps
-- here.
unfoldable pub atoi : Text → ℕ
unfolding skip_space signed
atoi text = signed (skip_space text)

abbrev pub to_lower : ℕ → ℕ
to_lower c = if leb 65 c && leb c 90 then c + 32 else c

-- strcasecmp(a, b) == 0
unfoldable pub str_case_eq : Text → Text → Bool
str_case_eq [] [] = true
str_case_eq [] (b ∷ bs) = false
str_case_eq (a ∷ as') [] = false
str_case_eq (a ∷ as') (b ∷ bs) = to_lower a == to_lower b && str_case_eq as' bs

-- The text of an array: its bytes before the first 0. Where it has none, what follows the array is
-- left out.
abbrev pub array_text : Text → Text
array_text [] = []
array_text (c ∷ cs) = if c == 0 then [] else c ∷ array_text cs

-- strncpy of at most n bytes into an array of n + 1, which held `old`: a text that is shorter is
-- filled up with zeros, behind one that is not the array stays as it was.
abbrev pub copied_text : ℕ → Text → Text → Text
copied_text n old text =
    if ltb (length text) n then text else take n text ++ array_text (drop n old)

-- A text that leaves room for its end is copied whole.
pub copied_text-short : (n : ℕ) (old text : Text) → length text < n → copied_text n old text ≡ text
copied_text-short n old text h = let e : ltb (length text) n ≡ true = ground arith in rw e refl
