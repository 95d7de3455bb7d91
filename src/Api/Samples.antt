-- ===== src/Api/Samples.antt =====
-- Concrete hash maps and JSON objects, for the tests and the witnesses.
use cyrenus.Api.Json.{JsonC}
use cyrenus.Api.Maps.{MapOps, Syscalls, IsHash}
use cyrenus.Xdp.Types.{RuleKey}
use cyrenus.Prelude.{
  some-injective, inr, ◌∙◌, inl, sym, Bool-cases, str_eq, refl, if◌then◌else◌, true, false, ap,
  ◌&&◌, none, ◌≡◌, ◌==◌, ◌≢◌, Option, atoi, [], ◌∷◌, Bool, some, List, Text, ℕ, arith,
}

-- A hash that is never full, for keys with a Boolean equality.
abbrev pub hash_ops : {K V : Type 0} → (K → K → Bool) → MapOps K V
hash_ops eq = record {
  update = λ m k v. some (λ j. if eq k j then some v else m j);
  delete = λ m k. some (λ j. if eq k j then none else m j);
}

if-true {ℓ} : {A : Type ℓ} (b : Bool) (x y : A) → b ≡ true → (if b then x else y) ≡ x
if-true b x y e = rw e refl

if-false {ℓ} : {A : Type ℓ} (b : Bool) (x y : A) → b ≡ false → (if b then x else y) ≡ y
if-false b x y e = rw e refl

pub hash_ops-IsHash :
    {K V : Type 0} (eq : K → K → Bool)
    → ((k : K) → eq k k ≡ true)
    → ((k j : K) → k ≢ j → eq k j ≡ false)
    → IsHash (hash_ops {K = K} {V = V} eq)
hash_ops-IsHash eq r n = record {
  updated = λ m m' k v e.
      ap (λ f. f k) (sym (some-injective _ _ e)) ∙ if-true (eq k k) (some v) (m k) (r k);
  update_other = λ m m' k j v e ne.
      ap (λ f. f j) (sym (some-injective _ _ e)) ∙ if-false (eq k j) (some v) (m j) (n k j ne);
  deleted =
      λ m m' k e. ap (λ f. f k) (sym (some-injective _ _ e)) ∙ if-true (eq k k) none (m k) (r k);
  delete_other = λ m m' k j e ne.
      ap (λ f. f j) (sym (some-injective _ _ e)) ∙ if-false (eq k j) none (m j) (n k j ne);
}

abbrev pub rule_key_eq : RuleKey → RuleKey → Bool
rule_key_eq a b = a.ip == b.ip && (a.port == b.port && a.proto == b.proto)

rule_key_eq_refl : (a : RuleKey) → rule_key_eq a a ≡ true
rule_key_eq_refl a = ground arith

pub rule_key_eq→eq : (a b : RuleKey) → rule_key_eq a b ≡ true → a ≡ b
rule_key_eq→eq a b h = ground arith

rule_key_eq_ne : (a b : RuleKey) → a ≢ b → rule_key_eq a b ≡ false
rule_key_eq_ne a b ne = elim (Bool-cases (rule_key_eq a b)) [
  | inl e ↦ absurd (ne (rule_key_eq→eq a b e))
  | inr e ↦ e
]

abbrev pub number_eq : ℕ → ℕ → Bool
number_eq a b = a == b

abbrev pub kernel : Syscalls
kernel = record {
  rules = hash_ops rule_key_eq;
  blocked_countries = hash_ops number_eq;
  config_map = hash_ops number_eq;
}

pub rules-IsHash : IsHash kernel.rules
rules-IsHash = hash_ops-IsHash rule_key_eq rule_key_eq_refl rule_key_eq_ne

pub numbers-IsHash : {V : Type 0} → IsHash (hash_ops {K = ℕ} {V = V} number_eq)
numbers-IsHash = hash_ops-IsHash number_eq (λ k. ground arith) (λ k j ne. ground arith)

-- An object of texts; a text is the value of its only member.
abbrev pub Object : Type 0
Object = List (Text × Text)

unfoldable pub member : Object → Text → Option Object
member [] key = none
member ((k, v) ∷ rest) key =
    let found = member rest key in if str_eq k key then some (([], v) ∷ []) else found

abbrev pub only_value : Object → Text
only_value [] = []
only_value ((k, v) ∷ rest) = v

-- Every body is the given object.
abbrev pub always : Object → JsonC Object
always root = record {
  tokener_parse = λ upload_data. some root;
  get_ex = member;
  get_string = only_value;
  get_int = λ j. atoi (only_value j);
}

-- Every address is 10.0.0.1.
abbrev pub one_address : Text → Option ℕ
one_address text = some 0x0100_000a
