-- ===== src/Http/Hash.antt =====
-- `hash_api_key` of src/api/keys.c, and the text of a digest that it and `create_session` make.
use cyrenus.Prelude.{◌+◌, ◌%◌, arith, refl, ltb, ◌∷◌, [], ◌≡◌, ◌/◌, if◌then◌else◌, Text, ◌<◌, ℕ}

-- The digit of a number below 16 in "%x".
unfoldable pub hex_digit : ℕ → ℕ
hex_digit n = if ltb n 10 then 48 + n else 87 + n

-- The loop of sprintf("%02x") over the bytes of a digest.
unfoldable pub hex : Text → Text
hex [] = []
hex (b ∷ bs) = hex_digit (b / 16) ∷ hex_digit (b % 16) ∷ hex bs

-- What OpenSSL answers: EVP_MD_CTX_new returns NULL, a later call fails, with what is then in the
-- array that nothing was written to, or the bytes of the digest.
pub data Digest : Type 0 where
  no_context : Digest
  failed : Text → Digest
  digest : Text → Digest

unfoldable pub hash_api_key : (Text → Digest) → Text → Text
unfolding hex
hash_api_key evp_sha256 key = elim (evp_sha256 key) [
  | no_context ↦ []
  | failed hash_out ↦ hash_out
  | digest hash ↦ hex hash
]

hex_digit-injective : (m n : ℕ) → m < 16 → n < 16 → hex_digit m ≡ hex_digit n → m ≡ n
unfolding hex_digit
hex_digit-injective m n h k e = ground arith

abbrev pub AreBytes : Text → Type 0
AreBytes [] = Unit
AreBytes (b ∷ bs) = (b < 256) × AreBytes bs

hex_byte-injective :
    (a b : ℕ)
    → a < 256
    → b < 256
    → hex_digit (a / 16) ≡ hex_digit (b / 16)
    → hex_digit (a % 16) ≡ hex_digit (b % 16)
    → a ≡ b
hex_byte-injective a b h k e f = omega (
  arith,
  hex_digit-injective (a / 16) (b / 16) (omega arith) (omega arith) e,
  hex_digit-injective (a % 16) (b % 16) (omega arith) (omega arith) f,
)

-- Two digests with the same text are the same bytes.
pub hex-injective : (a b : Text) → AreBytes a → AreBytes b → hex a ≡ hex b → a ≡ b
unfolding hex
hex-injective [] [] h k e = refl
hex-injective [] (b ∷ bs) h k e = absurd (cc)
hex-injective (a ∷ as') [] h k e = absurd (cc)
hex-injective (a ∷ as') (b ∷ bs) (h, hs) (k, ks) e =
    ground (arith, hex_byte-injective a b h k, hex-injective as' bs hs ks)
