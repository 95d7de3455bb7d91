-- ===== src/Walks/Order.antt =====
-- The order of the keys of a hash map, as bpf_map_get_next_key gives it.
use cyrenus.Prelude.{
  inl, inr, sym, ◌∙◌, ◌⊎◌, refl, ◌≡◌, ◌≢◌, ◌≤◌, List, Option, [], get_elem?, length, some, suc,
  zero, ◌∷◌, ℕ, arith,
}

-- What the kernel documents of the walk of a hash: behind a key that the map has comes the next
-- one, and behind a key that it does not have the first.
pub record IsHashWalk {K : Type 0} (keys : List K) (get_next_key : K → Option K) : Type 0 where
  pub present :
      (i : ℕ) (k : K) → get_elem? keys i ≡ some k → get_next_key k ≡ get_elem? keys (suc i)
  pub absent :
      (k : K) → ((i : ℕ) → get_elem? keys i ≢ some k) → get_next_key k ≡ get_elem? keys zero

-- The key is not among the keys.
abbrev pub NotIn : {K : Type 0} → K → List K → Type 0
NotIn k keys = (i : ℕ) → get_elem? keys i ≢ some k

-- The elements behind the first n.
abbrev pub behind : {A : Type 0} → ℕ → List A → List A
behind zero xs = xs
behind (suc n) [] = []
behind (suc n) (x ∷ xs) = behind n xs

-- Each key is followed by the next one of the list.
abbrev pub IsFollowed : {K : Type 0} → List K → (K → Option K) → Type 0
IsFollowed keys get_next_key =
    (i : ℕ) (k : _) → get_elem? keys i ≡ some k → get_next_key k ≡ get_elem? keys (suc i)

pub behind-IsFollowed :
    {K : Type 0}
    → (n : ℕ) (keys : List K) (get_next_key : K → Option K) → IsFollowed keys get_next_key
    → IsFollowed (behind n keys) get_next_key
behind-IsFollowed zero keys get_next_key h = h
behind-IsFollowed (suc n) [] get_next_key h = h
behind-IsFollowed (suc n) (x ∷ xs) get_next_key h =
    behind-IsFollowed n xs get_next_key (λ i. h (suc i))

pub get_elem?-behind :
    {A : Type 0} → (n : ℕ) (xs : List A) → get_elem? (behind n xs) zero ≡ get_elem? xs n
get_elem?-behind zero xs = refl
get_elem?-behind (suc n) [] = refl
get_elem?-behind (suc n) (x ∷ xs) = get_elem?-behind n xs

pub length-behind : {A : Type 0} → (n : ℕ) (xs : List A) → length (behind n xs) ≤ length xs
length-behind zero xs = omega arith
length-behind (suc n) [] = omega arith
length-behind (suc n) (x ∷ xs) = omega (arith, length-behind n xs)

-- Where a walk starts that is given a key: at the first key, where the map does not have it, else
-- behind it.
abbrev pub Start : {K : Type 0} → K → List K → Type 0
Start {K} key keys = NotIn key keys ⊎ ((i : ℕ) × (get_elem? keys i ≡ some key))

abbrev pub walked : {K : Type 0} → (key : K) (keys : List K) → Start key keys → List K
walked key keys (inl absent) = keys
walked key keys (inr at) = behind (suc at.0) keys

-- The keys that are walked stand in the order of the walk, and are no more than all.
pub walked-IsFollowed :
    {K : Type 0}
    → (key : K) (keys : List K) (get_next_key : K → Option K) (start : Start key keys)
    → IsHashWalk keys get_next_key
    → (get_next_key key ≡ get_elem? (walked key keys start) zero)
      × IsFollowed (walked key keys start) get_next_key
      × (length (walked key keys start) ≤ length keys)
walked-IsFollowed key keys get_next_key (inl absent) w =
    (w.absent key absent, w.present, omega arith)
walked-IsFollowed key keys get_next_key (inr at) w = (
  w.present at.0 key at.1 ∙ sym (get_elem?-behind (suc at.0) keys),
  behind-IsFollowed (suc at.0) keys get_next_key w.present,
  length-behind (suc at.0) keys,
)
