-- ===== src/Security/Saved.antt =====
-- What saving a policy does to the policies.
use cyrenus.Http.Endpoint.{NoSlash}
use cyrenus.Security.{Os}
use cyrenus.Prelude.{ap, ◌≡◌, ◌≤◌, [], ◌∷◌, ◌++◌, length, Text, codes, ℕ}

tail_of : Text → Text
tail_of [] = []
tail_of (c ∷ cs) = cs

append_cancel_left : (xs ys zs : Text) → xs ++ ys ≡ xs ++ zs → ys ≡ zs
unfolding tail_of
append_cancel_left [] ys zs e = e
append_cancel_left (x ∷ xs) ys zs e = append_cancel_left xs ys zs (ap tail_of e)

head_of : Text → ℕ
head_of [] = 0
head_of (c ∷ cs) = c

directory : Text
directory = codes "/home/moh/Documents/cyrenus/config/tetragon/policies/"

yaml : Text
yaml = codes ".yaml"

-- Two names of a directory that are no ways out of it name two files, where none of them is a link.
pub record IsLinkless (os : Os) : Type 0 where
  pub apart :
      (dir a b : Text)
      → NoSlash a
      → NoSlash b
      → 3 ≤ length a
      → 3 ≤ length b
      → os.resolve (dir ++ (47 ∷ a)) ≡ os.resolve (dir ++ (47 ∷ b))
      → a ≡ b

policies : Text
policies = codes "/home/moh/Documents/cyrenus/config/tetragon/policies"
