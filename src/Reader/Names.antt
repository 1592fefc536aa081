-- ===== src/Reader/Names.antt =====
-- `strcmp` decides whether two names are the same.
use s5fs.Base.{ℕ, ◌≡◌, refl, true, List, [], ◌∷◌, arith}
use s5fs.Reader.{same_name}

pub same_name-eq : (a b : List ℕ) → same_name a b ≡ true → a ≡ b
unfolding same_name
same_name-eq [] [] h = refl
same_name-eq [] (y ∷ ys) h = cc
same_name-eq (x ∷ xs) [] h = cc
same_name-eq (x ∷ xs) (y ∷ ys) h = ground (arith, same_name-eq xs ys)

pub same_name_refl : (a : List ℕ) → same_name a a ≡ true
unfolding same_name
same_name_refl [] = refl
same_name_refl (x ∷ xs) = ground (arith, same_name_refl xs)
