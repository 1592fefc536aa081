-- ===== src/Rw/Paths.antt =====
-- Splitting a path at its last slash, as parent_of does with strrchr.
use s5fs.Base.{
  Option, ℕ, ◌≡◌, ap, subst, ◌≢◌, inl, inr, none, some, List, [], ◌∷◌, ◌++◌, arith, Option-cases,
  All,
}
use std.Option.{some-injective}
use s5fs.Rw.Ops.{split_last}

-- A byte other than the slash.
abbrev pub NotSlash : ℕ → Type 0
NotSlash c = c ≢ b'/'

-- The two parts with the slash between them are the path, and the leaf has no slash.
abbrev AreParts : List ℕ → List ℕ × List ℕ → Type 0
AreParts xs (before, leaf) = (xs ≡ before ++ (b'/' ∷ leaf)) × All NotSlash leaf

split_last-none : (xs : List ℕ) → split_last xs ≡ none → All NotSlash xs
unfolding split_last
split_last-none [] h = tt
split_last-none (x ∷ xs) h = elim (Option-cases (split_last xs)) [
  | inl e ↦ (ground arith, split_last-none xs e)
  | inr (p, e) ↦ absurd (ground arith)
]

split_last-some : (xs : List ℕ) (q : List ℕ × List ℕ) → split_last xs ≡ some q → AreParts xs q
unfolding split_last
split_last-some [] q h = cc
split_last-some (x ∷ xs) q h = elim (Option-cases (split_last xs)) [
  | inl e ↦
      subst (λ r. AreParts (x ∷ xs) r) (some-injective {a = ([], xs)} {b = q} (ground arith))
        (ap (λ c. c ∷ xs) (ground arith), split_last-none xs e)
  | inr ((pre, l), e) ↦
      let (path, leaf) = split_last-some xs (pre, l) e in
      subst (λ r. AreParts (x ∷ xs) r) (some-injective {a = (x ∷ pre, l)} {b = q} (ground arith))
        (ap (λ ys. x ∷ ys) path, leaf)
]

-- What a split says of the path.
abbrev pub Splits : List ℕ → Option (List ℕ × List ℕ) → Type 0
Splits xs none = All NotSlash xs
Splits xs (some q) = AreParts xs q

-- A path is split at its last slash, and a path that is not split has none.
pub split_last-Splits : (xs : List ℕ) → Splits xs (split_last xs)
split_last-Splits xs = elim (Option-cases (split_last xs)) [
  | inl e ↦ rw e (split_last-none xs e)
  | inr (q, e) ↦ rw e (split_last-some xs q e)
]
