-- ===== src/Reader/Tokens.antt =====
-- The components of a path are not empty and have no slash in them.
use s5fs.Base.{ℕ, ◌≢◌, List, [], ◌∷◌, ◌++◌, arith, ℕ_discrete, All}
use s5fs.Reader.{tokens, emit}

abbrev pub NotSlash : ℕ → Type 0
NotSlash c = c ≢ b'/'

-- A name as it may stand between two slashes.
abbrev pub IsName : List ℕ → Type 0
IsName t = (t ≢ []) × All NotSlash t

emit-IsName :
    (cur : List ℕ) (ts : List (List ℕ))
    → All NotSlash cur
    → All IsName ts
    → All IsName (emit cur ts)
emit-IsName [] ts c h = h
emit-IsName (x ∷ xs) ts c h = ((λ e. cc, c), h)

All-snoc : (xs : List ℕ) (x : ℕ) → All NotSlash xs → NotSlash x → All NotSlash (xs ++ (x ∷ []))
All-snoc [] x h p = (p, tt)
All-snoc (y ∷ ys) x h p = (h.0, All-snoc ys x h.1 p)

tokens-names : (cur xs : List ℕ) → All NotSlash cur → All IsName (tokens cur xs)
unfolding tokens
tokens-names cur [] c = emit-IsName cur [] c tt
tokens-names cur (x ∷ xs) c = elim (ℕ_discrete x b'/') [
  | yes p ↦ ground (arith, emit-IsName cur (tokens [] xs) c (tokens-names [] xs tt))
  | no p ↦ ground (arith, tokens-names (cur ++ (x ∷ [])) xs (All-snoc cur x c p))
]

-- Each component of a path has a byte, and has no slash.
pub tokens-IsName : (path : List ℕ) → All IsName (tokens [] path)
tokens-IsName path = tokens-names [] path tt
