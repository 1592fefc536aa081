-- ===== src/Base/Text.antt =====
-- Texts as lists of bytes, without the NUL at their end, and the functions of <string.h>,
-- <strings.h>, <ctype.h> and <stdlib.h> that the program calls on them, in the C locale.
use Prim.Native.Nat.{ℕ, ◌+◌, ◌-◌, ◌*◌, ◌^◌, ◌%◌}
use Prim.Native.Char.{code}
use Prim.Native.String.{String}
use mathlib.Core.Bool.{Bool, true, false, not, ◌&&◌, ◌||◌}
use mathlib.Core.Option.{Option, none, some}
use mathlib.Core.List.{List, [], ◌∷◌, ◌++◌}
use s5fs.Base.Tests.{ltb, leb, ◌==◌, if◌then◌else◌}

-- The bytes of a text of ASCII characters.
abbrev pub codes : String → List ℕ
codes String.[] = []
codes (String.◌∷◌ c s) = code c ∷ codes s

-- `tolower`
abbrev pub lower : ℕ → ℕ
lower c = if leb b'A' c && leb c b'Z' then c + 32 else c

-- `strcasecmp(a, b) == 0`
unfoldable pub same_caseless : List ℕ → List ℕ → Bool
same_caseless [] [] = true
same_caseless [] (y ∷ ys) = false
same_caseless (x ∷ xs) [] = false
same_caseless (x ∷ xs) (y ∷ ys) = lower x == lower y && same_caseless xs ys

-- `strncmp(s, prefix, strlen(prefix)) == 0`
unfoldable pub has_prefix : List ℕ → List ℕ → Bool
has_prefix [] s = true
has_prefix (x ∷ xs) [] = false
has_prefix (x ∷ xs) (y ∷ ys) = x == y && has_prefix xs ys

-- `isspace`
abbrev pub is_space : ℕ → Bool
is_space c = c == 32 || (leb 9 c && leb c 13)

-- `strchr(s, c)`: what stands before the first `c`, and behind it.
unfoldable pub split_at : ℕ → List ℕ → Option (List ℕ × List ℕ)
split_at c [] = none
split_at c (x ∷ xs) =
    let rest : Option (List ℕ × List ℕ) = split_at c xs in
    if x == c then some ([], xs) else elim rest [ none ↦ none | some (a, b) ↦ some (x ∷ a, b) ]

unfoldable pub skip_space : List ℕ → List ℕ
skip_space [] = []
skip_space (x ∷ xs) = let rest = skip_space xs in if is_space x then rest else x ∷ xs

-- The text less the white space at its end.
unfoldable pub drop_space : List ℕ → List ℕ
drop_space [] = []
drop_space (x ∷ xs) = elim (drop_space xs) [
  | [] ↦ if is_space x then [] else x ∷ []
  | y ∷ ys ↦ x ∷ y ∷ ys
]

-- The text up to the first white space.
unfoldable pub first_word : List ℕ → List ℕ
first_word [] = []
first_word (x ∷ xs) = let rest = first_word xs in if is_space x then [] else x ∷ rest

-- The value of a digit, 99 for none.
abbrev pub digit : ℕ → ℕ
digit c =
    if leb b'0' c && leb c b'9'
    then c - b'0'
    else if leb b'a' (lower c) && leb (lower c) b'z'
    then lower c - b'a' + 10
    else 99

-- The digits of a base at the beginning of a text, behind the number `n`: whether there are any,
-- the number, and the rest.
unfoldable pub read_digits : ℕ → Bool → ℕ → List ℕ → Bool × ℕ × List ℕ
read_digits base any n [] = (any, n, [])
read_digits base any n (x ∷ xs) =
    let rest = read_digits base true (n * base + digit x) xs in
    if ltb (digit x) base then rest else (any, n, x ∷ xs)

-- What strtoul gives: the number, whether it is out of the range of 64 bits, whether there was one,
-- and the rest.
pub record Number : Type 0 where
  pub value : ℕ
  pub overflow : Bool
  pub found : Bool
  pub rest : List ℕ

-- The number of a run of digits that may have a minus sign; without digits the whole text is left.
abbrev number : List ℕ → Bool → Bool × ℕ × List ℕ → Number
number s minus (any, n, rest) =
    let over : Bool = leb (2 ^ 64) n in
    let v : ℕ = if over then 2 ^ 64 - 1 else if minus then (2 ^ 64 - n) % 2 ^ 64 else n in
    if any
    then record { value = v; overflow = over; found = true; rest = rest }
    else record { value = 0; overflow = false; found = false; rest = s }

abbrev signed : List ℕ → Bool × List ℕ
signed [] = (false, [])
signed (x ∷ xs) =
    if x == b'-' then (true, xs) else if x == b'+' then (false, xs) else (false, x ∷ xs)

-- The base of a number by its prefix, and the digits: `0x` counts where a digit follows.
abbrev based : List ℕ → Bool × ℕ × List ℕ
based [] = read_digits 10 false 0 []
based (x ∷ []) = read_digits 10 false 0 (x ∷ [])
based (x ∷ y ∷ zs) =
    let hex = read_digits 16 false 0 zs in
    if not (x == b'0')
    then read_digits 10 false 0 (x ∷ y ∷ zs)
    else if lower y == b'x' && hex.0
    then hex
    else read_digits 8 false 0 (x ∷ y ∷ zs)

-- `strtoul(s, &rest, 0)`, and `strtoul(s, &rest, 10)`.
unfoldable pub strtoul : List ℕ → Number
strtoul s = let (minus, t) = signed (skip_space s) in number s minus (based t)

unfoldable pub strtoul_10 : List ℕ → Number
strtoul_10 s = let (minus, t) = signed (skip_space s) in number s minus (read_digits 10 false 0 t)

-- The runs of bytes between separators, as strtok_r gives them; `cur` is the run so far.
abbrev emit_word : List ℕ → List (List ℕ) → List (List ℕ)
emit_word [] ts = ts
emit_word (c ∷ cs) ts = (c ∷ cs) ∷ ts

unfoldable pub words : (ℕ → Bool) → List ℕ → List ℕ → List (List ℕ)
words sep cur [] = emit_word cur []
words sep cur (x ∷ xs) =
    let cut : List (List ℕ) = emit_word cur (words sep [] xs) in
    let more : List (List ℕ) = words sep (cur ++ (x ∷ [])) xs in if sep x then cut else more
