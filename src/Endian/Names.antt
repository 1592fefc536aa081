-- ===== src/Endian/Names.antt =====
-- The names of the byte orders: s5_endian_name and s5_endian_parse of s5endian.c.
use s5fs.Base.{
  ℕ, ◌≡◌, refl, Bool, ◌||◌, Option, none, some, List, if◌then◌else◌, codes, same_caseless,
}
use Prim.Native.String.{String}
use s5fs.Endian.Words.{be, le, pdp11, Endian}

-- A number that is no byte order, for which the source answers "?", is no value of the type.
unfoldable pub endian_name : Endian → List ℕ
endian_name pdp11 = codes "pdp11"
endian_name le = codes "le"
endian_name be = codes "be"

-- `none` is S5_NENDIAN, and for the argument NULL.
unfoldable pub endian_parse : Option (List ℕ) → Option Endian
endian_parse none = none
endian_parse (some s) =
    let is : String → Bool = λ w. same_caseless s (codes w) in
    if is "pdp11" || (is "pdp" || is "pdp-11")
    then some pdp11
    else if is "le" || (is "little" || (is "vax" || (is "x86" || is "i386")))
    then some le
    else if is "be" || (is "big" || (is "m68k" || (is "68k" || (is "mc68000" || is "sun"))))
    then some be
    else none

-- The name of each byte order is read back as this byte order.
pub endian_parse-endian_name : (e : Endian) → endian_parse (some (endian_name e)) ≡ some e
unfolding endian_parse endian_name same_caseless
endian_parse-endian_name pdp11 = refl
endian_parse-endian_name le = refl
endian_parse-endian_name be = refl
