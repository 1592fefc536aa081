-- ===== src/Fields.antt =====
-- The runs of put16, put24 and put32 calls by which s5fs_core.c serialises a superblock and an
-- inode, as tables of fields.
--
-- One `Field` is one call, or a loop of calls over an array. The order of a table is the order of
-- the calls.
pub mod Laws
use s5fs.Base.{
  ℕ, zero, suc, ◌+◌, ◌*◌, ◌%◌, ◌^◌, Bool, true, false, ◌&&◌, ◌||◌, Option, none, some, List, [],
  ◌∷◌, leb, ◌==◌, if◌then◌else◌,
}
use s5fs.Endian.{Buf, Endian, put16, get16, put24, get24, put32, get32}

pub data Width : Type 0 where
  short triple long : Width

abbrev pub bytes : Width → ℕ
bytes short = 2
bytes triple = 3
bytes long = 4

abbrev pub mask : Width → ℕ → ℕ
mask short v = v % 2 ^ 16
mask triple v = v % 2 ^ 24
mask long v = v % 2 ^ 32

abbrev pub put : Width → Endian → Buf → ℕ → ℕ → Buf
put short = put16
put triple = put24
put long = put32

abbrev pub get : Width → Endian → Buf → ℕ → ℕ
get short = get16
get triple = get24
get long = get32

-- `for (i = 0; i < count; i++) put(b + at + bytes * i, values[i])`
pub record Field : Type 0 where
  pub width : Width
  pub at : ℕ
  pub count : ℕ
  pub values : ℕ → ℕ

abbrev pub field : Width → ℕ → ℕ → Field
field w o v = record { width = w; at = o; count = 1; values = λ i. v }

abbrev pub array : Width → ℕ → ℕ → (ℕ → ℕ) → Field
array w o n f = record { width = w; at = o; count = n; values = f }

unfoldable pub put_array : Width → Endian → Buf → ℕ → (ℕ → ℕ) → ℕ → Buf
put_array w e b o f zero = b
put_array w e b o f (suc n) = put w e (put_array w e b o f n) (o + bytes w * n) (f n)

unfoldable pub put_field : Endian → Buf → Field → Buf
put_field e b p = put_array p.width e b p.at p.values p.count

unfoldable pub put_fields : Endian → Buf → List Field → Buf
put_fields e b [] = b
put_fields e b (p ∷ ps) = put_fields e (put_field e b p) ps

-- No field of the table shares a byte with the `n` bytes from `o` on.
abbrev pub all_apart : List Field → ℕ → ℕ → Bool
all_apart [] o n = true
all_apart (p ∷ ps) o n =
    (leb (o + n) p.at || leb (p.at + bytes p.width * p.count) o) && all_apart ps o n

abbrev pub same_width : Width → Width → Bool
same_width short short = true
same_width triple triple = true
same_width long long = true
same_width _ _ = false

-- The field at offset `o`, if no later one overwrites it.
abbrev pub find : List Field → Width → ℕ → Option Field
find [] w o = none
find (p ∷ ps) w o =
    if p.at == o && (same_width p.width w && all_apart ps o (bytes w * p.count))
    then some p
    else find ps w o
