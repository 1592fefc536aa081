-- ===== src/Endian/Words.antt =====
-- The put and get functions of s5endian.c, one clause for each byte order.
use s5fs.Base.{ℕ, ◌+◌, ◌*◌, ◌/◌, ◌%◌, ◌==◌, if◌then◌else◌}

abbrev pub Buf : Type 0
Buf = ℕ → ℕ

-- `s5_endian`; S5_NENDIAN is no byte order of a filesystem.
pub data Endian : Type 0 where
  pdp11 le be : Endian

-- `b[i] = (uint8_t)v`
abbrev pub set_byte : Buf → ℕ → ℕ → Buf
set_byte b i v j = if j == i then v % 256 else b j

unfoldable pub put16 : Endian → Buf → ℕ → ℕ → Buf
put16 pdp11 b o v = set_byte (set_byte b o v) (o + 1) (v / 256)
put16 le b o v = set_byte (set_byte b o v) (o + 1) (v / 256)
put16 be b o v = set_byte (set_byte b o (v / 256)) (o + 1) v

unfoldable pub get16 : Endian → Buf → ℕ → ℕ
get16 pdp11 b o = b o + b (o + 1) * 256
get16 le b o = b o + b (o + 1) * 256
get16 be b o = b o * 256 + b (o + 1)

unfoldable pub put24 : Endian → Buf → ℕ → ℕ → Buf
put24 pdp11 b o v = set_byte (set_byte (set_byte b o (v / 0x10000)) (o + 1) v) (o + 2) (v / 256)
put24 le b o v = set_byte (set_byte (set_byte b o v) (o + 1) (v / 256)) (o + 2) (v / 0x10000)
put24 be b o v = set_byte (set_byte (set_byte b o (v / 0x10000)) (o + 1) (v / 256)) (o + 2) v

unfoldable pub get24 : Endian → Buf → ℕ → ℕ
get24 pdp11 b o = b o * 0x10000 + b (o + 2) * 256 + b (o + 1)
get24 le b o = b o + b (o + 1) * 256 + b (o + 2) * 0x10000
get24 be b o = b o * 0x10000 + b (o + 1) * 256 + b (o + 2)

unfoldable pub put32 : Endian → Buf → ℕ → ℕ → Buf
put32 pdp11 b o v =
    set_byte (set_byte (set_byte (set_byte b o (v / 0x10000)) (o + 1) (v / 0x1000000)) (o + 2) v)
      (o + 3) (v / 256)
put32 le b o v =
    set_byte (set_byte (set_byte (set_byte b o v) (o + 1) (v / 256)) (o + 2) (v / 0x10000)) (o + 3)
      (v / 0x1000000)
put32 be b o v =
    set_byte
      (set_byte (set_byte (set_byte b o (v / 0x1000000)) (o + 1) (v / 0x10000)) (o + 2) (v / 256))
      (o + 3) v

unfoldable pub get32 : Endian → Buf → ℕ → ℕ
get32 pdp11 b o = b (o + 1) * 0x1000000 + b o * 0x10000 + b (o + 3) * 256 + b (o + 2)
get32 le b o = b o + b (o + 1) * 256 + b (o + 2) * 0x10000 + b (o + 3) * 0x1000000
get32 be b o = b o * 0x1000000 + b (o + 1) * 0x10000 + b (o + 2) * 256 + b (o + 3)
