-- ===== src/Endian/Laws.antt =====
-- What a codec writes it reads back, and it touches no other byte.
use s5fs.Base.{ℕ, ◌+◌, ◌%◌, ◌^◌, ◌≤◌, ◌<◌, ◌≡◌, ◌⊎◌, arith}
use s5fs.Endian.Words.{Buf, Endian, pdp11, le, be, put16, get16, put24, get24, put32, get32}

-- The offset `j` lies outside the `n` bytes from `o` on.
abbrev pub Outside : ℕ → ℕ → ℕ → Type 0
Outside j o n = (j < o) ⊎ (o + n ≤ j)

-- In each byte order a 16-bit field that is put is read back, modulo 2 ^ 16.
pub get16-put16 : (e : Endian) (b : Buf) (o v : ℕ) → get16 e (put16 e b o v) o ≡ v % 2 ^ 16
unfolding get16 put16
get16-put16 pdp11 b o v = ground arith
get16-put16 le b o v = ground arith
get16-put16 be b o v = ground arith

-- In each byte order a packed 3-byte block address that is put is read back, modulo 2 ^ 24.
pub get24-put24 : (e : Endian) (b : Buf) (o v : ℕ) → get24 e (put24 e b o v) o ≡ v % 2 ^ 24
unfolding get24 put24
get24-put24 pdp11 b o v = ground arith
get24-put24 le b o v = ground arith
get24-put24 be b o v = ground arith

-- In each byte order a 32-bit field that is put is read back, modulo 2 ^ 32.
pub get32-put32 : (e : Endian) (b : Buf) (o v : ℕ) → get32 e (put32 e b o v) o ≡ v % 2 ^ 32
unfolding get32 put32
get32-put32 pdp11 b o v = ground arith
get32-put32 le b o v = ground arith
get32-put32 be b o v = ground arith

-- In each byte order, a number that put16, put24 or put32 writes reads back modulo 2 ^ 16, 2 ^ 24
-- or 2 ^ 32.
pub codecs_read_back :
    (e : Endian) (b : Buf) (o v : ℕ)
    → (get16 e (put16 e b o v) o ≡ v % 2 ^ 16)
      × (get24 e (put24 e b o v) o ≡ v % 2 ^ 24)
      × (get32 e (put32 e b o v) o ≡ v % 2 ^ 32)
codecs_read_back e b o v = (get16-put16 e b o v, get24-put24 e b o v, get32-put32 e b o v)

pub put16-Outside : (e : Endian) (b : Buf) (o v j : ℕ) → Outside j o 2 → put16 e b o v j ≡ b j
unfolding put16
put16-Outside pdp11 b o v j h = ground arith
put16-Outside le b o v j h = ground arith
put16-Outside be b o v j h = ground arith

pub put24-Outside : (e : Endian) (b : Buf) (o v j : ℕ) → Outside j o 3 → put24 e b o v j ≡ b j
unfolding put24
put24-Outside pdp11 b o v j h = ground arith
put24-Outside le b o v j h = ground arith
put24-Outside be b o v j h = ground arith

pub put32-Outside : (e : Endian) (b : Buf) (o v j : ℕ) → Outside j o 4 → put32 e b o v j ≡ b j
unfolding put32
put32-Outside pdp11 b o v j h = ground arith
put32-Outside le b o v j h = ground arith
put32-Outside be b o v j h = ground arith

-- The two buffers hold the same `n` bytes from `o` on.
abbrev pub SameBytes : Buf → Buf → ℕ → ℕ → Type 0
SameBytes b c o n = (j : ℕ) → o ≤ j → j < o + n → b j ≡ c j

pub get16_same : (e : Endian) (b c : Buf) (o : ℕ) → SameBytes b c o 2 → get16 e b o ≡ get16 e c o
unfolding get16
get16_same pdp11 b c o h = ground (arith, h o, h (o + 1))
get16_same le b c o h = ground (arith, h o, h (o + 1))
get16_same be b c o h = ground (arith, h o, h (o + 1))

pub get24_same : (e : Endian) (b c : Buf) (o : ℕ) → SameBytes b c o 3 → get24 e b o ≡ get24 e c o
unfolding get24
get24_same pdp11 b c o h = ground (arith, h o, h (o + 1), h (o + 2))
get24_same le b c o h = ground (arith, h o, h (o + 1), h (o + 2))
get24_same be b c o h = ground (arith, h o, h (o + 1), h (o + 2))

pub get32_same : (e : Endian) (b c : Buf) (o : ℕ) → SameBytes b c o 4 → get32 e b o ≡ get32 e c o
unfolding get32
get32_same pdp11 b c o h = ground (arith, h o, h (o + 1), h (o + 2), h (o + 3))
get32_same le b c o h = ground (arith, h o, h (o + 1), h (o + 2), h (o + 3))
get32_same be b c o h = ground (arith, h o, h (o + 1), h (o + 2), h (o + 3))
