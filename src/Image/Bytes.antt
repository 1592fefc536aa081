-- ===== src/Image/Bytes.antt =====
-- A file as read(2) and write(2) at an offset see it.
use Prim.Native.Nat.{max}
use s5fs.Base.{ℕ, ◌+◌, ◌-◌, ◌*◌, ◌&&◌, Option, none, some, ltb, leb, if◌then◌else◌}
use s5fs.Endian.{Buf}

pub record File : Type 0 where
  pub size : ℕ
  pub byte : ℕ → ℕ

-- `lseek` and `read` of `n` bytes into `old`: all `n` of them, or the call is an error.
unfoldable pub read_at : File → ℕ → ℕ → Buf → Option Buf
read_at f off n old =
    if leb (off + n) f.size then some (λ i. if ltb i n then f.byte (off + i) else old i) else none

-- `lseek` and `write` of `n` bytes.
unfoldable pub write_at : File → ℕ → ℕ → Buf → File
write_at f off n b = record {
  size = max f.size (off + n);
  byte = λ j. if leb off j && ltb j (off + n) then b (j - off) else f.byte j;
}

-- The bytes from the beginning of block `bno` on.
abbrev pub block : File → ℕ → ℕ → ℕ → Buf
block f base bsize bno i = f.byte (base + bno * bsize + i)
