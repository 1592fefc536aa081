-- ===== src/Image/Laws.antt =====
-- A block that was written reads back, and every other block is as before.
use s5fs.Base.{
  ℕ, ◌+◌, ◌*◌, ◌≤◌, ◌<◌, ◌≡◌, ◌≢◌, ◌⊎◌, inl, inr, some, ltb, if◌then◌else◌, ◌-◌, ap, dec_lt, arith,
}
use s5fs.Endian.{Buf}
use s5fs.Image.Bytes.{File, read_at, write_at, block}

pub times_mono : (a b n : ℕ) → a ≤ b → a * n ≤ b * n
times_mono a b n h = grind arith

-- Two different blocks of `bsize` bytes do not overlap.
pub blocks_apart :
    (x y bsize : ℕ) → x ≢ y → (x * bsize + bsize ≤ y * bsize) ⊎ (y * bsize + bsize ≤ x * bsize)
blocks_apart x y bsize ne = elim (dec_lt x y) [
  | yes p ↦ inl (omega (arith, times_mono (x + 1) y bsize (omega arith)))
  | no p ↦ inr (omega (arith, times_mono (y + 1) x bsize (omega arith)))
]

pub block-write_self :
    (f : File) (base bsize x : ℕ) (b : Buf) (i : ℕ)
    → i < bsize
    → block (write_at f (base + x * bsize) bsize b) base bsize x i ≡ b i
unfolding write_at
block-write_self f base bsize x b i h =
    let at : base + x * bsize + i - (base + x * bsize) ≡ i = omega arith in ground (arith, ap b at)

pub block-write_ne :
    (f : File) (base bsize x y : ℕ) (b : Buf) (i : ℕ)
    → i < bsize
    → x ≢ y
    → block (write_at f (base + x * bsize) bsize b) base bsize y i ≡ block f base bsize y i
unfolding write_at
block-write_ne f base bsize x y b i h ne = ground (arith, blocks_apart x y bsize ne)

pub size-write_at :
    (f : File) (off n : ℕ) (b : Buf) → off + n ≤ f.size → (write_at f off n b).size ≡ f.size
unfolding write_at
size-write_at f off n b h = omega arith

pub read_at_lem :
    (f : File) (off n : ℕ) (old : Buf)
    → off + n ≤ f.size
    → read_at f off n old ≡ some (λ i. if ltb i n then f.byte (off + i) else old i)
unfolding read_at
read_at_lem f off n old h = ground arith
