-- ===== src/FreeList/Volume.antt =====
-- The invariant that ties a writer handle to the stack of its free blocks.
use s5fs.Base.{
  ℕ, ◌+◌, ◌*◌, ◌≤◌, ◌<◌, ◌≡◌, ◌∙◌, ap, sym, ◌≢◌, Fresh, All-mono, Option, none, List, length, All,
  Distinct, ltb, if◌then◌else◌, arith,
}
use s5fs.Endian.{SameBytes, Buf}
use s5fs.Layout.{u32}
use s5fs.Image.{
  block, read_at_lem, write_at, size-write_at, block-write_self, block-write_ne, times_mono,
}
use s5fs.Writer.{Failure, S5Fs, rdblk, rdblk_ok, wtblk, wtblk_ok}
use s5fs.FreeList.Chain.{Chain}

-- The contents of the blocks of the file system.
abbrev pub blocks : S5Fs → ℕ → Buf
blocks fs = block fs.fd fs.base fs.prof.bsize

-- The number of a data block: behind the i-list, and inside the volume.
abbrev pub InData : S5Fs → ℕ → Type 0
InData fs x = (fs.s_isize ≤ x) × (x < fs.s_fsize)

-- No error so far, and the file holds the whole volume.
pub record Mounted (error : Option Failure) (bsize base isize fsize size : ℕ) : Type 0 where
  pub ok : error ≡ none
  pub large : 512 ≤ bsize
  pub fits : base + fsize * bsize ≤ size
  pub small : fsize ≤ 0x1000000
  pub low : 2 ≤ isize

abbrev pub IsMounted : S5Fs → Type 0
IsMounted fs = Mounted fs.error fs.prof.bsize fs.base fs.s_isize fs.s_fsize fs.fd.size

-- The free list of the handle holds the blocks of the list, in this order.
pub record IsVolume (fs : S5Fs) (xs : List ℕ) : Type 0 where
  pub mounted : IsMounted fs
  pub chain : Chain fs.bo (blocks fs) fs.s_nfree fs.s_free xs
  pub range : All (InData fs) xs
  pub distinct : Distinct xs
  pub counted : fs.s_tfree ≡ u32 (length xs)

pub block_fits :
    (fs : S5Fs) (x : ℕ)
    → IsMounted fs
    → x < fs.s_fsize
    → fs.base + x * fs.prof.bsize + fs.prof.bsize ≤ fs.fd.size
block_fits fs x m h =
    omega (arith, m.fits, times_mono (x + 1) fs.s_fsize fs.prof.bsize (omega arith))

pub rdblk_lem :
    (fs : S5Fs) (x : ℕ) (old : Buf)
    → IsMounted fs
    → x < fs.s_fsize
    → rdblk x old fs ≡ (λ i. if ltb i fs.prof.bsize then blocks fs x i else old i, fs)
rdblk_lem fs x old m h = rdblk_ok x old _ fs m.ok (
    rw same
      (read_at_lem fs.fd (fs.base + x * fs.prof.bsize) fs.prof.bsize old (block_fits fs x m h)))
  where
    same : u32 x ≡ x
    same = omega (arith, m.small)

-- The handle after a write of `buf` to block `x`.
abbrev pub written : S5Fs → ℕ → Buf → S5Fs
written fs x buf = record fs { fd = write_at fs.fd (fs.base + x * fs.prof.bsize) fs.prof.bsize buf }

pub wtblk_lem :
    (fs : S5Fs) (x : ℕ) (buf : Buf)
    → IsMounted fs
    → x < fs.s_fsize
    → wtblk x buf fs ≡ written fs x buf
wtblk_lem fs x buf m h = wtblk_ok x buf fs m.ok ∙ ap (λ k. written fs k buf) same
  where
    same : u32 x ≡ x
    same = omega (arith, m.small)

pub written-Mounted :
    (fs : S5Fs) (x : ℕ) (buf : Buf) → IsMounted fs → x < fs.s_fsize → IsMounted (written fs x buf)
written-Mounted fs x buf m h =
    rw (size-write_at fs.fd (fs.base + x * fs.prof.bsize) fs.prof.bsize buf (block_fits fs x m h)) m

-- A write changes no other block.
pub written_other :
    (fs : S5Fs) (x : ℕ) (buf : Buf) (y i : ℕ)
    → y ≢ x
    → i < fs.prof.bsize
    → blocks (written fs x buf) y i ≡ blocks fs y i
written_other fs x buf y i ne h =
    block-write_ne fs.fd fs.base fs.prof.bsize x y buf i h (λ e. ne (sym e))

pub written_self :
    (fs : S5Fs) (x : ℕ) (buf : Buf) (i : ℕ)
    → i < fs.prof.bsize
    → blocks (written fs x buf) x i ≡ buf i
written_self fs x buf i h = block-write_self fs.fd fs.base fs.prof.bsize x buf i h

-- The chain blocks of a list that lacks `x` are as before.
pub written_chain :
    (fs : S5Fs) (x : ℕ) (buf : Buf) (xs : List ℕ)
    → IsMounted fs
    → Fresh x xs
    → All (λ y. SameBytes (blocks (written fs x buf) y) (blocks fs y) 0 202) xs
written_chain fs x buf xs m fresh =
    All-mono xs
      (λ y ne j lo hi. written_other fs x buf y j (λ e. ne (sym e)) (omega (arith, m.large))) fresh
