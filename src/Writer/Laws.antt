-- ===== src/Writer/Laws.antt =====
-- Block I/O of a handle with no error.
use s5fs.Base.{ℕ, ◌+◌, ◌*◌, ◌≡◌, none, some, arith}
use s5fs.Endian.{Buf}
use s5fs.Layout.{u32}
use s5fs.Image.{read_at, write_at}
use s5fs.Writer.Handle.{S5Fs, rdblk, wtblk}

pub rdblk_ok :
    (bno : ℕ) (old buf : Buf) (fs : S5Fs)
    → fs.error ≡ none
    → read_at fs.fd (fs.base + u32 bno * fs.prof.bsize) fs.prof.bsize old ≡ some buf
    → rdblk bno old fs ≡ (buf, fs)
unfolding rdblk
rdblk_ok bno old buf fs ok h = ground arith

pub wtblk_ok :
    (bno : ℕ) (buf : Buf) (fs : S5Fs)
    → fs.error ≡ none
    → wtblk bno buf fs
      ≡ record fs { fd = write_at fs.fd (fs.base + u32 bno * fs.prof.bsize) fs.prof.bsize buf }
unfolding wtblk
wtblk_ok bno buf fs ok = ground arith
