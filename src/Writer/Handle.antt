-- ===== src/Writer/Handle.antt =====
-- S5FS, its sticky error, the inode's place in the i-list, and block I/O.
use s5fs.Base.{ℕ, ◌+◌, ◌-◌, ◌*◌, ◌/◌, ◌%◌, Bool, ◌&&◌, Option, none, some, ltb, leb, if◌then◌else◌}
use s5fs.Endian.{Buf, Endian}
use s5fs.Layout.{Profile, u32}
use s5fs.Image.{File, read_at, write_at}

-- The message that `fs->err` holds.
pub data Failure : Type 0 where
  read_error out_of_space indirect_full ilist_small bad_mode out_of_inodes too_large : Failure
  bad_order bad_bsize volume_large too_small bad_ratio bad_superblock too_many_inodes : Failure

-- `fd` is the open image. `uninit` is what an uninitialised buffer on the stack happens to hold.
-- `s_free` and `s_inode` are arrays of 50 and 100 entries; other indices are never looked at.
pub record S5Fs : Type 0 where
  pub fd : File
  pub uninit : Buf
  pub base : ℕ
  pub sysv : Bool
  pub error : Option Failure
  pub bo : Endian
  pub prof : Profile
  pub s_isize : ℕ
  pub s_fsize : ℕ
  pub s_nfree : ℕ
  pub s_free : ℕ → ℕ
  pub s_ninode : ℕ
  pub s_inode : ℕ → ℕ
  pub s_tfree : ℕ
  pub s_tinode : ℕ
  pub s_m : ℕ
  pub s_n : ℕ
  pub s_time : ℕ
  pub ino : ℕ
  pub adr : ℕ → ℕ

abbrev pub Op : Type 0 → Type 0
Op A = S5Fs → Option (A × S5Fs)

abbrev pub pure : {A : Type 0} → A → Op A
pure a fs = some (a, fs)

abbrev pub do_op : (S5Fs → S5Fs) → Op (Unit {0})
do_op f fs = some (tt, f fs)

infixl 5 ◌>>=◌ ◌>>◌
abbrev pub ◌>>=◌ : {A B : Type 0} → Op A → (A → Op B) → Op B
◌>>=◌ m f fs = elim (m fs) [ none ↦ none | some (a, fs') ↦ f a fs' ]

abbrev pub ◌>>◌ : {B : Type 0} → Op (Unit {0}) → Op B → Op B
m >> k = m >>= λ _. k

-- `s5fs_fail` keeps the first error.
unfoldable pub fail : Failure → S5Fs → S5Fs
fail e fs = elim (fs.error) [ none ↦ record fs { error = some e } | some _ ↦ fs ]

-- Inode `ino` stands in block `itod` of the i-list, `itoo` inodes from its beginning.
unfoldable pub itod : ℕ → ℕ → ℕ
itod inopb ino = u32 (ino + 2 * inopb - 1) / inopb

unfoldable pub itoo : ℕ → ℕ → ℕ
itoo inopb ino = u32 (ino + 2 * inopb - 1) % inopb

-- `s5fs_rdblk` into a buffer that holds `old`: what the buffer holds then, and the handle.
unfoldable pub rdblk : ℕ → Buf → S5Fs → Buf × S5Fs
unfolding fail
rdblk bno old fs = elim (fs.error) [
  | some _ ↦ (old, fs)
  | none ↦ elim (read_at fs.fd (fs.base + u32 bno * fs.prof.bsize) fs.prof.bsize old) [
    | none ↦ (old, fail read_error fs)
    | some buf ↦ (buf, fs)
  ]
]

-- `s5fs_wtblk`
unfoldable pub wtblk : ℕ → Buf → S5Fs → S5Fs
wtblk bno buf fs = elim (fs.error) [
  | some _ ↦ fs
  | none ↦ record fs { fd = write_at fs.fd (fs.base + u32 bno * fs.prof.bsize) fs.prof.bsize buf }
]

-- `memset(buf, 0, …)`
unfoldable pub zeros : Buf
zeros i = 0

-- `uint8_t *p = buf + off`: the bytes from `off` on, and the buffer with `n` of them put back.
unfoldable pub window : Buf → ℕ → Buf
window buf off i = buf (off + i)

unfoldable pub splice : Buf → ℕ → ℕ → Buf → Buf
splice buf off n p j = if leb off j && ltb j (off + n) then p (j - off) else buf j
