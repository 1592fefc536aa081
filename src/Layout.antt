-- ===== src/Layout.antt =====
-- pdp11fs.h: the structural constants of the on-disk format, and the block-size profile that
-- s5fs_begin, s5fs_mount and fsr_open derive from the block size.
use s5fs.Base.{◌≡◌, true, ℕ, ◌+◌, ◌-◌, ◌*◌, ◌/◌, ◌%◌, ◌^◌, Bool, ◌||◌, ◌==◌, ltb, if◌then◌else◌}

abbrev pub nicfree : ℕ
nicfree = 50

abbrev pub nicinod : ℕ
nicinod = 100

abbrev pub dirsiz : ℕ
dirsiz = 14

abbrev pub direntsz : ℕ
direntsz = 16

abbrev pub dinodesz : ℕ
dinodesz = 64

abbrev pub maxfn : ℕ
maxfn = 500

abbrev pub maxino : ℕ
maxino = 65535

abbrev pub maxfsblks : ℕ
maxfsblks = 2 ^ 24

abbrev pub superblk : ℕ
superblk = 1

abbrev pub iliststart : ℕ
iliststart = 2

abbrev pub badblkino : ℕ
badblkino = 1

abbrev pub rootino : ℕ
rootino = 2

-- A value of uint32_t; an int32_t is kept as its bit pattern.
abbrev pub u32 : ℕ → ℕ
u32 n = n % 2 ^ 32

abbrev pub u16 : ℕ → ℕ
u16 n = n % 2 ^ 16

-- `(int32_t)(int16_t)w` as a bit pattern: the sign bit is copied upwards.
abbrev pub sign_extend : ℕ → ℕ
sign_extend w = if ltb w 0x8000 then w else w + 0xffff0000

-- P11_CLAMP_NFREE of `(int16_t)w`: a negative count becomes 0, one above the array its length.
unfoldable pub clamp_nfree : ℕ → ℕ
clamp_nfree w = if ltb w 0x8000 then (if ltb nicfree w then nicfree else w) else 0

-- P11_BSIZE_OK
unfoldable pub bsize_ok : ℕ → Bool
bsize_ok b = b == 512 || (b == 1024 || b == 2048)

-- P11_FS_TYPE
unfoldable pub fs_type : ℕ → ℕ
fs_type b = if b == 512 then 1 else if b == 1024 then 2 else 3

-- P11_LEVEL_CAP, products of uint32_t.
unfoldable pub level_cap : ℕ → ℕ → ℕ
level_cap nindir l =
    if l == 1
    then nindir
    else if l == 2
    then u32 (nindir * nindir)
    else u32 (u32 (nindir * nindir) * nindir)

pub record Profile : Type 0 where
  pub bsize : ℕ
  pub inopb : ℕ
  pub naddr : ℕ
  pub laddr : ℕ
  pub nindir : ℕ
  pub ndirect : ℕ
  pub clsize : ℕ

unfoldable pub profile : ℕ → Profile
profile b = record {
  bsize = b;
  inopb = b / dinodesz;
  naddr = if b == 1024 then 7 else 13;
  laddr = (if b == 1024 then 7 else 13) - 3;
  nindir = b / 4;
  ndirect = b / direntsz;
  clsize = b / 512;
}

-- Byte offsets of the superblock.
abbrev pub sb_isize : ℕ
sb_isize = 0

abbrev pub sb_fsize : ℕ
sb_fsize = 2

abbrev pub sb_nfree : ℕ
sb_nfree = 6

abbrev pub sb_free : ℕ
sb_free = 8

abbrev pub sb_ninode : ℕ
sb_ninode = 208

abbrev pub sb_inode : ℕ
sb_inode = 210

abbrev pub sb_time : ℕ
sb_time = 414

abbrev pub sb_tfree : ℕ
sb_tfree = 418

abbrev pub sb_tinode : ℕ
sb_tinode = 422

abbrev pub sb_dinfo : ℕ
sb_dinfo = 424

-- The System V dialect moves the totals and adds its tail.
abbrev pub sb_svdinfo : ℕ
sb_svdinfo = 418

abbrev pub sb_svtfree : ℕ
sb_svtfree = 426

abbrev pub sb_svtinode : ℕ
sb_svtinode = 430

abbrev pub sb_state : ℕ
sb_state = 500

abbrev pub sb_magic : ℕ
sb_magic = 504

abbrev pub sb_type : ℕ
sb_type = 508

abbrev pub fs_magic : ℕ
fs_magic = 0xfd187e20

abbrev pub fs_clean : ℕ
fs_clean = 0x7c269d38

-- Byte offsets of a free-list block.
abbrev pub fb_nfree : ℕ
fb_nfree = 0

abbrev pub fb_free : ℕ
fb_free = 2

-- Byte offsets within an on-disk inode.
abbrev pub di_mode : ℕ
di_mode = 0

abbrev pub di_nlink : ℕ
di_nlink = 2

abbrev pub di_uid : ℕ
di_uid = 4

abbrev pub di_gid : ℕ
di_gid = 6

abbrev pub di_size : ℕ
di_size = 8

abbrev pub di_addr : ℕ
di_addr = 12

abbrev pub di_atime : ℕ
di_atime = 52

abbrev pub di_mtime : ℕ
di_mtime = 56

abbrev pub di_ctime : ℕ
di_ctime = 60

-- File types of a mode word, and its mask: `m & P11_IFMT` of a 16-bit word, `p & 07777`.
abbrev pub ifmt : ℕ → ℕ
ifmt m = m / 4096 * 4096

abbrev pub perm_bits : ℕ → ℕ
perm_bits p = p % 4096

abbrev pub ifdir : ℕ
ifdir = 0o040000

abbrev pub ifchr : ℕ
ifchr = 0o020000

abbrev pub ifblk : ℕ
ifblk = 0o060000

abbrev pub ifreg : ℕ
ifreg = 0o100000

abbrev pub isvtx : ℕ
isvtx = 0o001000

-- The profile of one of the three block sizes.
pub record IsProfile (p : Profile) : Type 0 where
  pub size : bsize_ok p.bsize ≡ true
  pub derived : p ≡ profile p.bsize
