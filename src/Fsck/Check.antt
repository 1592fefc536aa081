-- ===== src/Fsck/Check.antt =====
-- The block checker of cmd_fsck.c: CK, mark, mark_indirect, read_inode, good_mode, and the phases of
-- fsck_run that count the references to each block.
--
-- `none` is the end of the process: a read error, which calls exit. `malloc` succeeds. The messages
-- on the error stream are left out; each that the code counts adds one to `errors`.
use s5fs.Base.{
  ℕ, zero, suc, ◌+◌, ◌-◌, ◌*◌, ◌/◌, ◌%◌, Bool, false, not, ◌&&◌, ◌||◌, Option, none, some, ltb, leb,
  ◌==◌, if◌then◌else◌,
}
use s5fs.Layout.{
  dinodesz, u32, clamp_nfree, Profile, sb_isize, sb_fsize, sb_nfree, sb_tfree, sb_tinode,
  sb_svtfree, sb_svtinode, sb_magic, fs_magic, ifmt, ifdir, ifchr, ifblk, ifreg,
}
use s5fs.Endian.{Buf, Endian, get16, get32}
use s5fs.Image.{File, read_at, write_at}
use s5fs.Writer.{itod, itoo, zeros, window}
use s5fs.Inode.{Inode, decode_inode}

-- CK; `ninode`, which nothing reads, is left out. `use` counts the references to a block in its low
-- seven bits; the bit 0x80 says that the block is free.
pub record Ck : Type 0 where
  pub fd : File
  pub base : ℕ
  pub bo : Endian
  pub prof : Profile
  pub isize : ℕ
  pub fsize : ℕ
  pub nfree : ℕ
  pub tfree : ℕ
  pub tinode : ℕ
  pub use_map : ℕ → ℕ
  pub errors : ℕ

-- `c->use[b] & 0x7f`, and `c->use[b] & 0x80`.
abbrev pub refs : Ck → ℕ → ℕ
refs c b = c.use_map b % 128

abbrev pub is_free : Ck → ℕ → Bool
is_free c b = not (c.use_map b / 128 % 2 == 0)

abbrev pub set_use : ℕ → ℕ → Ck → Ck
set_use b v c = record c { use_map = λ i. if i == b then v else c.use_map i }

abbrev pub error : Ck → Ck
error c = record c { errors = c.errors + 1 }

unfoldable pub ck_rdblk : Ck → ℕ → Option Buf
ck_rdblk c bno = read_at c.fd (c.base + u32 bno * c.prof.bsize) c.prof.bsize zeros

unfoldable pub ck_wtblk : ℕ → Buf → Ck → Ck
ck_wtblk bno buf c = record c {
  fd = write_at c.fd (c.base + u32 bno * c.prof.bsize) c.prof.bsize buf;
}

-- `bno < c->isize || bno >= c->fsize`
abbrev pub out_of_range : Ck → ℕ → Bool
out_of_range c bno = ltb bno c.isize || leb c.fsize bno

unfoldable pub mark : ℕ → Ck → Ck
mark bno c =
    if bno == 0
    then c
    else if out_of_range c bno
    then error c
    else if refs c bno == 0
    then set_use bno (c.use_map bno + 1) c
    else error (if ltb (refs c bno) 127 then set_use bno (c.use_map bno + 1) c else c)

-- A marking function at the entries `f e`, `n` of them from `e` on.
unfoldable pub mark_entries : (ℕ → Ck → Option Ck) → (ℕ → ℕ) → ℕ → ℕ → Ck → Option Ck
mark_entries g f zero e c = some c
mark_entries g f (suc n) e c = elim (g (f e) c) [
  | none ↦ none
  | some c' ↦ mark_entries g f n (e + 1) c'
]

-- Level 0 is a data block.
unfoldable pub mark_indirect : ℕ → ℕ → Ck → Option Ck
mark_indirect zero bno c = some (mark bno c)
mark_indirect (suc l) bno c =
    if bno == 0
    then some c
    else if out_of_range c bno
    then some (mark bno c)
    else elim (ck_rdblk c bno) [
      | none ↦ none
      | some buf ↦
          mark_entries (mark_indirect l) (λ e. get32 c.bo buf (4 * e)) c.prof.nindir 0 (mark bno c)
    ]

-- `none` ends the process; `some none` is the return value -1.
unfoldable pub read_inode : Ck → ℕ → Option (Option Inode)
unfolding itod itoo window
read_inode c ino =
    let blk : ℕ = itod c.prof.inopb ino in
    if leb c.isize blk then some none else elim (ck_rdblk c blk) [
      | none ↦ none
      | some buf ↦
          some (some (decode_inode c.bo ino (window buf (itoo c.prof.inopb ino * dinodesz))))
    ]

unfoldable pub good_mode : ℕ → Bool
good_mode mode =
    ifmt mode == ifreg || (ifmt mode == ifdir || (ifmt mode == ifchr || ifmt mode == ifblk))

-- The locals of fsck_run that the scan of the inodes fills.
pub record Tables : Type 0 where
  pub files : ℕ
  pub dnlink : ℕ → ℕ
  pub isdir : ℕ → Bool
  pub allocated : ℕ → Bool

abbrev pub empty_tables : Tables
empty_tables = record { files = 0; dnlink = λ i. 0; isdir = λ i. false; allocated = λ i. false }

-- An inode whose mode is not 0 enters the tables.
unfoldable pub enter : Inode → Tables → Tables
enter i t = record {
  files = t.files + 1;
  dnlink = λ k. if k == i.number then i.nlink else t.dnlink k;
  isdir = λ k. if k == i.number then ifmt i.mode == ifdir || t.isdir k else t.isdir k;
  allocated = λ k. k == i.number || t.allocated k;
}

-- The block tree of a regular file or a directory.
unfoldable pub mark_tree : Inode → Ck → Option Ck
mark_tree i c = elim (mark_entries (mark_indirect 0) i.addr c.prof.laddr 0 c) [
  | none ↦ none
  | some c1 ↦ elim (mark_indirect 1 (i.addr c.prof.laddr) c1) [
    | none ↦ none
    | some c2 ↦ elim (mark_indirect 2 (i.addr (c.prof.laddr + 1)) c2) [
      | none ↦ none
      | some c3 ↦ mark_indirect 3 (i.addr (c.prof.laddr + 2)) c3
    ]
  ]
]

-- The checks that are asked for: CHK_BLOCKS and CHK_LINKS.
pub record Checks : Type 0 where
  pub blocks : Bool
  pub links : Bool

unfoldable pub scan_inode : Checks → Inode → Ck → Option Ck
scan_inode k i c =
    let c1 : Ck = if k.links && not (good_mode i.mode) then error c else c in
    if k.blocks && (ifmt i.mode == ifreg || ifmt i.mode == ifdir) then mark_tree i c1 else some c1

-- The inodes from `ino` on, `n` of them.
unfoldable pub scan_inodes : Checks → ℕ → ℕ → Ck → Tables → Option (Ck × Tables)
scan_inodes k zero ino c t = some (c, t)
scan_inodes k (suc n) ino c t = elim (read_inode c ino) [
  | none ↦ none
  | some none ↦ some (c, t)
  | some (some i) ↦
      let skip : Option (Ck × Tables) = scan_inodes k n (ino + 1) c t in
      let on : Option (Ck × Tables) = elim (scan_inode k i c) [
        | none ↦ none
        | some c' ↦ scan_inodes k n (ino + 1) c' (enter i t)
      ] in
      if i.mode == 0 then skip else on
]

-- The dialect of a superblock, and where each dialect keeps the totals.
abbrev pub is_sysv : Endian → Buf → Bool
is_sysv e sb = get32 e sb sb_magic == fs_magic

abbrev pub tfree_off : Bool → ℕ
tfree_off sysv = if sysv then sb_svtfree else sb_tfree

abbrev pub tinode_off : Bool → ℕ
tinode_off sysv = if sysv then sb_svtinode else sb_tinode

-- What fsck_run takes from the superblock.
unfoldable pub load_super : Buf → Ck → Ck
unfolding clamp_nfree
load_super sb c = record c {
  isize = get16 c.bo sb sb_isize;
  fsize = get32 c.bo sb sb_fsize;
  nfree = clamp_nfree (get16 c.bo sb sb_nfree);
  tfree = get32 c.bo sb (tfree_off (is_sysv c.bo sb));
  tinode = get16 c.bo sb (tinode_off (is_sysv c.bo sb));
}

-- The counts of phase 3.
pub record Counts : Type 0 where
  pub used : ℕ
  pub free : ℕ
  pub both : ℕ
  pub missing : ℕ

abbrev count_if : Bool → ℕ → ℕ
count_if b n = if b then n + 1 else n

-- The data blocks from `i` on, `n` of them.
unfoldable pub count_blocks : Ck → ℕ → ℕ → Counts
count_blocks c zero i = record { used = 0; free = 0; both = 0; missing = 0 }
count_blocks c (suc n) i =
    let rest : Counts = count_blocks c n (i + 1) in
    let u : Bool = not (refs c i == 0) in
    record {
      used = count_if u rest.used;
      free = count_if (is_free c i) rest.free;
      both = count_if (u && is_free c i) rest.both;
      missing = count_if (not u && not (is_free c i)) rest.missing;
    }

unfoldable pub check_partition : Ck → Ck
check_partition c =
    let counts : Counts = count_blocks c (c.fsize - c.isize) c.isize in
    let c1 : Ck = if counts.missing == 0 then c else error c in
    if counts.both == 0 then c1 else error c1
