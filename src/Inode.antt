-- ===== src/Inode.antt =====
-- Inodes between the i-list and memory: s5fs_writeinode, s5fs_bumplink and s5fs_ialloc of
-- s5fs_core.c, and fsr_iget of fsread.c.
pub mod Place
pub mod Edit
pub mod RoundTrip
pub mod Bytes
use s5fs.Base.{ℕ, ◌+◌, ◌*◌, ◌||◌, Option, none, some, List, [], ◌∷◌, leb, ◌==◌, if◌then◌else◌}
use s5fs.Layout.{
  dinodesz, maxino, u32, Profile, di_mode, di_nlink, di_uid, di_gid, di_size, di_addr, di_atime,
  di_mtime, di_ctime,
}
use s5fs.Endian.{Buf, Endian, put16, get16, get24, get32}
use s5fs.Fields.{short, triple, long, Field, field, array, put_fields}
use s5fs.Image.{File, read_at}
use s5fs.Writer.{fail, itod, itoo, rdblk, wtblk, window, splice, ilist_small, out_of_inodes, S5Fs}

-- s5fs_inode and fsr_inode. Negative int16_t and int32_t values are their bit patterns.
pub record Inode : Type 0 where
  pub number : ℕ
  pub mode : ℕ
  pub nlink : ℕ
  pub uid : ℕ
  pub gid : ℕ
  pub size : ℕ
  pub atime : ℕ
  pub mtime : ℕ
  pub ctime : ℕ
  pub addr : ℕ → ℕ

-- `in->atime ? in->atime : fs->s_time`
abbrev pub stamp : ℕ → ℕ → ℕ
stamp t now = if t == 0 then now else t

-- The put calls of s5fs_writeinode, in their order.
unfoldable pub inode_fields : ℕ → ℕ → Inode → List Field
inode_fields naddr now i =
    field short di_mode i.mode
    ∷ field short di_nlink i.nlink
    ∷ field short di_uid i.uid
    ∷ field short di_gid i.gid
    ∷ field long di_size i.size
    ∷ array triple di_addr naddr i.addr
    ∷ field long di_atime (stamp i.atime now)
    ∷ field long di_mtime (stamp i.mtime now)
    ∷ field long di_ctime (stamp i.ctime now)
    ∷ []

-- `buf + itoo(number) * P11_DINODESZ`: the inode's place in its block.
abbrev pub slot : S5Fs → ℕ → ℕ
slot fs number = itoo fs.prof.inopb number * dinodesz

-- A change of the 64 bytes of an inode in its block: the block is read, changed and written back.
unfoldable pub edit_inode : ℕ → (Buf → Buf) → S5Fs → S5Fs
edit_inode number change fs =
    let d : ℕ = itod fs.prof.inopb number in
    let (buf, fs') = rdblk d fs.uninit fs in
    wtblk d (splice buf (slot fs number) dinodesz (change (window buf (slot fs number)))) fs'

-- `number` has 16 bits in the structure.
unfoldable pub writeinode : Inode → S5Fs → S5Fs
writeinode i fs =
    let fs1 : S5Fs = record fs { s_tinode = u32 (fs.s_tinode + 0xffffffff) } in
    if leb fs1.s_isize (itod fs1.prof.inopb i.number)
    then fail ilist_small fs1
    else edit_inode i.number (λ dp. put_fields fs1.bo dp (inode_fields fs1.prof.naddr fs1.s_time i))
        fs1

unfoldable pub bumplink : ℕ → S5Fs → S5Fs
bumplink ino fs =
    if leb fs.s_isize (itod fs.prof.inopb ino)
    then fail ilist_small fs
    else edit_inode ino (λ dp. put16 fs.bo dp di_nlink (get16 fs.bo dp di_nlink + 1)) fs

-- The next inode number, or 0 past the 16 bits of a directory entry.
unfoldable pub ialloc : S5Fs → ℕ × S5Fs
ialloc fs =
    if leb maxino fs.ino
    then (0, fail out_of_inodes fs)
    else (fs.ino + 1, record fs { ino = fs.ino + 1 })

-- The reader's handle: FSR of fsread.h, less the file, which it shares with the writer.
pub record Fsr : Type 0 where
  pub bo : Endian
  pub base : ℕ
  pub prof : Profile
  pub isize : ℕ
  pub fsize : ℕ

-- `rdblk` of fsread.c.
unfoldable pub bread : Fsr → File → ℕ → Buf → Option Buf
bread r fd bno old = read_at fd (r.base + u32 bno * r.prof.bsize) r.prof.bsize old

-- The get calls of fsr_iget on the inode's bytes. It leaves `addr` alone from slot `naddr` on.
unfoldable pub decode_inode : Endian → ℕ → Buf → Inode
decode_inode e ino dp = record {
  number = ino;
  mode = get16 e dp di_mode;
  nlink = get16 e dp di_nlink;
  uid = get16 e dp di_uid;
  gid = get16 e dp di_gid;
  size = get32 e dp di_size;
  atime = get32 e dp di_atime;
  mtime = get32 e dp di_mtime;
  ctime = get32 e dp di_ctime;
  addr = λ k. get24 e dp (di_addr + 3 * k);
}

-- `none` is the return value -1: the number 0, a number past the i-list, or a read error.
unfoldable pub iget : Fsr → File → Buf → ℕ → Option Inode
unfolding itod itoo window
iget r fd uninit ino =
    let blk : ℕ = itod r.prof.inopb ino in
    if ino == 0 || leb r.isize blk then none else elim (bread r fd blk uninit) [
      | none ↦ none
      | some buf ↦ some (decode_inode r.bo ino (window buf (itoo r.prof.inopb ino * dinodesz)))
    ]
