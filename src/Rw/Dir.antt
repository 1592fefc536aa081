-- ===== src/Rw/Dir.antt =====
-- Directory slots and inodes of mounted volumes: name_ok, ialloc_scan, write_new_inode, dir_add,
-- dir_remove, bump_nlink, set_dotdot and unref_inode of s5fs_rw.c.
use s5fs.Base.{
  ℕ, zero, suc, ◌+◌, ◌-◌, ◌*◌, ◌/◌, ◌%◌, Bool, true, false, not, ◌&&◌, ◌||◌, Option, none, some,
  List, [], ◌∷◌, ltb, leb, ◌==◌, if◌then◌else◌, length,
}
use s5fs.Layout.{
  dirsiz, direntsz, dinodesz, iliststart, rootino, u32, di_mode, di_nlink, di_size, di_addr,
  di_atime, di_mtime, di_ctime,
}
use s5fs.Endian.{Buf, Endian, put16, get16, put32, get32}
use s5fs.Fields.{short, triple, long, Field, field, array, put_fields}
use s5fs.Writer.{itod, rdblk, wtblk, zeros, window, splice, S5Fs, Op}
use s5fs.Rw.Map.{rw_bmap, ifree_blocks}
use s5fs.Inode.{edit_inode, slot}
use s5fs.Mkfs.Dir.{put_dirent}
use s5fs.Reader.{same_name, c_string}

-- The outcome of a call, a negated errno or 0.
pub data Rc : Type 0 where
  done erofs enoent enametoolong eexist enospc eisdir enotdir enotempty einval efbig eio eperm : Rc

unfoldable pub name_ok : List ℕ → Bool
name_ok leaf = ltb 0 (length leaf) && leb (length leaf) dirsiz

-- The inode slots of the block `blk`, `n` of them from `e` on: the first free number, or 0.
unfoldable pub scan_block : Endian → ℕ → ℕ → Buf → ℕ → ℕ → ℕ
scan_block bo inopb blk pb zero e = 0
scan_block bo inopb blk pb (suc n) e =
    let rest : ℕ = scan_block bo inopb blk pb n (e + 1) in
    let ino : ℕ = u32 ((blk - 2) * inopb + e + 1) in
    if ltb ino rootino
    then rest
    else if get16 bo pb (e * dinodesz + di_mode) == 0
    then ino
    else rest

-- The blocks of the i-list, `n` of them from `blk` on, read into `pb` in turn.
unfoldable pub ialloc_blocks : ℕ → ℕ → Buf → S5Fs → ℕ × S5Fs
ialloc_blocks zero blk pb fs = (0, fs)
ialloc_blocks (suc n) blk pb fs =
    let (pb', fs1) = rdblk blk pb fs in
    let ino : ℕ = scan_block fs.bo fs.prof.inopb blk pb' fs.prof.inopb 0 in
    let rest : ℕ × S5Fs = ialloc_blocks n (blk + 1) pb' fs1 in if ino == 0 then rest else (ino, fs1)

unfoldable pub ialloc_scan : S5Fs → ℕ × S5Fs
ialloc_scan fs = ialloc_blocks (fs.s_isize - iliststart) iliststart fs.uninit fs

abbrev pub new_fields : ℕ → ℕ → ℕ → ℕ → ℕ → List Field
new_fields mode addr0 nlink size now =
    field short di_mode mode
    ∷ field short di_nlink nlink
    ∷ field long di_size size
    ∷ array triple di_addr (if addr0 == 0 then 0 else 1) (λ k. addr0)
    ∷ field long di_atime now
    ∷ field long di_mtime now
    ∷ field long di_ctime now
    ∷ []

unfoldable pub write_new_inode : ℕ → ℕ → ℕ → ℕ → ℕ → S5Fs → S5Fs
write_new_inode ino mode addr0 nlink size fs =
    let fs1 : S5Fs =
      edit_inode ino (λ ds. put_fields fs.bo zeros (new_fields mode addr0 nlink size fs.s_time))
        fs in
    record fs1 { s_tinode = u32 (fs1.s_tinode + 0xffffffff) }

-- The 64 bytes of inode `ino` in the block `pb`, and the block with them put back.
abbrev pub inode_at : S5Fs → ℕ → Buf → Buf
inode_at fs ino pb = window pb (slot fs ino)

abbrev pub with_inode : S5Fs → ℕ → Buf → Buf → Buf
with_inode fs ino pb ds = splice pb (slot fs ino) dinodesz ds

-- The entries of directory block `b`, `n` of them from `e` on, up to the directory's size: the
-- first that passes the test.
unfoldable pub find_slot : (Buf → ℕ → Bool) → ℕ → ℕ → Buf → ℕ → ℕ → Option ℕ
find_slot test psize first db zero e = none
find_slot test psize first db (suc n) e =
    let rest : Option ℕ = find_slot test psize first db n (e + 1) in
    if leb psize (u32 ((first + e) * direntsz))
    then none
    else if test db (e * direntsz)
    then some e
    else rest

-- The blocks of a directory, `n` of them from `b` on, read into `db` in turn: the block and the
-- entry found, and the buffer.
unfoldable pub dir_find : (Buf → ℕ → Bool) → Buf → ℕ → ℕ → ℕ → Buf → Op (Option (ℕ × ℕ) × Buf)
dir_find test ds psize zero b db fs = some ((none, db), fs)
dir_find test ds psize (suc n) b db fs = elim (rw_bmap false ds b fs) [
  | none ↦ none
  | some ((phys, _, _), fs1) ↦
      let (db', fs2) = rdblk phys db fs1 in
      let over : Option ((Option (ℕ × ℕ) × Buf) × S5Fs) = dir_find test ds psize n (b + 1) db fs1 in
      let on : Option ((Option (ℕ × ℕ) × Buf) × S5Fs) = dir_find test ds psize n (b + 1) db' fs2 in
      if phys == 0
      then over
      else elim (find_slot test psize (b * fs.prof.ndirect) db' fs.prof.ndirect 0) [
        | none ↦ on
        | some e ↦ some ((some (phys, e), db'), fs2)
      ]
]

-- `(size + bsize - 1) / bsize` over uint32_t.
unfoldable pub nblk : S5Fs → ℕ → ℕ
nblk fs size = u32 (size + fs.prof.bsize - 1) / fs.prof.bsize

abbrev free_entry : Endian → Buf → ℕ → Bool
free_entry e db o = get16 e db o == 0

abbrev entry_named : Endian → List ℕ → Buf → ℕ → Bool
entry_named e name db o = not (get16 e db o == 0) && same_name (c_string dirsiz db (o + 2)) name

-- No free slot: the entry goes to the end of the directory. `pb` holds the inode's block.
unfoldable pub dir_append : ℕ → List ℕ → ℕ → Buf → Buf → Op Rc
dir_append pino name cino pb db fs =
    let ds : Buf = inode_at fs pino pb in
    let psize : ℕ = get32 fs.bo ds di_size in
    elim (rw_bmap true ds (psize / fs.prof.bsize) fs) [
      | none ↦ none
      | some ((phys, ds', _), fs1) ↦
          if phys == 0
          then some (enospc, fs1)
          else let (db', fs2) = rdblk phys db fs1 in
            let fs3 : S5Fs =
              wtblk phys (put_dirent fs.bo db' (psize % fs.prof.bsize) cino name) fs2 in
            let ds'' : Buf = put32 fs.bo ds' di_size (psize + direntsz) in
            some (done, wtblk (itod fs.prof.inopb pino) (with_inode fs pino pb ds'') fs3)
    ]

unfoldable pub dir_add : ℕ → List ℕ → ℕ → Op Rc
dir_add pino name cino fs =
    let (pb, fs1) = rdblk (itod fs.prof.inopb pino) fs.uninit fs in
    let ds : Buf = inode_at fs pino pb in
    let psize : ℕ = get32 fs.bo ds di_size in
    if not (name_ok name)
    then some (enametoolong, fs)
    else elim (dir_find (free_entry fs.bo) ds psize (nblk fs psize) 0 fs.uninit fs1) [
      | none ↦ none
      | some ((none, db), fs2) ↦ dir_append pino name cino pb db fs2
      | some ((some (phys, e), db), fs2) ↦
          some (done, wtblk phys (put_dirent fs.bo db (e * direntsz) cino name) fs2)
    ]

-- The inode number that the removed entry held, 0 for none.
unfoldable pub dir_remove : ℕ → List ℕ → Op ℕ
dir_remove pino name fs =
    let (pb, fs1) = rdblk (itod fs.prof.inopb pino) fs.uninit fs in
    let ds : Buf = inode_at fs pino pb in
    let psize : ℕ = get32 fs.bo ds di_size in
    elim (dir_find (entry_named fs.bo name) ds psize (nblk fs psize) 0 fs.uninit fs1) [
      | none ↦ none
      | some ((none, db), fs2) ↦ some (0, fs2)
      | some ((some (phys, e), db), fs2) ↦
          some (get16 fs.bo db (e * direntsz), wtblk phys (put16 fs.bo db (e * direntsz) 0) fs2)
    ]

-- `delta` is the 16-bit pattern of the signed argument: 1, or 0xffff for -1.
unfoldable pub bump_nlink : ℕ → ℕ → S5Fs → S5Fs
bump_nlink ino delta fs =
    edit_inode ino (λ ds. put16 fs.bo ds di_nlink (get16 fs.bo ds di_nlink + delta)) fs

unfoldable pub set_dotdot : ℕ → ℕ → Op (Unit {0})
set_dotdot dino newparent fs =
    let (pb, fs1) = rdblk (itod fs.prof.inopb dino) fs.uninit fs in
    elim (rw_bmap false (inode_at fs dino pb) 0 fs1) [
      | none ↦ none
      | some ((phys, _, _), fs2) ↦
          let (db, fs3) = rdblk phys fs.uninit fs2 in
          if phys == 0
          then some (tt, fs2)
          else some (tt, wtblk phys (put16 fs.bo db direntsz newparent) fs3)
    ]

-- What is left of an inode that loses a name: its blocks are freed with the last one. `nl` is an
-- int16_t, so `--nl <= 0` holds from 0x8001 on as well as for 0 and 1.
unfoldable pub drop_link : Buf → S5Fs → Buf × S5Fs
drop_link ds fs =
    let nl : ℕ = get16 fs.bo ds di_nlink in
    let fs1 : S5Fs = ifree_blocks ds fs in
    if leb nl 1 || ltb 0x8000 nl
    then (zeros, record fs1 { s_tinode = u32 (fs1.s_tinode + 1) })
    else (put16 fs.bo ds di_nlink (nl - 1), fs)

-- The directory case frees all, and takes the link of its ".." off the parent before it writes
-- the block that it read at the beginning.
unfoldable pub unref_inode : ℕ → Bool → ℕ → S5Fs → S5Fs
unref_inode ino is_dir parent fs =
    let (pb, fs1) = rdblk (itod fs.prof.inopb ino) fs.uninit fs in
    let ds : Buf = inode_at fs ino pb in
    let (ds', fs2) = drop_link ds fs1 in
    let freed : S5Fs = ifree_blocks ds fs1 in
    let fs3 : S5Fs =
      bump_nlink parent 0xffff (record freed { s_tinode = u32 (freed.s_tinode + 1) }) in
    if is_dir
    then wtblk (itod fs.prof.inopb ino) (with_inode fs ino pb zeros) fs3
    else wtblk (itod fs.prof.inopb ino) (with_inode fs ino pb ds') fs2
