-- ===== src/Rw/Attr.antt =====
-- The operations of s5fs_rw.c on an inode's attributes and bytes: rw_chmod, rw_chown, rw_utimes,
-- set_meta, rw_pwrite and rw_truncate.
use s5fs.Base.{
  ℕ, zero, suc, ◌+◌, ◌-◌, ◌/◌, ◌%◌, Bool, true, false, not, ◌&&◌, ◌||◌, Option, none, some, List,
  ltb, leb, ◌==◌, if◌then◌else◌, min,
}
use s5fs.Layout.{di_mode, di_uid, di_gid, di_size, di_atime, di_mtime, ifmt, perm_bits, ifdir}
use s5fs.Endian.{Buf, Endian, put16, get16, put32, get32}
use s5fs.Writer.{itod, rdblk, wtblk, window, splice, S5Fs, Op}
use s5fs.Rw.Dir.{Rc, done, erofs, enoent, eisdir, efbig, inode_at, with_inode, nblk}
use s5fs.Rw.Map.{rw_bmap, bfree_at}
use s5fs.Rw.Ops.{Rw, rw_namei}
use s5fs.Inode.{edit_inode}
use s5fs.Superblock.{finish}

-- The shape of rw_chmod, rw_chown and rw_utimes: the inode that the path names is changed.
unfoldable pub change : Rw → List ℕ → (Buf → Buf) → Op Rc
change h path f fs =
    let ino : ℕ = rw_namei h path fs in
    if not h.writable
    then some (erofs, fs)
    else if ino == 0
    then some (enoent, fs)
    else some (done, finish (edit_inode ino f fs))

unfoldable pub with_perm : Endian → ℕ → Buf → Buf
with_perm e perm ds = put16 e ds di_mode (ifmt (get16 e ds di_mode) + perm_bits perm)

unfoldable pub chmod : Rw → List ℕ → ℕ → Op Rc
chmod h path perm fs = change h path (with_perm fs.bo perm) fs

-- `none` is a negative id, which leaves the field.
unfoldable pub with_ids : Endian → Option ℕ → Option ℕ → Buf → Buf
with_ids e uid gid ds =
    let ds1 : Buf = elim uid [ none ↦ ds | some u ↦ put16 e ds di_uid u ] in
    elim gid [ none ↦ ds1 | some g ↦ put16 e ds1 di_gid g ]

unfoldable pub chown : Rw → List ℕ → Option ℕ → Option ℕ → Op Rc
chown h path uid gid fs = change h path (with_ids fs.bo uid gid) fs

unfoldable pub with_times : Endian → ℕ → ℕ → Buf → Buf
with_times e atime mtime ds = put32 e (put32 e ds di_atime atime) di_mtime mtime

unfoldable pub utimes : Rw → List ℕ → ℕ → ℕ → Op Rc
utimes h path atime mtime fs = change h path (with_times fs.bo atime mtime) fs

unfoldable pub set_meta : ℕ → ℕ → ℕ → ℕ → S5Fs → S5Fs
set_meta ino perm atime mtime fs =
    edit_inode ino (λ ds. with_times fs.bo atime mtime (with_perm fs.bo perm ds)) fs

-- `memcpy(dblk + boff, buf, n)`
abbrev pub overlay : Buf → ℕ → ℕ → Buf → Buf
overlay dblk boff n buf = splice dblk boff n buf

-- The loop of rw_pwrite, `n` rounds at most, with `done` bytes behind it: the bytes written, `ds`,
-- and whether it is to be written back. `dblk` is the buffer that the loop reads into.
unfoldable pub write_blocks : ℕ → Buf → ℕ → ℕ → ℕ → Buf → Bool → Buf → Op (ℕ × Buf × Bool)
write_blocks zero buf size off at ds dirty dblk fs = some ((at, ds, dirty), fs)
write_blocks (suc n) buf size off at ds dirty dblk fs =
    let boff : ℕ = (off + at) % fs.prof.bsize in
    let want : ℕ = min (fs.prof.bsize - boff) (size - at) in
    if leb size at
    then some ((at, ds, dirty), fs)
    else elim (rw_bmap true ds ((off + at) / fs.prof.bsize) fs) [
      | none ↦ none
      | some ((phys, ds', d), fs1) ↦
          let (old, fs2) = rdblk phys dblk fs1 in
          let new : Buf = overlay old boff want (window buf at) in
          let rest : Option ((ℕ × Buf × Bool) × S5Fs) =
            write_blocks n buf size off (at + want) ds' (dirty || d) new (wtblk phys new fs2) in
          if phys == 0 then some ((at, ds', dirty || d), fs1) else rest
    ]

-- The end of rw_pwrite: the size grows, and the inode is written if it changed.
unfoldable pub grow : ℕ → Buf → ℕ → ℕ → ℕ → ℕ → Buf → Bool → S5Fs → Rc × ℕ × S5Fs
grow ino pb fsize size off at ds dirty fs =
    let d : ℕ = itod fs.prof.inopb ino in
    if at == 0 && ltb 0 size
    then (efbig, 0, fs)
    else if ltb fsize (off + at)
    then (done, at, wtblk d (with_inode fs ino pb (put32 fs.bo ds di_size (off + at))) fs)
    else (done, at, if dirty then wtblk d (with_inode fs ino pb ds) fs else fs)

-- `size` and `off` are not negative, nor is the file's size. Each round but the last ends a block,
-- so that `size + 1` rounds are enough.
unfoldable pub pwrite : Rw → ℕ → Buf → ℕ → ℕ → Op (Rc × ℕ)
pwrite h ino buf size off fs =
    let (pb, fs1) = rdblk (itod fs.prof.inopb ino) fs.uninit fs in
    let ds : Buf = inode_at fs ino pb in
    if not h.writable
    then some ((erofs, 0), fs)
    else if ifmt (get16 fs.bo ds di_mode) == ifdir
    then some ((eisdir, 0), fs1)
    else elim (write_blocks (size + 1) buf size off 0 ds false fs.uninit fs1) [
      | none ↦ none
      | some ((at, ds', dirty), fs2) ↦
          let (rc, n, fs3) = grow ino pb (get32 fs.bo ds di_size) size off at ds' dirty fs2 in
          some ((rc, n), fs3)
    ]

-- `for (lb = …; lb < …; lb++) bfree_at(h, ds, lb)`, `n` of them.
unfoldable pub bfree_range : ℕ → ℕ → Buf → S5Fs → Buf × S5Fs
bfree_range zero lb ds fs = (ds, fs)
bfree_range (suc n) lb ds fs = let (ds', fs') = bfree_at ds lb fs in bfree_range n (lb + 1) ds' fs'

-- `len` is not negative and below 2 ^ 31, and so is the file's size.
unfoldable pub truncate : Rw → ℕ → ℕ → Op Rc
truncate h ino len fs =
    let (pb, fs1) = rdblk (itod fs.prof.inopb ino) fs.uninit fs in
    let ds : Buf = inode_at fs ino pb in
    let old : ℕ = nblk fs (get32 fs.bo ds di_size) in
    let new : ℕ = nblk fs len in
    let (ds', fs2) =
      if ltb len (get32 fs.bo ds di_size) then bfree_range (old - new) new ds fs1 else (ds, fs1) in
    if not h.writable
    then some (erofs, fs)
    else if ifmt (get16 fs.bo ds di_mode) == ifdir
    then some (eisdir, fs1)
    else some (
      done,
      finish
          (wtblk (itod fs.prof.inopb ino) (with_inode fs ino pb (put32 fs.bo ds' di_size len)) fs2),
    )
