-- ===== src/Rw/Ops.antt =====
-- The operations of s5fs_rw.c on paths and on inodes.
--
-- The writer and the reader have the same image open, so that the reader sees each block that the
-- writer has put there. A path has no NUL byte. `unsigned perm` and the times are 32-bit patterns.
use s5fs.Base.{
  ℕ, zero, suc, ◌+◌, ◌*◌, Bool, true, false, not, ◌&&◌, ◌||◌, Option, none, some, List, [], ◌∷◌,
  ◌==◌, if◌then◌else◌,
}
use s5fs.Layout.{direntsz, rootino, u32, ifmt, perm_bits, ifdir, ifreg}
use s5fs.Endian.{Buf, Endian}
use s5fs.Writer.{itod, rdblk, wtblk, zeros, S5Fs, Op, pure, do_op, ◌>>=◌, ◌>>◌, alloc}
use s5fs.Rw.Dir.{
  eio, eperm, Rc, done, erofs, enoent, enametoolong, eexist, enospc, eisdir, enotdir, enotempty,
  einval, efbig, name_ok, ialloc_scan, write_new_inode, inode_at, with_inode, dir_add, dir_remove,
  bump_nlink, set_dotdot, unref_inode,
}
use s5fs.Rw.Map.{ifree_blocks}
use s5fs.Inode.{Inode, Fsr, iget}
use s5fs.Mkfs.Dir.{put_dirent}
use s5fs.Reader.{same_name, namei, readdir, look, take}
use s5fs.Superblock.{finish}

-- RW, less the writer's state: the reader's handle, and whether the image is open for writing.
pub record Rw : Type 0 where
  pub r : Fsr
  pub writable : Bool

unfoldable pub rw_namei : Rw → List ℕ → S5Fs → ℕ
rw_namei h path fs = namei h.r fs.fd fs.uninit path

abbrev pub rw_iget : Rw → ℕ → S5Fs → Option Inode
rw_iget h ino fs = iget h.r fs.fd fs.uninit ino

-- The bytes before and behind the last slash.
unfoldable pub split_last : List ℕ → Option (List ℕ × List ℕ)
split_last [] = none
split_last (x ∷ xs) = elim (split_last xs) [
  | some (before, leaf) ↦ some (x ∷ before, leaf)
  | none ↦ if x == b'/' then some ([], xs) else none
]

-- The parent's inode number, 0 for none, and the leaf, of at most 255 bytes.
unfoldable pub parent_of : Rw → List ℕ → S5Fs → ℕ × List ℕ
parent_of h path fs = elim (split_last (take 2047 path)) [
  | none ↦ (0, [])
  | some ([], leaf) ↦ (rw_namei h (b'/' ∷ []) fs, take 255 leaf)
  | some (c ∷ cs, leaf) ↦ (rw_namei h (c ∷ cs) fs, take 255 leaf)
]

abbrev pub is_dir : Inode → Bool
is_dir i = ifmt i.mode == ifdir

-- The callback nonempty_cb found an entry other than "." and "..".
unfoldable pub nonempty : List (ℕ × List ℕ) → Bool
nonempty [] = false
nonempty ((_, n) ∷ es) =
    not (same_name n (b'.' ∷ [])) && not (same_name n (b'.' ∷ b'.' ∷ [])) || nonempty es

unfoldable pub has_entries : Rw → Inode → S5Fs → Bool
has_entries h i fs = elim (readdir h.r fs.fd fs.uninit i) [ none ↦ false | some es ↦ nonempty es ]

-- The walk of is_ancestor from `cur` up, `n` steps at most; running long is a yes.
unfoldable pub climb : Rw → ℕ → S5Fs → ℕ → ℕ → Bool
climb h anc fs zero cur = true
climb h anc fs (suc n) cur =
    if cur == anc
    then true
    else if cur == rootino || cur == 0
    then false
    else elim (rw_iget h cur fs) [
      | none ↦ false
      | some i ↦ elim (readdir h.r fs.fd fs.uninit i) [
        | none ↦ false
        | some es ↦
            let up : ℕ = look (b'.' ∷ b'.' ∷ []) es in
            let on : Bool = climb h anc fs n up in if up == 0 || up == cur then false else on
      ]
    ]

unfoldable pub is_ancestor : Rw → ℕ → ℕ → S5Fs → Bool
is_ancestor h anc dino fs = climb h anc fs (u32 (h.r.isize * h.r.prof.inopb) + 1) dino

-- Go on unless a call failed; the volume is synced at the end.
abbrev pub after : Rc → Op Rc → Op Rc
after done k = k
after erofs k = pure erofs
after enoent k = pure enoent
after enametoolong k = pure enametoolong
after eexist k = pure eexist
after enospc k = pure enospc
after eisdir k = pure eisdir
after enotdir k = pure enotdir
after enotempty k = pure enotempty
after einval k = pure einval
after efbig k = pure efbig
after eio k = pure eio
after eperm k = pure eperm

abbrev pub synced : Op Rc
synced fs = some (done, finish fs)

-- The second result is `*out_ino`, which counts where the call is done.
unfoldable pub creat : Rw → List ℕ → ℕ → Op (Rc × ℕ)
creat h path perm fs =
    let (pino, leaf) = parent_of h path fs in
    let (cino, fs1) = ialloc_scan fs in
    if not h.writable
    then some ((erofs, 0), fs)
    else if pino == 0
    then some ((enoent, 0), fs)
    else if not (name_ok leaf)
    then some ((enametoolong, 0), fs)
    else if not (rw_namei h path fs == 0)
    then some ((eexist, 0), fs)
    else if cino == 0
    then some ((enospc, 0), fs1)
    else (do
      do_op (write_new_inode cino (ifreg + perm_bits perm) 0 1 0)
      rc ← dir_add pino leaf cino
      rc ← after rc synced
      pure (rc, cino))
        fs1

-- The first block of a new directory, over what `memset` cleared.
abbrev pub dot_block : Endian → ℕ → ℕ → Buf
dot_block e cino pino =
    put_dirent e (put_dirent e zeros 0 cino (b'.' ∷ [])) direntsz pino (b'.' ∷ b'.' ∷ [])

unfoldable pub mkdir : Rw → List ℕ → ℕ → Op Rc
mkdir h path perm fs =
    let (pino, leaf) = parent_of h path fs in
    let (cino, fs1) = ialloc_scan fs in
    if not h.writable
    then some (erofs, fs)
    else if pino == 0
    then some (enoent, fs)
    else if not (name_ok leaf)
    then some (enametoolong, fs)
    else if not (rw_namei h path fs == 0)
    then some (eexist, fs)
    else if cino == 0
    then some (enospc, fs1)
    else (do
      dblk ← alloc
      do_op (wtblk dblk (dot_block fs.bo cino pino))
      do_op (write_new_inode cino (ifdir + perm_bits perm) dblk 2 (2 * direntsz))
      rc ← dir_add pino leaf cino
      after rc (do do_op (bump_nlink pino 1); synced))
        fs1

unfoldable pub unlink : Rw → List ℕ → Op Rc
unlink h path fs =
    let (pino, leaf) = parent_of h path fs in
    let cino : ℕ = rw_namei h path fs in
    let dir : Bool = elim (rw_iget h cino fs) [ none ↦ false | some i ↦ is_dir i ] in
    if not h.writable
    then some (erofs, fs)
    else if pino == 0 || cino == 0
    then some (enoent, fs)
    else if dir
    then some (eisdir, fs)
    else (do
      gone ← dir_remove pino leaf
      (if gone == 0 then pure enoent else (do do_op (unref_inode cino false pino); synced)))
        fs

-- The end of rw_rmdir: the inode's blocks and the inode are freed, then the parent loses a link.
unfoldable pub free_dir : ℕ → ℕ → S5Fs → S5Fs
free_dir cino pino fs =
    let (pb, fs1) = rdblk (itod fs.prof.inopb cino) fs.uninit fs in
    let fs2 : S5Fs = ifree_blocks (inode_at fs cino pb) fs1 in
    let fs3 : S5Fs = record fs2 { s_tinode = u32 (fs2.s_tinode + 1) } in
    bump_nlink pino 0xffff (wtblk (itod fs.prof.inopb cino) (with_inode fs cino pb zeros) fs3)

unfoldable pub rmdir : Rw → List ℕ → Op Rc
rmdir h path fs =
    let (pino, leaf) = parent_of h path fs in
    let cino : ℕ = rw_namei h path fs in
    if not h.writable
    then some (erofs, fs)
    else if pino == 0 || cino == 0
    then some (enoent, fs)
    else elim (rw_iget h cino fs) [
      | none ↦ some (enoent, fs)
      | some i ↦
          if not (is_dir i)
          then some (enotdir, fs)
          else if has_entries h i fs
          then some (enotempty, fs)
          else (do
            gone ← dir_remove pino leaf
            (if gone == 0 then pure enoent else (do do_op (free_dir cino pino); synced)))
              fs
    ]

-- What rw_rename does to the name that stands in the way: `none` is to go on.
unfoldable pub clear_target : Rw → ℕ → ℕ → Bool → ℕ → List ℕ → Op (Option Rc)
clear_target h cino tino sdir tpino tleaf fs =
    let go : Option (Option Rc × S5Fs) =
      (do _ ← dir_remove tpino tleaf; do_op (unref_inode tino sdir tpino); pure none) fs in
    if tino == 0
    then some (none, fs)
    else if tino == cino
    then some (some done, fs)
    else elim (rw_iget h tino fs) [
      | none ↦ some (some enoent, fs)
      | some tin ↦
          if is_dir tin && not sdir
          then some (some eisdir, fs)
          else if not (is_dir tin) && sdir
          then some (some enotdir, fs)
          else if is_dir tin && has_entries h tin fs
          then some (some enotempty, fs)
          else go
    ]

-- The rest of rw_rename, with the name free.
unfoldable pub move_entry : ℕ → List ℕ → ℕ → List ℕ → ℕ → Bool → Op Rc
move_entry fpino fleaf tpino tleaf cino sdir = do
  rc ← dir_add tpino tleaf cino
  after rc (do
    _ ← dir_remove fpino fleaf
    (if sdir && not (fpino == tpino)
        then (do
          set_dotdot cino tpino
          do_op (bump_nlink fpino 0xffff)
          do_op (bump_nlink tpino 1)
          synced)
        else synced))

unfoldable pub rename : Rw → List ℕ → List ℕ → Op Rc
rename h from to fs =
    let (fpino, fleaf) = parent_of h from fs in
    let (tpino, tleaf) = parent_of h to fs in
    let cino : ℕ = rw_namei h from fs in
    if not h.writable
    then some (erofs, fs)
    else if fpino == 0 || cino == 0 || tpino == 0
    then some (enoent, fs)
    else if not (name_ok tleaf)
    then some (enametoolong, fs)
    else elim (rw_iget h cino fs) [
      | none ↦ some (enoent, fs)
      | some cin ↦
          if is_dir cin && is_ancestor h cino tpino fs
          then some (einval, fs)
          else (do
            stop ← clear_target h cino (rw_namei h to fs) (is_dir cin) tpino tleaf
            elim stop [
              | some rc ↦ pure rc
              | none ↦ move_entry fpino fleaf tpino tleaf cino (is_dir cin)
            ])
              fs
    ]
