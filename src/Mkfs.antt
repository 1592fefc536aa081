-- ===== src/Mkfs.antt =====
-- s5fs_mkfs and its stages (s5fs_core.c): geometry, free list, root and lost+found, superblock.
pub mod Free
pub mod Whole
pub mod Start
pub mod Interleave
pub mod Groups
pub mod Dir
mod Begin
mod FreeList
mod Examples
use s5fs.Base.{codes, ℕ, ◌+◌, ◌-◌, ◌*◌, Option, none, some, [], ◌∷◌, ◌==◌, if◌then◌else◌}
use s5fs.Layout.{direntsz, u32, u16, ifdir, isvtx}
use s5fs.Endian.{Buf}
use s5fs.Image.{File}
use s5fs.Writer.{S5Fs, Op, pure, do_op, ◌>>=◌, ◌>>◌}
unfoldable pub use Dir.{put_dirent, newblk, entry, indirect_rest, map_small, iput}
unfoldable pub use Begin.{truncate, interleave_m, interleave_n, ninodeblks, zero_ilist, begin}
unfoldable pub use FreeList.{
  next_clear, permute, round_up, free_group, free_groups, build_list, freelist,
}
pub use Dir.{DirBuf}
pub use Begin.{Opts}
use Dir.{empty_dir, no_inode, newblks}
use s5fs.Inode.{Inode}
use s5fs.Superblock.{finish}

-- The lost+found directory, with `n` empty blocks in front; the parent gets one link more.
unfoldable pub mklost : Inode → Op Inode
mklost par fs =
    let number : ℕ = fs.ino + 1 in
    let n : ℕ = fs.prof.naddr - 4 + 1 in
    (do
      do_op (λ s. record s { ino = number })
      b ← entry (u16 number) (b'.' ∷ []) empty_dir
      b ← entry par.number (b'.' ∷ b'.' ∷ []) b
      b ← newblks n b
      iput
          (record no_inode {
            number = u16 number;
            mode = ifdir + isvtx + 0o777;
            nlink = 2;
            size = u32 (fs.prof.bsize * n);
          })
          b.ibc b.ib
      pure (record par { nlink = par.nlink + 1 }))
      fs

-- The root directory, inode 2, its own parent, with one child.
unfoldable pub mkroot : Op (Unit {0})
mkroot fs =
    let number : ℕ = fs.ino + 1 in
    (do
      do_op (λ s. record s { ino = number })
      b ← entry (u16 number) (b'.' ∷ []) empty_dir
      b ← entry (u16 number) (b'.' ∷ b'.' ∷ []) b
      b ← entry (u16 (number + 1)) (codes "lost+found") b
      root ← mklost (record no_inode {
        number = u16 number;
        mode = ifdir + 0o777;
        nlink = 2;
        size = 2 * direntsz + direntsz;
      })
      b ← (if b.dbc == 0 then pure b else newblk b)
      iput root b.ibc b.ib)
      fs

-- `none` is undefined behaviour; s5fs_mkfs returns -1 where the handle has an error.
unfoldable pub mkfs : File → Buf → ℕ → ℕ → Opts → Option S5Fs
mkfs fd uninit now nblocks opts =
    let fs : S5Fs = begin fd uninit now nblocks opts in
    elim (fs.error) [
      | some _ ↦ some fs
      | none ↦ elim ((do freelist; mkroot; do_op finish) (record fs { s_tfree = 0 })) [
        | none ↦ none
        | some (_, fs') ↦ some fs'
      ]
    ]
