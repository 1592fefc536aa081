-- ===== src/Writer.antt =====
-- The writer handle of s5fs_core.h (S5FS) and the operations of s5fs_core.c on it.
--
-- An operation takes the handle and returns it changed. `none` is undefined behaviour: an access
-- outside the s_free array, which the source does not guard. `fs->error` is sticky: after the
-- first failure the block I/O does nothing.
mod Handle
mod Alloc
mod Laws
unfoldable pub use Handle.{fail, itod, itoo, rdblk, wtblk, zeros, window, splice}
pub use Handle.{
  Failure, read_error, out_of_space, indirect_full, ilist_small, bad_mode, out_of_inodes, too_large,
  bad_order, bad_bsize, volume_large, too_small, bad_ratio, bad_superblock, too_many_inodes, S5Fs,
  Op, pure, do_op, ◌>>=◌, ◌>>◌,
}
unfoldable pub use Alloc.{put_longs, put_fblk, fblk_nfree, fblk_free, get_fblk, alloc, bfree}
pub use Laws.*
