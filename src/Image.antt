-- ===== src/Image.antt =====
-- The image file, and the raw block I/O of s5fs_core.c (s5fs_rdblk, s5fs_wtblk) and fsread.c.
--
-- The file is its length and its bytes. The host's read fails when it comes back short, past the
-- end of the file; the host's write and lseek do not fail, so a write extends the file.
mod Bytes
mod Laws
pub use Bytes.{File}
unfoldable pub use Bytes.{read_at, write_at, block}
pub use Laws.*
