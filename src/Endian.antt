-- ===== src/Endian.antt =====
-- s5endian.c and s5endian.h: the three byte-order codecs.
--
-- A byte buffer is a function from offsets to bytes, and `uint8_t *b` is a buffer with an offset.
-- A cast to uint8_t is `% 256`, a shift by k bits is a division by 2 ^ k, and `|` of fields that
-- share no bit is `+`.
pub mod Names
mod Words
mod Laws
unfoldable pub use Words.{Buf, set_byte, put16, get16, put24, get24, put32, get32}
pub use Words.{Endian, pdp11, le, be}
pub use Laws.*
