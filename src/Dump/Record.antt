-- ===== src/Dump/Record.antt =====
-- The records of a dump tape, and the output: wput, tap_flush, taprec and spclrec of cmd_dump.c.
use s5fs.Base.{ℕ, zero, suc, ◌+◌, ◌-◌, ◌*◌, ◌/◌, ◌^◌, Bool, ◌==◌, if◌then◌else◌}
use s5fs.Layout.{u32, u16}
use s5fs.Endian.{Buf, Endian, set_byte, put16, get16}
use s5fs.Image.{File, write_at}
use s5fs.Writer.{zeros, splice}
use s5fs.Inode.{Fsr}

abbrev pub dmagic : ℕ
dmagic = 60011

abbrev pub dcheck : ℕ
dcheck = 84446

abbrev pub ts_tape : ℕ
ts_tape = 1

abbrev pub ts_inode : ℕ
ts_inode = 2

abbrev pub ts_bits : ℕ
ts_bits = 3

abbrev pub ts_addr : ℕ
ts_addr = 4

abbrev pub ts_end : ℕ
ts_end = 5

abbrev pub ts_clri : ℕ
ts_clri = 6

-- Blocks to a tape record.
abbrev pub ntrec : ℕ
ntrec = 10

abbrev pub c_type : ℕ
c_type = 0

abbrev pub c_date : ℕ
c_date = 2

abbrev pub c_ddate : ℕ
c_ddate = 6

abbrev pub c_volume : ℕ
c_volume = 10

abbrev pub c_inum : ℕ
c_inum = 16

abbrev pub c_magic : ℕ
c_magic = 18

abbrev pub c_checksum : ℕ
c_checksum = 20

abbrev pub c_dinode : ℕ
c_dinode = 22

abbrev pub c_count : ℕ
c_count = 86

abbrev pub c_addr : ℕ
c_addr = 88

-- The static variables of cmd_dump.c: the reader's handle with its file, OUT, `spcl`, and the
-- buffer of the tape's framing. `uninit` is what an uninitialised buffer on the stack holds.
pub record Dump : Type 0 where
  pub r : Fsr
  pub image : File
  pub uninit : Buf
  pub file : File
  pub spcl : Buf
  pub tap : Bool
  pub tapbuf : Buf
  pub tapn : ℕ
  pub ncount : ℕ

unfoldable pub wput : Buf → ℕ → Dump → Dump
wput b n d = record d { file = write_at d.file d.file.size n b }

-- The length of a tape record, least significant byte first.
abbrev pub tap_mark : ℕ → Buf
tap_mark len =
    set_byte (set_byte (set_byte (set_byte zeros 0 len) 1 (len / 2 ^ 8)) 2 (len / 2 ^ 16)) 3
      (len / 2 ^ 24)

unfoldable pub tap_flush : Dump → Dump
unfolding wput
tap_flush d =
    let len : ℕ = u32 (d.tapn * d.r.prof.bsize) in
    if d.tapn == 0
    then d
    else record (wput (tap_mark len) 4 (wput d.tapbuf len (wput (tap_mark len) 4 d))) { tapn = 0 }

-- One block into the framing buffer, which is written when it is full.
unfoldable pub buffer_block : Buf → Dump → Dump
unfolding splice
buffer_block b d =
    let d1 : Dump = record d {
      tapbuf = splice d.tapbuf (d.tapn * d.r.prof.bsize) d.r.prof.bsize b;
      tapn = d.tapn + 1;
    } in
    if d1.tapn == ntrec then tap_flush d1 else d1

unfoldable pub taprec : Buf → Dump → Dump
taprec b d =
    let d1 : Dump = if d.tap then buffer_block b d else wput b d.r.prof.bsize d in
    record d1 { ncount = d1.ncount + 1 }

-- `for (i = 0; i < nw; i++) s += get16(b + 2 * i)`
unfoldable pub word_sum : Endian → Buf → ℕ → ℕ
word_sum e b zero = 0
word_sum e b (suc i) = u32 (word_sum e b i + get16 e b (2 * i))

-- The header without its checksum, and with it.
abbrev pub unsummed : Endian → ℕ → Buf → Buf
unsummed e ino spcl = put16 e (put16 e (put16 e spcl c_inum ino) c_magic dmagic) c_checksum 0

unfoldable pub header : Endian → ℕ → ℕ → Buf → Buf
header e bsize ino spcl =
    let b : Buf = unsummed e ino spcl in
    put16 e b c_checksum (u16 (dcheck + 2 ^ 32 - word_sum e b (bsize / 2)))

unfoldable pub spclrec : ℕ → Dump → Dump
spclrec ino d =
    let b : Buf = header d.r.bo d.r.prof.bsize ino d.spcl in taprec b (record d { spcl = b })
