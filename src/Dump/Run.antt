-- ===== src/Dump/Run.antt =====
-- cmd_dump of cmd_dump.c from the opening of its files on: the map of the inodes in use, and the tape.
use s5fs.Base.{
  ℕ, zero, suc, ◌+◌, ◌-◌, ◌*◌, ◌/◌, ◌%◌, ◌^◌, Option, none, some, map, ◌==◌, if◌then◌else◌,
}
use s5fs.Layout.{rootino, u32}
use s5fs.Endian.{Buf, put16, put32}
use s5fs.Writer.{zeros, window}
use s5fs.Inode.{Inode, Fsr, iget}
use s5fs.Dump.Record.{
  ts_tape, ts_bits, ts_end, ts_clri, ntrec, c_type, c_date, c_ddate, c_volume, c_count, Dump, wput,
  tap_mark, tap_flush, taprec, spclrec,
}
use s5fs.Dump.Inodes.{dump_inode}
use Prim.Native.Nat.{bit_or}

-- `(nino / 16 * 2 + bsize) / bsize`, the blocks of an inode map.
abbrev pub map_blocks : ℕ → ℕ → ℕ
map_blocks bsize n = (n / 16 * 2 + bsize) / bsize

-- `map[ino / 8] |= 1 << (ino % 8)`
abbrev pub set_bit : Buf → ℕ → Buf
set_bit map ino j = if j == ino / 8 then bit_or (map j) (2 ^ (ino % 8)) else map j

-- What pass 1 finds: the inodes in use, and the last of them.
pub record Used : Type 0 where
  pub map : Buf
  pub last_ino : ℕ

unfoldable pub note_inode : ℕ → Inode → Used → Used
note_inode ino i u = if i.mode == 0 then u else record { map = set_bit u.map ino; last_ino = ino }

-- `n` inodes from `ino` on; a failure of fsr_iget ends the loop.
unfoldable pub find_used : ℕ → ℕ → Dump → Used → Used
find_used zero ino d u = u
find_used (suc n) ino d u = elim (iget d.r d.image d.uninit ino) [
  | none ↦ u
  | some i ↦ find_used n (ino + 1) d (note_inode ino i u)
]

-- `(isize - 2) * inopb`
abbrev pub inodes : Fsr → ℕ
inodes r = u32 ((r.isize + 2 ^ 32 - 2) * r.prof.inopb)

-- `map + i * bsize` for the blocks from `i` on, `n` of them.
unfoldable pub put_map : ℕ → ℕ → Buf → Dump → Dump
put_map zero i map d = d
put_map (suc n) i map d = put_map n (i + 1) map (taprec (window map (i * d.r.prof.bsize)) d)

unfoldable pub write_map : Buf → ℕ → ℕ → Dump → Dump
write_map map last_ino typ d =
    let n : ℕ = map_blocks d.r.prof.bsize last_ino in
    let b : Buf = put16 d.r.bo (put16 d.r.bo zeros c_type typ) c_count n in
    put_map n 0 map (spclrec 0 (record d { spcl = b }))

-- The first header; `now` is `time(NULL)`.
unfoldable pub tape_header : ℕ → ℕ → Dump → Dump
tape_header now last_ino d =
    let b : Buf = put32 d.r.bo (put16 d.r.bo zeros c_type ts_tape) c_date now in
    let b : Buf = put16 d.r.bo (put32 d.r.bo b c_ddate 0) c_volume 1 in
    spclrec last_ino (record d { spcl = b })

unfoldable pub dump_inodes : ℕ → ℕ → Dump → Dump
dump_inodes zero ino d = d
dump_inodes (suc n) ino d = dump_inodes n (ino + 1) (dump_inode ino d)

-- The same header `n` times.
unfoldable pub put_ends : ℕ → ℕ → Dump → Dump
put_ends zero last_ino d = d
put_ends (suc n) last_ino d = put_ends n last_ino (spclrec last_ino d)

unfoldable pub end_headers : ℕ → Dump → Dump
end_headers last_ino d =
    put_ends ntrec last_ino (record d { spcl = put16 d.r.bo zeros c_type ts_end })

-- The partial tape record, and two tape marks.
unfoldable pub end_tape : Dump → Dump
end_tape d = if d.tap then wput (tap_mark 0) 4 (wput (tap_mark 0) 4 (tap_flush d)) else d

unfoldable pub write_tape : ℕ → Used → Dump → Dump
write_tape now u d =
    let d1 : Dump = tape_header now u.last_ino d in
    let d2 : Dump = write_map u.map u.last_ino ts_bits (write_map u.map u.last_ino ts_clri d1) in
    end_tape (end_headers u.last_ino (dump_inodes (u.last_ino - 1) rootino d2))

-- The handle is open and the output empty; `none` where no inode is in use.
unfoldable pub dump : ℕ → Dump → Option Dump
dump now d =
    let u : Used = find_used (inodes d.r - 1) rootino d (record { map = zeros; last_ino = 0 }) in
    if u.last_ino == 0 then none else some (write_tape now u d)
