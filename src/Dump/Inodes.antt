-- ===== src/Dump/Inodes.antt =====
-- indir and dump_inode of cmd_dump.c: the headers and data blocks of one inode.
use s5fs.Base.{ℕ, zero, suc, ◌+◌, ◌-◌, ◌*◌, Bool, ◌||◌, none, some, ◌==◌, if◌then◌else◌}
use s5fs.Layout.{dinodesz, di_mode, di_addr, ifmt, ifdir, ifreg}
use s5fs.Endian.{Buf, Endian, put16, get16, get24, get32}
use s5fs.Writer.{itod, itoo, zeros, window, splice}
use s5fs.Inode.{bread}
use s5fs.Dump.Record.{ts_inode, ts_addr, c_type, c_dinode, c_count, c_addr, Dump, taprec, spclrec}

-- fsr_bread with its result ignored: after an error the buffer is as before.
unfoldable pub read_into : Dump → ℕ → Buf → Buf
read_into d bno old = elim (bread d.r d.image bno old) [ none ↦ old | some b ↦ b ]

-- The data block `bno`, if it is not a hole, goes to the tape by way of the buffer `db`.
unfoldable pub put_block : ℕ → Buf × Dump → Buf × Dump
put_block bno (db, d) =
    let b : Buf = read_into d bno db in if bno == 0 then (db, d) else (b, taprec b d)

-- The loop over the block numbers `f j`, `n` of them from `j` on.
unfoldable pub put_blocks : ℕ → ℕ → (ℕ → ℕ) → Buf × Dump → Buf × Dump
put_blocks zero j f s = s
put_blocks (suc n) j f s = put_blocks n (j + 1) f (put_block (f j) s)

-- `spcl[C_ADDR + j] = f(j) ? 1 : 0` for the `n` flags.
abbrev pub put_flags : Buf → ℕ → (ℕ → ℕ) → Buf
put_flags b n f = splice b c_addr n (λ j. if f j == 0 then 0 else 1)

-- A header with the type, the count and the flags.
unfoldable pub map_header : ℕ → ℕ → (ℕ → ℕ) → ℕ → Dump → Dump
map_header type n f ino d =
    let b : Buf = put16 d.r.bo (put16 d.r.bo d.spcl c_type type) c_count n in
    spclrec ino (record d { spcl = put_flags b n f })

unfoldable pub each_child : (ℕ → Dump → Dump) → ℕ → ℕ → (ℕ → ℕ) → Dump → Dump
each_child child zero j f d = d
each_child child (suc n) j f d =
    each_child child n (j + 1) f (if f j == 0 then d else child (f j) d)

-- Level 0 is a leaf.
unfoldable pub indir : ℕ → ℕ → ℕ → Dump → Dump
indir zero ino blk d =
    let ib : Buf = read_into d blk d.uninit in
    let f : ℕ → ℕ = λ j. get32 d.r.bo ib (4 * j) in
    (put_blocks d.r.prof.nindir 0 f (d.uninit, map_header ts_addr d.r.prof.nindir f ino d)).1
indir (suc l) ino blk d =
    let ib : Buf = read_into d blk d.uninit in
    each_child (indir l ino) d.r.prof.nindir 0 (λ j. get32 d.r.bo ib (4 * j)) d

-- The three indirect slots, from `laddr` on.
unfoldable pub indirects : ℕ → ℕ → ℕ → (ℕ → ℕ) → Dump → Dump
indirects zero level ino slots d = d
indirects (suc n) level ino slots d =
    indirects n (level + 1) ino slots
      (if slots level == 0 then d else indir level ino (slots level) d)

-- `get24(dino + P11_DI_ADDR + 3 * i)`
abbrev pub slot_of : Endian → Buf → ℕ → ℕ
slot_of e dino i = get24 e dino (di_addr + 3 * i)

-- The header starts from the dinode, with no flags.
unfoldable pub inode_header : Buf → Dump → Dump
inode_header dino d = record d {
  spcl = splice (splice d.spcl c_addr (d.r.prof.bsize - c_addr) zeros) c_dinode dinodesz dino;
}

-- A directory or a regular file.
abbrev pub is_data : ℕ → Bool
is_data mode = ifmt mode == ifdir || ifmt mode == ifreg

-- The bytes of an allocated inode: a device has its header only.
unfoldable pub dump_dinode : ℕ → Buf → Buf → Dump → Dump
dump_dinode ino buf dino d =
    let mode : ℕ = get16 d.r.bo dino di_mode in
    let f : ℕ → ℕ = slot_of d.r.bo dino in
    let d1 : Dump = inode_header dino d in
    if is_data mode
    then indirects (d.r.prof.naddr - d.r.prof.laddr) 0 ino (λ k. f (d.r.prof.laddr + k))
        (put_blocks d.r.prof.laddr 0 f (buf, map_header ts_inode d.r.prof.laddr f ino d1)).1
    else map_header ts_inode 0 f ino d1

unfoldable pub dump_inode : ℕ → Dump → Dump
dump_inode ino d =
    let inopb : ℕ = d.r.prof.inopb in
    let buf : Buf = read_into d (itod inopb ino) d.uninit in
    let dino : Buf = window buf (itoo inopb ino * dinodesz) in
    if get16 d.r.bo dino di_mode == 0 then d else dump_dinode ino buf dino d
