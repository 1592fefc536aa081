-- ===== src/Restore/Run.antt =====
-- cmd_restore of cmd_restore.c: pass 1 looks for the largest inode number, pass 2 restores.
use s5fs.Base.{
  ℕ, zero, suc, ◌+◌, ◌-◌, ◌/◌, ◌^◌, Bool, true, false, ◌&&◌, ◌||◌, Option, none, some, ltb, ◌==◌,
  if◌then◌else◌,
}
use s5fs.Layout.{
  u32, di_mode, di_nlink, di_uid, di_gid, di_size, di_addr, di_atime, di_mtime, di_ctime, ifmt,
  ifchr, ifblk,
}
use s5fs.Endian.{Buf, pdp11, get16, get24, get32}
use s5fs.Image.{File}
use s5fs.Writer.{zeros, S5Fs}
use s5fs.Dump.Record.{ts_inode, ts_end, c_inum, c_dinode}
use s5fs.Restore.Tape.{Dr, Head, no_head, head, gethead, htype, skip_map}
use s5fs.Restore.Blocks.{
  Sink, Run, Ahead, at_end, ahead, ended, undefined, out_of_fuel, then_run, read_blocks,
}
use s5fs.Inode.{Inode, writeinode}
use s5fs.Mkfs.{Opts, begin, freelist}
use s5fs.BlockMap.{setblocks, set_addr}
use s5fs.Superblock.{finish}

-- Each header and each data record takes `rec` bytes of the tape.
abbrev pub tape_fuel : Dr → ℕ
tape_fuel dr = dr.file.size + 1

-- `(uint32_t)((size + bsize - 1) / bsize)` of a long, which divides towards 0; `w` is the bit
-- pattern of the int32_t.
unfoldable pub blocks_in : ℕ → ℕ → ℕ
blocks_in bsize w =
    if ltb w (2 ^ 31)
    then (w + bsize - 1) / bsize
    else u32 (2 ^ 32 - (2 ^ 32 - w - (bsize - 1)) / bsize)

abbrev pub d_field : ℕ → ℕ
d_field k = c_dinode + k

abbrev pub nblk_of : ℕ → Buf → ℕ
nblk_of bsize hdr = blocks_in bsize (get32 pdp11 hdr (d_field di_size))

-- read_blocks without a target.
abbrev pub skip_blocks : ℕ → Buf → Dr → Run Ahead
skip_blocks fuel hdr dr =
    read_blocks fuel hdr (nblk_of dr.rec hdr) (record { dr = dr; b = 0; fs = none; da = zeros })

abbrev pub without_sink : Ahead → Head
without_sink (at_end s) = no_head s.dr
without_sink (ahead h s) = head h s.dr

-- The tape behind a header, up to the next one.
unfoldable pub pass_over : ℕ → Buf → Dr → Run Head
pass_over fuel hdr dr = elim (htype hdr == ts_inode) [
  | false ↦ ended (skip_map hdr dr)
  | true ↦ then_run (skip_blocks fuel hdr dr) (λ a. ended (without_sink a))
]

abbrev pub max_inum : Buf → ℕ → ℕ
max_inum hdr n =
    if htype hdr == ts_inode && ltb n (get16 pdp11 hdr c_inum) then get16 pdp11 hdr c_inum else n

-- The loop of pass 1 from the header `hdr` on; without a next header it ends.
unfoldable pub first_next : (Buf → Dr → Run (ℕ × Dr)) → ℕ → Head → Run (ℕ × Dr)
first_next again last (no_head dr) = ended (last, dr)
first_next again last (head h dr) = again h dr

unfoldable pub first_pass : ℕ → ℕ → Buf → Dr → Run (ℕ × Dr)
first_pass zero last hdr dr = out_of_fuel
first_pass (suc fuel) last hdr dr = elim (htype hdr == ts_end) [
  | true ↦ ended (last, dr)
  | false ↦
      then_run (pass_over (suc fuel) hdr dr)
        (first_next (first_pass fuel (max_inum hdr last)) (max_inum hdr last))
]

-- The fields of the inode that the header gives; `addr` and the size are zero.
unfoldable pub head_inode : Buf → Inode
head_inode hdr = record {
  number = get16 pdp11 hdr c_inum;
  mode = get16 pdp11 hdr (d_field di_mode);
  nlink = get16 pdp11 hdr (d_field di_nlink);
  uid = get16 pdp11 hdr (d_field di_uid);
  gid = get16 pdp11 hdr (d_field di_gid);
  size = 0;
  atime = get32 pdp11 hdr (d_field di_atime);
  mtime = get32 pdp11 hdr (d_field di_mtime);
  ctime = get32 pdp11 hdr (d_field di_ctime);
  addr = zeros;
}

-- The inode of the header `hdr`, with the blocks `da`, is written: a device keeps its number, and
-- any other inode gets a map and its size.
unfoldable pub put_inode : Buf → ℕ → (ℕ → ℕ) → S5Fs → Option S5Fs
put_inode hdr nblk da fs =
    let i : Inode = head_inode hdr in
    if ifmt i.mode == ifchr || ifmt i.mode == ifblk
    then some (writeinode (set_addr i 0 (get24 pdp11 hdr (d_field di_addr))) fs)
    else elim (setblocks da nblk i fs) [
      | none ↦ none
      | some ((ok, i'), fs') ↦
          some (writeinode (record i' { size = get32 pdp11 hdr (d_field di_size) }) fs')
    ]

-- The inode behind its blocks, with the next header.
unfoldable pub finish_inode : Buf → ℕ → Head → Sink → Run (Head × S5Fs)
finish_inode hdr n h s = elim (s.fs) [
  | none ↦ undefined
  | some fs ↦ elim (put_inode hdr n s.da fs) [ none ↦ undefined | some fs' ↦ ended (h, fs') ]
]

unfoldable pub with_blocks : Buf → ℕ → Ahead → Run (Head × S5Fs)
with_blocks hdr n (at_end s) = finish_inode hdr n (no_head s.dr) s
with_blocks hdr n (ahead h s) = finish_inode hdr n (head h s.dr) s

-- The blocks and the inode of one TS_INODE header; `heap` is what `malloc` leaves in `da`.
unfoldable pub restore_inode : ℕ → (ℕ → ℕ) → Buf → Dr → S5Fs → Run (Head × S5Fs)
restore_inode fuel heap hdr dr fs =
    let n : ℕ = nblk_of dr.rec hdr in
    then_run (read_blocks fuel hdr n (record { dr = dr; b = 0; fs = some fs; da = heap }))
      (with_blocks hdr n)

unfoldable pub restore_head : ℕ → (ℕ → ℕ) → Buf → Dr → S5Fs → Run (Head × S5Fs)
restore_head fuel heap hdr dr fs = elim (htype hdr == ts_inode) [
  | true ↦ restore_inode fuel heap hdr dr fs
  | false ↦ ended (skip_map hdr dr, fs)
]

abbrev pub has_failed : S5Fs → Bool
has_failed fs = elim (fs.error) [ none ↦ false | some _ ↦ true ]

-- The loop of pass 2 from the header `hdr` on; without a next header it ends.
unfoldable pub second_next : (Buf → Dr → S5Fs → Run (Dr × S5Fs)) → Head × S5Fs → Run (Dr × S5Fs)
second_next again (no_head dr, fs) = ended (dr, fs)
second_next again (head h dr, fs) = again h dr fs

unfoldable pub second_pass : ℕ → (ℕ → ℕ) → Buf → Dr → S5Fs → Run (Dr × S5Fs)
second_pass zero heap hdr dr fs = out_of_fuel
second_pass (suc fuel) heap hdr dr fs = elim (htype hdr == ts_end || has_failed fs) [
  | true ↦ ended (dr, fs)
  | false ↦ then_run (restore_head (suc fuel) heap hdr dr fs) (second_next (second_pass fuel heap))
]

-- The options that cmd_restore fills: a target in the byte order of the PDP-11.
abbrev pub restore_opts : ℕ → ℕ → ℕ → Opts
restore_opts bsize base last = record {
  bsize = bsize;
  m = 0;
  n = 0;
  mtime = none;
  ninode = last + 8;
  endian = some pdp11;
  base = base;
  sysv = false;
}

-- How cmd_restore ends; a restored target comes with the count of bad checksums.
pub data Restored : Type 0 where
  not_a_dump : Restored
  no_inodes : Restored
  bad_target : Restored
  restored : S5Fs → ℕ → Restored

-- Pass 2 from its first header on, into a target with its free list, and s5fs_finish.
unfoldable pub fill_target : ℕ → (ℕ → ℕ) → S5Fs → Head → Run Restored
fill_target fuel heap fs (no_head dr) = ended (restored (finish fs) dr.badsum)
fill_target fuel heap fs (head hdr dr) =
    then_run (second_pass fuel heap hdr dr fs) (λ p. ended (restored (finish p.1) p.0.badsum))

-- The target `image` is open and has its size; `heap` is what `malloc` leaves in `da`. The tape is
-- read from its beginning on again.
unfoldable pub make_target : File → Buf → (ℕ → ℕ) → ℕ → ℕ → ℕ → ℕ → Dr → Run Restored
make_target image uninit heap now base blocks last dr =
    let fs : S5Fs = begin image uninit now blocks (restore_opts dr.rec base last) in
    if has_failed fs then ended bad_target else elim (freelist (record fs { s_tfree = 0 })) [
      | none ↦ undefined
      | some (_, fs') ↦ fill_target (tape_fuel dr) heap fs' (gethead (record dr { pos = 0 }))
    ]

unfoldable pub after_pass : File → Buf → (ℕ → ℕ) → ℕ → ℕ → ℕ → ℕ × Dr → Run Restored
after_pass image uninit heap now base blocks (last, dr) =
    if last == 0 then ended no_inodes else make_target image uninit heap now base blocks last dr

unfoldable pub both_passes : File → Buf → (ℕ → ℕ) → ℕ → ℕ → ℕ → Head → Run Restored
both_passes image uninit heap now base blocks (no_head dr) = ended not_a_dump
both_passes image uninit heap now base blocks (head hdr dr) =
    then_run (first_pass (tape_fuel dr) 0 hdr dr) (after_pass image uninit heap now base blocks)

-- cmd_restore of the tape `file` with records of `bsize` bytes.
unfoldable pub restore : File → ℕ → Bool → File → Buf → (ℕ → ℕ) → ℕ → ℕ → ℕ → Run Restored
restore file bsize force image uninit heap now base blocks =
    both_passes image uninit heap now base blocks
      (gethead (record { file = file; pos = 0; rec = bsize; force = force; badsum = 0 }))
