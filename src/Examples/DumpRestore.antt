-- ===== src/Examples/DumpRestore.antt =====
-- The theorem on restoring a dump, at a concrete volume: one file, with one block.
use s5fs.Base.{ℕ, ◌≤◌, ◌<◌, ◌≡◌, refl, subst, false, some, [], arith, ◌==◌, if◌then◌else◌}
use s5fs.Layout.{rootino, bsize_ok, profile}
use s5fs.Endian.{pdp11, get16, get24, get32}
use s5fs.Image.{File, read_at}
use s5fs.Writer.{itod, itoo, zeros, window}
use s5fs.Dump.Record.{Dump}
use s5fs.Dump.Run.{note_inode, find_used, write_tape, dump}
use s5fs.Dump.Leaves.{volume_of, slot_leaves}
use s5fs.Restore.Passes.{dino_of}
use s5fs.Inode.{bread, iget, decode_inode}
use s5fs.Restore.Run.{blocks_in, make_target, restore}
use s5fs.Restore.Headers.{at}
use s5fs.Restore.Inodes.{size_blocks, numbers, inode_leaves, TightInode}
use s5fs.Restore.OfDump.{used_in, restore-dump}

-- Inode 2 is a regular file of 5 bytes, whose block is 6.
abbrev inode_byte : ℕ → ℕ
inode_byte j =
    if j == 1088
    then 164
    else if j == 1089
    then 129
    else if j == 1098
    then 5
    else if j == 1101
    then 6
    else 0

abbrev volume : File
volume = record { size = 32768; byte = inode_byte }

abbrev to_dump : Dump
to_dump = record {
  r = record { bo = pdp11; base = 0; prof = profile 512; isize = 3; fsize = 64 };
  image = volume;
  uninit = zeros;
  file = record { size = 0; byte = λ j. 0 };
  spcl = zeros;
  tap = false;
  tapbuf = zeros;
  tapn = 0;
  ncount = 0;
}

last_is : (used_in to_dump).last_ino ≡ 2
unfolding find_used iget bread read_at decode_inode get16 window itod itoo profile note_inode
last_is = refl

dumped : dump 7 to_dump ≡ some (write_tape 7 (used_in to_dump) to_dump)
unfolding dump find_used iget bread read_at decode_inode get16 window itod itoo profile note_inode
dumped = refl

first_slot : (k : ℕ) → 1 ≤ k → k < 10 → numbers (dino_of (volume_of to_dump) 2) k ≡ 0
unfolding bread read_at get24 window itod itoo profile
first_slot k lo hi = ground arith

one_block : size_blocks 512 (dino_of (volume_of to_dump) 2) ≡ 1
unfolding bread read_at get32 window itod itoo profile blocks_in
one_block = refl

no_leaves : inode_leaves (volume_of to_dump) (dino_of (volume_of to_dump) 2) ≡ []
unfolding slot_leaves bread read_at get24 window itod itoo profile
no_leaves = refl

tight_two : TightInode 512 (volume_of to_dump) (dino_of (volume_of to_dump) 2)
unfolding profile bsize_ok
tight_two kind =
    (λ k lo hi far. first_slot k (omega (arith, far, one_block)) (omega arith), rw no_leaves tt)

all_tight :
    (k : ℕ)
    → rootino ≤ k
    → k ≤ (used_in to_dump).last_ino
    → TightInode 512 (volume_of to_dump) (dino_of (volume_of to_dump) k)
all_tight k lo hi =
    subst (λ j. TightInode 512 (volume_of to_dump) (dino_of (volume_of to_dump) j))
      (omega (arith, lo, hi, last_is)) tight_two

abbrev tape : Dump
tape = write_tape 7 (used_in to_dump) to_dump

restore-dump_example :
    restore tape.file 512 false volume zeros zeros 3 0 64
    ≡ make_target volume zeros zeros 3 0 64 (used_in to_dump).last_ino (at tape.file 512 false 0 0)
unfolding profile bsize_ok
restore-dump_example =
    restore-dump 7 512 to_dump tape false volume zeros zeros 3 0 64 refl refl refl refl refl
      (omega (arith, last_is)) all_tight dumped
