-- ===== src/Examples/Fsck.antt =====
-- The theorems of fsck at a concrete volume.
use s5fs.Base.{
  ℕ, ◌+◌, ◌-◌, ◌*◌, ◌<◌, ◌≡◌, refl, ◌≢◌, true, false, ◌||◌, some, List, [], ◌∷◌, arith, ltb, ◌==◌,
  if◌then◌else◌, ◌↔◌,
}
use s5fs.Layout.{dinodesz, clamp_nfree, bsize_ok, Profile, profile, sb_free}
use s5fs.Endian.{Buf, le, get16, get24, get32, Outside}
use s5fs.Image.{File, read_at, block}
use s5fs.Writer.{itod, itoo, zeros, window, bfree}
use s5fs.Inode.{Inode, decode_inode, iget, slot}
use s5fs.Fsck.Check.{
  Ck, ck_rdblk, load_super, check_partition, read_inode, scan_inodes, Checks, scan_inode,
  count_blocks,
}
use s5fs.Fsck.Salvage.{salvage, rep_bfree}
use s5fs.Fsck.Rebuild.{as_handle, IsSalvaged, salvage-IsSalvaged, rep_bfree-bfree}
use s5fs.FreeList.Chain.{Chain}
use s5fs.Fsck.Agrees.{IsReadable, IsMarked, check_free_list-IsMarked}
use s5fs.Fsck.Clean.{check_free_list-check_partition}
use s5fs.Fsck.Walk.{
  finished, Outcome, exited, out_of_fuel, check_free_list, follow, visit, turn, walk,
}
use s5fs.Fsck.Partition.{AllFrom, IsExact, check_partition-IsExact}
use s5fs.Fsck.Repair.{repaired, repair-clean}
use s5fs.Fsck.Clri.{on_volume, clri-iget}
use s5fs.Inode.RoundTrip.{IsInode, reader_of}
use s5fs.Fsck.Reload.{recheck}
use s5fs.Fsck.Total.{fsck_run-ends, fsck_run-reads}
use s5fs.Fsck.Ends.{check_free_list-ends}
use s5fs.Fsck.Reach.{mark_reached-ends}
use s5fs.Fsck.Run.{check_blocks, check_names, finish_run, ck_open, fsck_run, clri}
use s5fs.Fsck.Dirs.{each_block, each_inode, mark_reached}
use s5fs.Fsck.Links.{reach_fuel, check_links, tally, how_many}

-- A superblock of 64 blocks with a one-block i-list and blocks 9 and 7 free, little-endian.
abbrev super : Buf
super j =
    if j == 0
    then 3
    else if j == 2
    then 64
    else if j == 6
    then 3
    else if j == 12
    then 7
    else if j == 16
    then 9
    else 0

abbrev image : File
image = record {
  size = 64 * 512;
  byte = λ j. if ltb j 512 then 0 else if ltb j 1024 then super (j - 512) else 0;
}

abbrev narrow : Profile
narrow = record {
  bsize = 512;
  inopb = 8;
  naddr = 13;
  laddr = 10;
  nindir = 128;
  ndirect = 32;
  clsize = 1;
}

-- The checker behind phase 1, where every data block but 7 and 9 has a reference.
abbrev checker : Ck
checker = record {
  fd = image;
  base = 0;
  bo = le;
  prof = narrow;
  isize = 3;
  fsize = 64;
  nfree = 3;
  tfree = 2;
  tinode = 8;
  use_map = λ i. if i == 7 || i == 9 then 0 else 1;
  errors = 0;
}

checker-IsReadable : IsReadable checker
checker-IsReadable = record {
  ok = refl;
  large = omega arith;
  fits = omega arith;
  small = omega arith;
  low = omega arith;
}

checker-Chain : Chain le (block image 0 512) 3 (λ k. get32 le super (sb_free + 4 * k)) (9 ∷ 7 ∷ [])
unfolding get32
checker-Chain = omega arith

check_free_list-IsMarked_example :
    (c' : Ck) × (check_free_list super checker ≡ finished c') × IsMarked (9 ∷ 7 ∷ []) checker c'
check_free_list-IsMarked_example =
    check_free_list-IsMarked super checker (9 ∷ 7 ∷ []) checker-IsReadable checker-Chain
      (omega arith) (omega arith)

check_free_list-check_partition_example :
    (c' : Ck) × (check_free_list super checker ≡ finished c') × ((check_partition c').errors ≡ 0)
check_free_list-check_partition_example =
    check_free_list-check_partition super checker (9 ∷ 7 ∷ []) checker-IsReadable checker-Chain
      (omega arith) (omega arith) (λ i lo hi fresh. ground (arith, fresh.0, fresh.1.0))

repair-clean_example :
    (c' : Ck) × (check_free_list
        (repaired zeros 1 super checker).1
        (recheck (repaired zeros 1 super checker))
      ≡ finished c')
    × ((check_partition c').errors ≡ 0)
unfolding get16 get32
repair-clean_example = repair-clean zeros 1 super checker checker-IsReadable (omega arith) refl refl

salvage-IsSalvaged_example : (xs : List ℕ) × IsSalvaged checker (salvage zeros checker) xs
salvage-IsSalvaged_example = salvage-IsSalvaged zeros checker checker-IsReadable (omega arith)

rep_bfree-bfree_example :
    as_handle (rep_bfree 9 (checker, record { fr = zeros; nf = 50; tf = 1 }))
    ≡ bfree 9 (as_handle (checker, record { fr = zeros; nf = 50; tf = 1 }))
rep_bfree-bfree_example = rep_bfree-bfree 9 (checker, record { fr = zeros; nf = 50; tf = 1 })

check_partition-IsExact_example :
    ((check_partition checker).errors ≡ 0) ↔ AllFrom (IsExact checker) (64 - 3) 3
check_partition-IsExact_example = check_partition-IsExact checker

check_free_list-ends_example : check_free_list super checker ≢ out_of_fuel
check_free_list-ends_example = check_free_list-ends super checker (omega arith)

mark_reached-ends_example : mark_reached (reach_fuel 8) checker 8 (λ i. false) 2 ≢ out_of_fuel
mark_reached-ends_example = mark_reached-ends checker 8 (λ i. false) 2

-- The superblock of the image as fsck reads it, and what it opens.
abbrev super_read : Buf
super_read i = if ltb i 512 then image.byte (0 + 1 * 512 + i) else 0

abbrev opened : Ck
opened = record checker { tfree = 0; tinode = 0; use_map = λ i. 0 }

image_open : ck_open image zeros 512 (some le) 0 ≡ some (opened, super_read)
unfolding ck_open load_super profile bsize_ok read_at get16 get32 zeros clamp_nfree
image_open = refl

abbrev everything : Checks
everything = record { blocks = true; links = true }

fsck_run-ends_example : fsck_run true everything zeros super_read opened ≢ out_of_fuel
fsck_run-ends_example =
    fsck_run-ends image zeros 512 (some le) 0 opened super_read true everything zeros image_open

-- The checker's state where a run has ended.
abbrev state_of : Outcome Ck → Ck
state_of (finished c) = c
state_of exited = opened
state_of out_of_fuel = opened

-- No inode of the image is in use, so that 59 of its 61 data blocks are neither used nor free.
image_checked :
    fsck_run false everything zeros super_read opened
    ≡ finished (state_of (fsck_run false everything zeros super_read opened))
unfolding fsck_run scan_inodes scan_inode read_inode check_blocks check_names check_links finish_run
    check_free_list walk turn visit follow check_partition count_blocks tally each_inode each_block
    ck_rdblk read_at get16 get24 get32 decode_inode itod itoo window how_many mark_reached
image_checked = refl

fsck_run-reads_example : (state_of (fsck_run false everything zeros super_read opened)).fd ≡ image
fsck_run-reads_example =
    fsck_run-reads image zeros 512 (some le) 0 opened
      (state_of (fsck_run false everything zeros super_read opened)) super_read everything zeros
      image_open image_checked

checker-IsInode : IsInode (on_volume checker) 4
unfolding itod profile bsize_ok
checker-IsInode = record {
  mounted = checker-IsReadable;
  profile = record { size = refl; derived = refl };
  positive = omega arith;
  short = omega arith;
  listed = omega arith;
  data_after = omega arith;
}

clri-iget_example :
    (c' : Ck) × (clri 4 checker ≡ some c')
    × ((o : Inode) × (iget (reader_of (on_volume checker)) c'.fd zeros 4 ≡ some o)
        × (o.mode ≡ 0)
        × (o.nlink ≡ 0)
        × (o.size ≡ 0)
        × ((k : ℕ) → k < 13 → o.addr k ≡ 0))
    × ((j : ℕ)
        → Outside j (0 + itod 8 4 * 512 + slot (on_volume checker) 4) dinodesz
        → c'.fd.byte j ≡ checker.fd.byte j)
clri-iget_example = clri-iget 4 checker zeros checker-IsInode
