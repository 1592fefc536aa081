-- ===== src/Examples/Disk.antt =====
-- The theorems of the on-disk records at concrete values.
use s5fs.Base.{
  ◌-◌, ◌^◌, ℕ, ◌+◌, ◌/◌, ◌%◌, ◌≤◌, ◌<◌, ◌≡◌, refl, ◌≢◌, ◌⊎◌, inl, false, none, some, List, [], ◌∷◌,
  map, arith, dec_lt, ◌==◌, if◌then◌else◌, All, Fresh, Distinct,
}
use s5fs.Layout.{bsize_ok, profile}
use s5fs.Endian.{codecs_read_back, Buf, pdp11, be, put16, get16, put24, get24, put32, get32}
use s5fs.Writer.{itod, itoo, zeros, S5Fs, wtblk}
use s5fs.FreeList.Volume.{IsVolume, InData}
use s5fs.FreeList.Stack.{SameLimits}
use s5fs.Mkfs.{permute, freelist, begin, Opts, zero_ilist, ninodeblks, interleave_n}
use s5fs.Mkfs.Start.{freelist-begin}
use s5fs.Mkfs.Groups.{IsOrder, Listed}
use s5fs.Mkfs.Interleave.{permute-IsOrder}
use s5fs.Mkfs.Whole.{IsNew, freelist-IsVolume}
use s5fs.Endian.Names.{endian_name, endian_parse, endian_parse-endian_name}
use s5fs.Reader.Content.{file_byte, read_count, AllReadable, readfile-file_byte}
use s5fs.Reader.Bytes.{readfile}
use s5fs.Mkfs.Dir.{no_inode}
use s5fs.FreeList.Examples.{disk, vol, vol-IsVolume}
use s5fs.BlockMap.{bmap, lbn_route, descend}
use s5fs.Inode.{Inode, Fsr, iget, writeinode}
use s5fs.Inode.RoundTrip.{reader_of, SameInode, iget-writeinode}
use s5fs.BlockMap.Route.{Routes, lbn_route-Routes}
use s5fs.Reader.Walk.{WalkSet, enter_all, IsOpen, enter_all-Distinct}
use s5fs.Superblock.{mount, finish, blank}
use s5fs.Superblock.RoundTrip.{IsStorable, SameSuper, mount-finish}

codecs_read_back_example :
    (get16 pdp11 (put16 pdp11 zeros 8 0xaabbccdd) 8 ≡ 0xaabbccdd % 2 ^ 16)
    × (get24 pdp11 (put24 pdp11 zeros 8 0xaabbccdd) 8 ≡ 0xaabbccdd % 2 ^ 24)
    × (get32 pdp11 (put32 pdp11 zeros 8 0xaabbccdd) 8 ≡ 0xaabbccdd % 2 ^ 32)
codecs_read_back_example = codecs_read_back pdp11 zeros 8 0xaabbccdd

-- The middle-endian order of the PDP-11, as the comment at the head of s5endian.c gives it.
pdp11_bytes :
    map (put32 pdp11 zeros 0 0xaabbccdd) (0 ∷ 1 ∷ 2 ∷ 3 ∷ []) ≡ 0xbb ∷ 0xaa ∷ 0xdd ∷ 0xcc ∷ []
unfolding put32
pdp11_bytes = refl

lbn_route-Routes_example : Routes 10 128 17000 (lbn_route 10 128 17000)
lbn_route-Routes_example = lbn_route-Routes 10 128 17000 (omega arith)

abbrev seen_three : WalkSet
seen_three = record { seen = λ i. i == 3; n = 8 }

enter_all-Distinct_example :
    Distinct (enter_all seen_three (2 ∷ 5 ∷ 2 ∷ 3 ∷ 9 ∷ [])).0
    × All (IsOpen seen_three) (enter_all seen_three (2 ∷ 5 ∷ 2 ∷ 3 ∷ 9 ∷ [])).0
enter_all-Distinct_example = enter_all-Distinct (2 ∷ 5 ∷ 2 ∷ 3 ∷ 9 ∷ []) seen_three

vol-IsStorable : IsStorable vol
unfolding bsize_ok profile
vol-IsStorable = record {
  bsize = refl;
  derived = refl;
  ilist = omega arith;
  isize = omega arith;
  inside = omega arith;
  fsize = omega arith;
  nfree = omega arith;
  free = λ i h. ground arith;
  ninode = omega arith;
  inode = λ i h. omega arith;
  tfree = omega arith;
  tinode = omega arith;
  m = omega arith;
  n = omega arith;
  time = omega arith;
}

mount-finish_example :
    let r = mount (finish vol).fd zeros 512 pdp11 0 in
    SameSuper r vol × (r.error ≡ none) × (r.prof ≡ vol.prof)
mount-finish_example = mount-finish vol zeros vol-IsStorable vol-IsVolume.mounted

abbrev file : Inode
file = record {
  number = 5;
  mode = 0o100644;
  nlink = 1;
  uid = 3;
  gid = 4;
  size = 700;
  atime = 0;
  mtime = 99;
  ctime = 0;
  addr = λ k. if k == 0 then 9 else if k == 1 then 7 else 0;
}

iget-writeinode_example :
    (o : Inode) × (iget (reader_of vol) (writeinode file vol).fd zeros 5 ≡ some o)
    × SameInode 13 0 o file
    × ((writeinode file vol).fd.byte 1024 ≡ vol.fd.byte 1024)
unfolding itod itoo profile bsize_ok
iget-writeinode_example =
    iget-writeinode vol file zeros 1024
      (record {
        mounted = vol-IsVolume.mounted;
        profile = record { size = refl; derived = refl };
        positive = omega arith;
        short = omega arith;
        listed = omega arith;
        data_after = omega arith;
      })
      (record {
        mode = omega arith;
        nlink = omega arith;
        uid = omega arith;
        gid = omega arith;
        size = omega arith;
        atime = omega arith;
        mtime = omega arith;
        ctime = omega arith;
        addr = λ k h. ground arith;
      })
      (omega arith) (inl (omega arith))

-- A file of a block and a hole behind it.
abbrev sparse : Inode
sparse = record no_inode {
  number = 3;
  mode = 0x81a4;
  size = 700;
  addr = λ k. if k == 0 then 5 else 0;
}

abbrev vol_reader : Fsr
vol_reader = reader_of vol

sparse-AllReadable : AllReadable vol_reader disk zeros sparse.addr 700
unfolding bmap lbn_route descend
sparse-AllReadable p lt = elim (dec_lt p 512) [
  | yes first ↦ let z : p / 512 ≡ 0 = omega arith in rw z (omega arith)
  | no later ↦ let z : p / 512 ≡ 1 = omega arith in rw z (omega arith)
]

readfile-file_byte_example :
    (buf' : Buf) × (readfile vol_reader disk zeros sparse zeros 400 500
      ≡ (read_count sparse 400 500, buf'))
    × ((j : ℕ)
        → j < read_count sparse 400 500
        → buf' j ≡ file_byte vol_reader disk zeros sparse.addr (500 + j))
    × ((j : ℕ) → read_count sparse 400 500 ≤ j → buf' j ≡ 0)
unfolding bsize_ok zeros
readfile-file_byte_example =
    readfile-file_byte vol_reader disk zeros sparse zeros 400 500 refl (omega arith)
      sparse-AllReadable

endian_parse-endian_name_example : endian_parse (some (endian_name be)) ≡ some be
endian_parse-endian_name_example = endian_parse-endian_name be

-- The volume before its free list is built, with an interleave of 10 blocks and a gap of 5.
abbrev bare : S5Fs
bare = record vol { s_nfree = 0; s_tfree = 0; ino = 0 }

bare-IsNew : IsNew bare
unfolding profile bsize_ok
bare-IsNew = record {
  mounted = vol-IsVolume.mounted;
  geometry = record { size = refl; derived = refl };
  cache = refl;
  total = refl;
  first = refl;
  some_group = omega arith;
  bounded = omega arith;
  ilist = omega arith;
  data_after = omega arith;
}

freelist-IsVolume_example :
    (fs' : S5Fs) × (xs : List ℕ) × (freelist bare ≡ some (tt, fs'))
    × IsVolume fs' xs
    × ((x : ℕ) → InData bare x → (x + 1 < 64) ⊎ (63 % 10 ≢ 0) → Listed x xs)
    × ((x : ℕ) → x + 1 ≡ 64 → 63 % 10 ≡ 0 → Fresh x xs)
    × SameLimits bare fs'
freelist-IsVolume_example = freelist-IsVolume bare bare-IsNew

abbrev plain : Opts
plain = record {
  bsize = 512;
  m = 0;
  n = 0;
  mtime = none;
  ninode = 0;
  endian = some pdp11;
  base = 0;
  sysv = false;
}

begins : (begin disk zeros 7 64 plain).error ≡ none
unfolding begin zero_ilist ninodeblks bsize_ok profile wtblk interleave_n blank
begins = refl

freelist-begin_example :
    let fs : S5Fs = record (begin disk zeros 7 64 plain) { s_tfree = 0 } in
    (fs' : S5Fs) × (xs : List ℕ) × (freelist fs ≡ some (tt, fs'))
    × IsVolume fs' xs
    × ((x : ℕ) → InData fs x → (x + 1 < fs.s_fsize) ⊎ ((fs.s_fsize - 1) % fs.s_n ≢ 0) → Listed x xs)
    × ((x : ℕ) → x + 1 ≡ fs.s_fsize → (fs.s_fsize - 1) % fs.s_n ≡ 0 → Fresh x xs)
    × SameLimits fs fs'
freelist-begin_example = freelist-begin disk zeros 7 64 plain begins

permute-IsOrder_example : IsOrder 10 (permute 10 5 10 (λ q. false) 0 0 (λ i. 0))
permute-IsOrder_example = permute-IsOrder 10 5 (λ i. 0) (omega arith)
