-- ===== src/FreeList/Examples.antt =====
-- The theorems of the free list at concrete volumes.
use s5fs.Base.{some, ◌≡◌, List, ◌==◌, refl, if◌then◌else◌, arith, [], none, ◌∷◌, false, ◌*◌}
use s5fs.Image.{File}
use s5fs.Writer.{bfree, alloc, S5Fs}
use s5fs.FreeList.Volume.{IsVolume}
use s5fs.Endian.{pdp11}
use s5fs.FreeList.Trace.{done, give, run-Runs, gave, store, stored, take, took, Call, run, Runs}
use s5fs.FreeList.Stack.{alloc-cons, SameLimits, bfree-cons, SameBut}

-- 64 blocks of 512 bytes, a one-block i-list, and blocks 9 and 7 free.
abbrev pub disk : File
disk = record { size = 64 * 512; byte = λ j. 0 }

abbrev pub vol : S5Fs
vol = record {
  fd = disk;
  uninit = λ i. 0;
  base = 0;
  sysv = false;
  error = none;
  bo = pdp11;
  prof = record {
    bsize = 512;
    inopb = 8;
    naddr = 13;
    laddr = 10;
    nindir = 128;
    ndirect = 32;
    clsize = 1;
  };
  s_isize = 3;
  s_fsize = 64;
  s_nfree = 3;
  s_free = λ i. if i == 2 then 9 else if i == 1 then 7 else 0;
  s_ninode = 0;
  s_inode = λ i. 0;
  s_tfree = 2;
  s_tinode = 8;
  s_m = 5;
  s_n = 10;
  s_time = 0;
  ino = 3;
  adr = λ i. 0;
}

pub vol-IsVolume : IsVolume vol (9 ∷ 7 ∷ [])
vol-IsVolume = record {
  mounted = record {
    ok = refl;
    large = omega arith;
    fits = omega arith;
    small = omega arith;
    low = omega arith;
  };
  chain = omega arith;
  range = omega arith;
  distinct = omega arith;
  counted = refl;
}

-- The same volume with no free block.
abbrev full : S5Fs
full = record vol { s_nfree = 1; s_tfree = 0 }

full-IsVolume : IsVolume full []
full-IsVolume = record {
  mounted = vol-IsVolume.mounted;
  chain = omega arith;
  range = tt;
  distinct = tt;
  counted = refl;
}

alloc-cons_example :
    (fs' : S5Fs) × (alloc vol ≡ some (9, fs'))
    × IsVolume fs' (7 ∷ [])
    × (fs'.fd ≡ disk)
    × SameLimits vol fs'
alloc-cons_example = alloc-cons vol 9 (7 ∷ []) vol-IsVolume

bfree-cons_example : IsVolume (bfree 12 vol) (12 ∷ 9 ∷ 7 ∷ []) × SameBut 12 vol (bfree 12 vol)
bfree-cons_example = bfree-cons vol 12 (9 ∷ 7 ∷ []) vol-IsVolume (omega arith) (omega arith)

-- Take 9, write it, give back 12, take it again, then 7.
abbrev script : List Call
script = take ∷ store 9 (λ i. 5) ∷ give 12 ∷ take ∷ take ∷ []

script-Runs : Runs 3 64 (9 ∷ 7 ∷ []) script (9 ∷ 12 ∷ 7 ∷ []) []
script-Runs = took (
    stored (omega arith) (omega arith) (omega arith)
      (gave (omega arith) (omega arith) (omega arith) (took (took done))))

run-Runs_example : (fs' : S5Fs) × (run script vol ≡ some (9 ∷ 12 ∷ 7 ∷ [], fs')) × IsVolume fs' []
run-Runs_example = run-Runs vol vol-IsVolume script-Runs
