-- ===== src/Mkfs/Examples.antt =====
-- A small volume made by s5fs_mkfs.
use s5fs.Base.{ℕ, false, Option, none, some}
use s5fs.Endian.{pdp11}
use s5fs.Mkfs.{mkfs, Opts}

abbrev opts : Opts
opts = record {
  bsize = 512;
  m = 0;
  n = 0;
  mtime = some 100;
  ninode = 0;
  endian = some pdp11;
  base = 0;
  sysv = false;
}

summary : Option (ℕ × ℕ × ℕ × ℕ)
unfolding mkfs
summary = elim (mkfs (record { size = 0; byte = λ j. 0 }) (λ j. 0) 7 20 opts) [
  | none ↦ none
  | some fs ↦ some (fs.s_tfree, fs.s_tinode, fs.s_isize, elim (fs.error) [ none ↦ 0 | some _ ↦ 1 ])
]
