-- ===== src/Rw/Map.antt =====
-- Block maps of mounted files: per_at, ind_map, rw_bmap, bfree_at, ind_free and ifree_blocks of
-- s5fs_rw.c.
--
-- `ds` is the caller's copy of the 64 bytes of the inode. The level that the code calls
-- `levels` is `suc l` in ind_map and bfree_at.
use s5fs.Base.{
  ℕ, zero, suc, ◌+◌, ◌*◌, ◌/◌, ◌%◌, Bool, true, false, ◌&&◌, Option, none, some, ◌==◌,
  if◌then◌else◌,
}
use s5fs.Layout.{di_addr}
use s5fs.Endian.{Buf, put24, get24, put32, get32}
use s5fs.Writer.{rdblk, wtblk, zeros, S5Fs, Op, pure, do_op, ◌>>=◌, ◌>>◌, alloc, bfree}
use s5fs.BlockMap.{per_entry, lbn_route}

-- `s5fs_alloc` into the entry at `o` of the indirect block `iblk`, which holds `ib`.
unfoldable pub fill_leaf : ℕ → Buf → ℕ → Op ℕ
fill_leaf iblk ib o fs = (do phys ← alloc; do_op (wtblk iblk (put32 fs.bo ib o phys)); pure phys) fs

-- The same with a zeroed indirect block.
unfoldable pub fill_child : ℕ → Buf → ℕ → Op ℕ
fill_child iblk ib o fs =
    (do
      child ← alloc
      do_op (wtblk child zeros)
      do_op (wtblk iblk (put32 fs.bo ib o child))
      pure child)
      fs

unfoldable pub ind_map : Bool → ℕ → ℕ → ℕ → Op ℕ
ind_map allocate zero iblk idx fs =
    let (ib, fs1) = rdblk iblk fs.uninit fs in
    let phys : ℕ = get32 fs.bo ib (4 * idx) in
    if phys == 0 && allocate then fill_leaf iblk ib (4 * idx) fs1 else some (phys, fs1)
ind_map allocate (suc l) iblk idx fs =
    let (ib, fs1) = rdblk iblk fs.uninit fs in
    let per : ℕ = per_entry fs.prof.nindir (suc l) in
    let child : ℕ = get32 fs.bo ib (4 * (idx / per)) in
    let below : Option (ℕ × S5Fs) = ind_map allocate l child (idx % per) fs1 in
    let fresh : Option (ℕ × S5Fs) =
      (do b ← fill_child iblk ib (4 * (idx / per)); ind_map allocate l b (idx % per)) fs1 in
    if child == 0 then (if allocate then fresh else some (0, fs1)) else below

-- The block, `ds` behind the call, and whether `*dirty` was set.
unfoldable pub bmap_level : Bool → Buf → ℕ → ℕ → ℕ → Op (ℕ × Buf × Bool)
bmap_level allocate ds slot idx zero fs =
    let o : ℕ = di_addr + 3 * slot in
    let phys : ℕ = get24 fs.bo ds o in
    if phys == 0 && allocate
    then (do b ← alloc; pure (b, put24 fs.bo ds o b, true)) fs
    else some ((phys, ds, false), fs)
bmap_level allocate ds slot idx (suc l) fs =
    let o : ℕ = di_addr + 3 * slot in
    let iblk : ℕ = get24 fs.bo ds o in
    if iblk == 0
    then if allocate
      then (do
        b ← alloc
        do_op (wtblk b zeros)
        phys ← ind_map allocate l b idx
        pure (phys, put24 fs.bo ds o b, true))
          fs
      else some ((0, ds, false), fs)
    else (do phys ← ind_map allocate l iblk idx; pure (phys, ds, false)) fs

unfoldable pub rw_bmap : Bool → Buf → ℕ → Op (ℕ × Buf × Bool)
rw_bmap allocate ds lbn fs = elim (lbn_route fs.prof.laddr fs.prof.nindir lbn) [
  | none ↦ some ((0, ds, false), fs)
  | some (lvl, slot, idx) ↦ bmap_level allocate ds slot idx lvl fs
]

-- The loop of bfree_at and what follows it. `ib` is the buffer that the loop reads into.
unfoldable pub free_down : ℕ → Buf → ℕ → ℕ → S5Fs → S5Fs
free_down zero ib iblk idx fs =
    let (ib', fs1) = rdblk iblk ib fs in
    let b : ℕ = get32 fs.bo ib' (4 * idx) in
    if iblk == 0
    then fs
    else if b == 0
    then fs1
    else wtblk iblk (put32 fs.bo ib' (4 * idx) 0) (bfree b fs1)
free_down (suc l) ib iblk idx fs =
    let (ib', fs1) = rdblk iblk ib fs in
    let d : ℕ = per_entry fs.prof.nindir (suc l) in
    let rest : S5Fs = free_down l ib' (get32 fs.bo ib' (4 * (idx / d))) (idx % d) fs1 in
    if iblk == 0 then fs else rest

-- `ds` and the handle behind the call.
unfoldable pub bfree_at : Buf → ℕ → S5Fs → Buf × S5Fs
bfree_at ds lbn fs = elim (lbn_route fs.prof.laddr fs.prof.nindir lbn) [
  | none ↦ (ds, fs)
  | some (zero, slot, idx) ↦
      let o : ℕ = di_addr + 3 * slot in
      let b : ℕ = get24 fs.bo ds o in if b == 0 then (ds, fs) else (put24 fs.bo ds o 0, bfree b fs)
  | some (suc l, slot, idx) ↦
      (ds, free_down l fs.uninit (get24 fs.bo ds (di_addr + 3 * slot)) idx fs)
]

-- `free` for each block number that is not 0, `n` of them.
unfoldable pub free_all : (ℕ → S5Fs → S5Fs) → (ℕ → ℕ) → ℕ → S5Fs → S5Fs
free_all free f zero fs = fs
free_all free f (suc n) fs =
    let before : S5Fs = free_all free f n fs in if f n == 0 then before else free (f n) before

-- Level 0 is a data block.
unfoldable pub ind_free : ℕ → ℕ → S5Fs → S5Fs
ind_free zero b fs = bfree b fs
ind_free (suc l) iblk fs =
    let (ib, fs1) = rdblk iblk fs.uninit fs in
    let all : S5Fs = free_all (ind_free l) (λ k. get32 fs.bo ib (4 * k)) fs.prof.nindir fs1 in
    if iblk == 0 then fs else bfree iblk all

unfoldable pub ifree_blocks : Buf → S5Fs → S5Fs
ifree_blocks ds fs =
    let at : ℕ → ℕ = λ k. get24 fs.bo ds (di_addr + 3 * k) in
    let fs1 : S5Fs = free_all (ind_free 0) at fs.prof.laddr fs in
    let fs2 : S5Fs = ind_free 1 (at fs.prof.laddr) fs1 in
    let fs3 : S5Fs = ind_free 2 (at (fs.prof.laddr + 1)) fs2 in
    ind_free 3 (at (fs.prof.laddr + 2)) fs3
