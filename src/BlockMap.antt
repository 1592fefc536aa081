-- ===== src/BlockMap.antt =====
-- The file map: s5fs_build_ind and s5fs_setblocks lay it down (s5fs_core.c), fsr_lbn_route,
-- fsr_ind_index and bmap read it (fsread.c).
--
-- A pointer into an array of block numbers is a function from indices. An entry index is below
-- `nindir`, at most 512, and a level covers at most 512 ^ 2 blocks for each entry, so their
-- product does not wrap.
pub mod Route
pub mod Digits
pub mod Tree
pub mod Build
pub mod Levels
pub mod Whole
use s5fs.Base.{
  min, ℕ, zero, suc, ◌+◌, ◌-◌, ◌*◌, ◌/◌, ◌%◌, Bool, true, false, ◌&&◌, Option, none, some, ltb,
  ◌==◌, if◌then◌else◌,
}
use s5fs.Layout.{u32, level_cap}
use s5fs.Endian.{Buf, Endian, put32, get32}
use s5fs.Image.{File}
use s5fs.Writer.{fail, wtblk, zeros, too_large, Op, pure, do_op, ◌>>=◌, ◌>>◌, alloc}
use s5fs.Inode.{Inode, Fsr, bread}

-- `for (k = 1; k < level; k++) d *= nindir;` over uint32_t, for level `suc k`.
unfoldable pub per_entry : ℕ → ℕ → ℕ
per_entry nindir zero = 1
per_entry nindir (suc k) = u32 (per_entry nindir k * nindir)

-- The level (0 is direct), the di_addr slot, and the index within the slot's tree; `none` is -1.
unfoldable pub lbn_route : ℕ → ℕ → ℕ → Option (ℕ × ℕ × ℕ)
unfolding level_cap
lbn_route laddr nindir lbn =
    let l1 : ℕ = lbn - laddr in
    let l2 : ℕ = l1 - level_cap nindir 1 in
    let l3 : ℕ = l2 - level_cap nindir 2 in
    if ltb lbn laddr
    then some (0, lbn, 0)
    else if ltb l1 (level_cap nindir 1)
    then some (1, laddr, l1)
    else if ltb l2 (level_cap nindir 2)
    then some (2, laddr + 1, l2)
    else if ltb l3 (level_cap nindir 3)
    then some (3, laddr + 2, l3)
    else none

unfoldable pub ind_index : ℕ → ℕ → ℕ → ℕ
ind_index nindir idx level = idx / per_entry nindir (level - 1) % nindir

-- The loop of bmap from level `l` down: a hole, or a block that cannot be read, gives 0.
unfoldable pub descend : Fsr → File → Buf → ℕ → ℕ → ℕ → ℕ
descend r fd uninit idx zero phys = phys
descend r fd uninit idx (suc l) phys = if phys == 0 then 0 else elim (bread r fd phys uninit) [
  | none ↦ 0
  | some buf ↦ descend r fd uninit idx l (get32 r.bo buf (4 * ind_index r.prof.nindir idx (suc l)))
]

-- Logical block to physical block, 0 for a hole.
unfoldable pub bmap : Fsr → File → Buf → (ℕ → ℕ) → ℕ → ℕ
bmap r fd uninit addr lbn = elim (lbn_route r.prof.laddr r.prof.nindir lbn) [
  | none ↦ 0
  | some (lvl, slot, idx) ↦ descend r fd uninit idx lvl (addr slot)
]

-- The loop of s5fs_build_ind over the entries from `e` on, `n` of them at most; `child` gives the
-- block for the `sub` blocks of an entry.
unfoldable pub fill_entries : ((ℕ → ℕ) → ℕ → Op ℕ) → Endian → ℕ → (ℕ → ℕ) → ℕ → ℕ → ℕ → Buf → Op Buf
fill_entries child bo per da count zero e blk = pure blk
fill_entries child bo per da count (suc n) e blk =
    if ltb (e * per) count
    then (do
      b ← child (λ k. da (e * per + k)) (min (count - e * per) per)
      fill_entries child bo per da count n (e + 1) (put32 bo blk (4 * e) b))
    else pure blk

-- At level 0 the one block stands for itself: `(level == 1) ? da[off] : …`. `malloc` succeeds.
unfoldable pub build_ind : ℕ → (ℕ → ℕ) → ℕ → Op ℕ
build_ind zero da count fs = some (da 0, fs)
build_ind (suc l) da count fs =
    (do
      bno ← alloc
      blk ←
          fill_entries (build_ind l) fs.bo (per_entry fs.prof.nindir l) da count fs.prof.nindir 0
            zeros
      do_op (wtblk bno blk)
      pure bno)
      fs

-- `in->addr[slot] = b`
abbrev pub set_addr : Inode → ℕ → ℕ → Inode
set_addr i slot b = record i { addr = λ k. if k == slot then b else i.addr k }

-- The slots before the indirect ones: the first blocks, and zeros.
unfoldable pub direct_slots : ℕ → ℕ → (ℕ → ℕ) → ℕ → Inode → Inode
direct_slots naddr laddr da n i = record i {
  addr = λ k. if ltb k naddr then (if ltb k laddr && ltb k n then da k else 0) else i.addr k;
}

-- One level of s5fs_setblocks: the inode, the blocks passed over, and those that are left.
unfoldable pub map_level : ℕ → ℕ → (ℕ → ℕ) → ℕ → Inode → Op (ℕ × Inode)
map_level level slot da rest i fs =
    let c : ℕ = min rest (level_cap fs.prof.nindir level) in
    (do b ← build_ind level da c; pure (c, set_addr i slot b)) fs

-- The levels from `level` on, `k` of them. `false` is the return value -1, with the failure in the
-- handle.
unfoldable pub map_levels : ℕ → ℕ → (ℕ → ℕ) → ℕ → Inode → Op (Bool × Inode)
map_levels zero level da rest i fs =
    if rest == 0 then some ((true, i), fs) else some ((false, i), fail too_large fs)
map_levels (suc k) level da rest i fs =
    if rest == 0
    then some ((true, i), fs)
    else (do
      (c, i') ← map_level level (fs.prof.laddr + level - 1) da rest i
      map_levels k (level + 1) (λ q. da (c + q)) (rest - c) i')
        fs

unfoldable pub setblocks : (ℕ → ℕ) → ℕ → Inode → Op (Bool × Inode)
setblocks da n i fs =
    map_levels 3 1 (λ q. da (fs.prof.laddr + q)) (n - fs.prof.laddr)
      (direct_slots fs.prof.naddr fs.prof.laddr da n i) fs
