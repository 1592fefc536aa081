-- ===== src/Examples/Maps.antt =====
-- The theorem on the file map at a concrete volume: ten direct blocks, a hole, and a block behind it.
use s5fs.Base.{
  ℕ, ◌+◌, ◌-◌, ◌≤◌, ◌<◌, ◌≡◌, refl, true, some, List, [], ◌∷◌, arith, ◌==◌, if◌then◌else◌, length,
  Fresh,
}
use s5fs.Layout.{bsize_ok, level_cap, profile, IsProfile}
use s5fs.Writer.{zeros, S5Fs}
use s5fs.BlockMap.Levels.{need_levels, room}
use s5fs.BlockMap.Tree.{need, needs}
use s5fs.BlockMap.Whole.{bmap-setblocks}
use s5fs.BlockMap.{setblocks, bmap, per_entry}
use s5fs.FreeList.Examples.{vol, vol-IsVolume}
use s5fs.FreeList.Volume.{IsVolume, blocks}
use s5fs.Inode.{Inode}
use s5fs.Inode.RoundTrip.{reader_of}

abbrev numbers_of : ℕ → ℕ
numbers_of k = if k == 10 then 0 else 20 + k

abbrev new_inode : Inode
new_inode = record {
  number = 4;
  mode = 0x81a4;
  nlink = 1;
  uid = 0;
  gid = 0;
  size = 6000;
  atime = 0;
  mtime = 0;
  ctime = 0;
  addr = zeros;
}

vol-IsProfile : IsProfile vol.prof
unfolding bsize_ok profile
vol-IsProfile = record { size = refl; derived = refl }

room_example : 12 ≤ vol.prof.laddr + room vol.prof.nindir 3 1
unfolding room level_cap
room_example = omega arith

need_example : need_levels vol.prof.nindir 3 1 (12 - vol.prof.laddr) ≡ 1
unfolding need_levels need needs per_entry level_cap
need_example = refl

bmap-setblocks_example :
    (i' : Inode) × (fs' : S5Fs) × (ys : List ℕ) × (setblocks numbers_of 12 new_inode vol
      ≡ some ((true, i'), fs'))
    × IsVolume fs' ys
    × (length ys + need_levels vol.prof.nindir 3 1 (12 - vol.prof.laddr) ≡ 2)
    × ((lbn : ℕ) → lbn < 12 → bmap (reader_of fs') fs'.fd zeros i'.addr lbn ≡ numbers_of lbn)
    × ((y k : ℕ) → Fresh y (9 ∷ 7 ∷ []) → k < vol.prof.bsize → blocks fs' y k ≡ blocks vol y k)
bmap-setblocks_example =
    bmap-setblocks numbers_of 12 new_inode vol (9 ∷ 7 ∷ []) zeros vol-IsProfile vol-IsVolume
      room_example (omega (arith, need_example)) (λ j lt. ground arith)
