-- ===== src/BlockMap/Digits.antt =====
-- The path through the indirect blocks: fsr_ind_index takes the digits of an index.
use s5fs.Base.{ℕ, ◌+◌, ◌*◌, ◌/◌, ◌<◌, ◌≡◌, inl, inr, true, arith}
use s5fs.Layout.{bsize_ok}
use s5fs.BlockMap.{ind_index, per_entry}
use s5fs.Inode.Place.{bsize_cases}

-- At each block size, the entries that an index below the triple-indirect capacity passes through
-- are its three digits, each an entry of an indirect block, and the index is the number that they
-- write.
pub ind_index-digits :
    (bsize idx : ℕ)
    → bsize_ok bsize ≡ true
    → idx < bsize / 4 * (bsize / 4) * (bsize / 4)
    → let n : ℕ = bsize / 4 in
      (idx ≡ ind_index n idx 3 * (n * n) + ind_index n idx 2 * n + ind_index n idx 1)
      × (ind_index n idx 3 < n)
      × (ind_index n idx 2 < n)
      × (ind_index n idx 1 < n)
unfolding ind_index per_entry
ind_index-digits bsize idx good small = elim (bsize_cases bsize good) [
  | inl e ↦
      let low : idx < 128 * 128 * 128 = rw e at small in
      rw e (omega arith, omega arith, omega arith, omega arith)
  | inr (inl e) ↦
      let low : idx < 256 * 256 * 256 = rw e at small in
      rw e (omega arith, omega arith, omega arith, omega arith)
  | inr (inr e) ↦
      let low : idx < 512 * 512 * 512 = rw e at small in
      rw e (omega arith, omega arith, omega arith, omega arith)
]
