-- ===== src/Fsck/Partition.antt =====
-- Phase 3 of fsck_run: no error is counted exactly when each data block is used or free, not both.
use s5fs.Base.{ℕ, zero, suc, ◌+◌, ◌-◌, ◌≡◌, refl, arith, ◌==◌, ◌↔◌}
use s5fs.Fsck.Check.{Ck, refs, is_free, check_partition, count_blocks}

-- The property holds of the numbers from `lo` on, `n` of them.
abbrev pub AllFrom : (ℕ → Type 0) → ℕ → ℕ → Type 0
AllFrom P zero lo = Unit
AllFrom P (suc n) lo = P lo × AllFrom P n (lo + 1)

-- The block is free exactly when nothing refers to it.
abbrev pub IsExact : Ck → ℕ → Type 0
IsExact c i = is_free c i ≡ (refs c i == 0)

IsExact-count_blocks :
    (c : Ck) (n lo : ℕ)
    → AllFrom (IsExact c) n lo
    → ((count_blocks c n lo).missing ≡ 0) × ((count_blocks c n lo).both ≡ 0)
unfolding count_blocks
IsExact-count_blocks c zero lo h = (refl, refl)
IsExact-count_blocks c (suc n) lo h = ground (arith, h.0, IsExact-count_blocks c n (lo + 1) h.1)

count_blocks-IsExact :
    (c : Ck) (n lo : ℕ)
    → (count_blocks c n lo).missing ≡ 0
    → (count_blocks c n lo).both ≡ 0
    → AllFrom (IsExact c) n lo
unfolding count_blocks
count_blocks-IsExact c zero lo p q = tt
count_blocks-IsExact c (suc n) lo p q =
    (ground arith, count_blocks-IsExact c n (lo + 1) (ground arith) (ground arith))

-- Phase 3 adds no error exactly when each data block is either referred to or free, and not both.
pub check_partition-IsExact :
    (c : Ck)
    → ((check_partition c).errors ≡ c.errors) ↔ AllFrom (IsExact c) (c.fsize - c.isize) c.isize
unfolding check_partition
check_partition-IsExact c = (
  λ e. count_blocks-IsExact c (c.fsize - c.isize) c.isize (ground arith) (ground arith),
  λ h. let zeros = IsExact-count_blocks c (c.fsize - c.isize) c.isize h in ground (arith, zeros),
)
