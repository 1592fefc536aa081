-- ===== src/BlockMap/Route.antt =====
-- The routing of logical blocks inverts the order in which s5fs_setblocks fills the slots.
use s5fs.Base.{
  ℕ, ◌+◌, ◌*◌, ◌≤◌, ◌<◌, ◌≡◌, refl, ◌⊎◌, Option, none, some, arith, ◌==◌, if◌then◌else◌,
}
use s5fs.Layout.{u32, level_cap}
use s5fs.Image.{times_mono}
use s5fs.BlockMap.{lbn_route}

-- The first logical block of each level.
abbrev pub level_start : ℕ → ℕ → ℕ → ℕ
level_start laddr n l = if l == 1 then laddr else if l == 2 then laddr + n else laddr + n + n * n

-- An index of `l` digits below `n`, with the highest digit first.
abbrev pub blocks_of : ℕ → ℕ → ℕ
blocks_of n l = if l == 1 then n else if l == 2 then n * n else n * n * n

-- What a route says of the logical block `lbn`.
abbrev pub Routes : ℕ → ℕ → ℕ → Option (ℕ × ℕ × ℕ) → Type 0
Routes laddr n lbn none = laddr + n + n * n + n * n * n ≤ lbn
Routes laddr n lbn (some (l, slot, idx)) =
    ((l ≡ 0) × (slot ≡ lbn) × (lbn < laddr) × (idx ≡ 0))
    ⊎ ((0 < l)
        × (l ≤ 3)
        × (slot + 1 ≡ laddr + l)
        × (level_start laddr n l + idx ≡ lbn)
        × (idx < blocks_of n l))

square_small : (n : ℕ) → n ≤ 512 → n * n ≤ 0x40000
square_small n h = omega (arith, times_mono n 512 n h)

cube_small : (n : ℕ) → n ≤ 512 → n * n * n ≤ 0x8000000
cube_small n h = omega (arith, times_mono (n * n) 0x40000 n (square_small n h))

pub level_cap-eq : (n l : ℕ) → n ≤ 512 → 0 < l → l ≤ 3 → level_cap n l ≡ blocks_of n l
unfolding level_cap
level_cap-eq n l h lo hi =
    let e2 : u32 (n * n) ≡ n * n = omega (arith, square_small n h) in
    let e3 : u32 (n * n * n) ≡ n * n * n = omega (arith, cube_small n h) in rw (e2, e3) refl

-- With at most 512 numbers to an indirect block, a logical block is routed to its direct slot, or to
-- the slot and the index of the level that covers it when each level begins where the one before
-- ends, and a block is refused only past the end of the third level.
pub lbn_route-Routes : (laddr n lbn : ℕ) → n ≤ 512 → Routes laddr n lbn (lbn_route laddr n lbn)
unfolding lbn_route
lbn_route-Routes laddr n lbn h =
    let e2 : u32 (n * n) ≡ n * n = omega (arith, square_small n h) in
    let e3 : u32 (n * n * n) ≡ n * n * n = omega (arith, cube_small n h) in
    rw (e2, e3) (ground arith)
