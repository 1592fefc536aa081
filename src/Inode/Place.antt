-- ===== src/Inode/Place.antt =====
-- Where an inode stands: every inode has 64 bytes of its own in the i-list.
use s5fs.Base.{
  ◌-◌, ◌-◌, ◌==◌, if◌then◌else◌, ap, ℕ, ◌+◌, ◌*◌, ◌/◌, ◌^◌, ◌≤◌, ◌<◌, ◌≡◌, ◌⊎◌, inl, inr, true,
  arith,
}
use s5fs.Layout.{u32, IsProfile, Profile, profile, dinodesz, iliststart, bsize_ok}
use s5fs.Writer.{itod, itoo}

-- A property of the three block sizes.
pub bsize_cases : (b : ℕ) → bsize_ok b ≡ true → (b ≡ 512) ⊎ ((b ≡ 1024) ⊎ (b ≡ 2048))
unfolding bsize_ok
bsize_cases b h = ground arith

-- The byte offset of inode `ino` from the beginning of the volume.
abbrev pub byte_offset : ℕ → ℕ → ℕ
byte_offset bsize ino = itod (bsize / dinodesz) ino * bsize + itoo (bsize / dinodesz) ino * dinodesz

-- At each block size, an inode number `ino` above 0 and below 2 ^ 31 stands 64 bytes times `ino -
-- 1` behind the beginning of block 2.
pub byte_offset_lem :
    (bsize ino : ℕ)
    → bsize_ok bsize ≡ true
    → 0 < ino
    → ino < 2 ^ 31
    → byte_offset bsize ino + dinodesz ≡ 2 * bsize + ino * dinodesz
unfolding itod itoo
byte_offset_lem bsize ino good pos small = elim (bsize_cases bsize good) [
  | inl e ↦ rw e (omega arith)
  | inr (inl e) ↦ rw e (omega arith)
  | inr (inr e) ↦ rw e (omega arith)
]

-- The inode lies inside its block, behind the superblock.
pub itod_bounds :
    (bsize ino : ℕ)
    → bsize_ok bsize ≡ true
    → 0 < ino
    → ino < 2 ^ 31
    → (iliststart ≤ itod (bsize / dinodesz) ino)
      × (itoo (bsize / dinodesz) ino * dinodesz + dinodesz ≤ bsize)
unfolding itod itoo
itod_bounds bsize ino good pos small = elim (bsize_cases bsize good) [
  | inl e ↦ rw e (omega arith)
  | inr (inl e) ↦ rw e (omega arith)
  | inr (inr e) ↦ rw e (omega arith)
]

pub inopb-profile : (p : Profile) → IsProfile p → p.inopb ≡ p.bsize / dinodesz
unfolding profile
inopb-profile p q = ap (λ r. r.inopb) q.derived

pub naddr-profile : (p : Profile) → IsProfile p → p.naddr ≤ 13
unfolding profile
naddr-profile p q =
    let e : p.naddr ≡ (if p.bsize == 1024 then 7 else 13) = ap (λ r. r.naddr) q.derived in
    ground arith

-- The inode's 64 bytes end inside its block.
pub slot_fits :
    (p : Profile) (ino : ℕ)
    → IsProfile p
    → 0 < ino
    → ino < 2 ^ 31
    → itoo p.inopb ino * dinodesz + dinodesz ≤ p.bsize
slot_fits p ino q pos small = rw (inopb-profile p q) ((itod_bounds p.bsize ino q.size pos small).1)

-- The slot `k` of block `d` of the i-list is the place of its number, which has 16 bits.
pub place_lem :
    (bsize d k : ℕ)
    → bsize_ok bsize ≡ true
    → 2 ≤ d
    → k < bsize / dinodesz
    → (d - 2) * (bsize / dinodesz) + k + 1 < 2 ^ 16
    → let ino : ℕ = u32 ((d - 2) * (bsize / dinodesz) + k + 1) in
      (ino < 2 ^ 16)
      × (itod (bsize / dinodesz) ino ≡ d)
      × (itoo (bsize / dinodesz) ino ≡ k)
      × (bsize / dinodesz * dinodesz ≤ bsize)
unfolding itod itoo
place_lem bsize d k good lo h small = elim (bsize_cases bsize good) [
  | inl e ↦
      let few : (d - 2) * 8 + k + 1 < 2 ^ 16 = rw e at small in
      rw e (omega arith, omega arith, omega arith, omega arith)
  | inr (inl e) ↦
      let few : (d - 2) * 16 + k + 1 < 2 ^ 16 = rw e at small in
      rw e (omega arith, omega arith, omega arith, omega arith)
  | inr (inr e) ↦
      let few : (d - 2) * 32 + k + 1 < 2 ^ 16 = rw e at small in
      rw e (omega arith, omega arith, omega arith, omega arith)
]
