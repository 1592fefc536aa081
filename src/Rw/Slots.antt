-- ===== src/Rw/Slots.antt =====
-- The slot searches of dir_add, dir_remove and ialloc_scan.
use s5fs.Base.{
  ◌≢◌, ℕ, zero, suc, ◌+◌, ◌-◌, ◌*◌, ◌^◌, ◌≤◌, ◌<◌, ◌≡◌, inl, inr, Bool, true, false, Option, none,
  some, arith, dec_lt, ℕ_discrete, Option-cases,
}
use s5fs.Layout.{direntsz, dinodesz, rootino, u32, di_mode}
use s5fs.Endian.{Buf, Endian, get16}
use s5fs.Rw.Dir.{find_slot, scan_block}

-- The slot found passes the test, lies inside the directory and the block, and is the first to pass.
pub find_slot-some :
    (test : Buf → ℕ → Bool) (psize first : ℕ) (db : Buf) (n e i : ℕ)
    → find_slot test psize first db n e ≡ some i
    → (test db (i * direntsz) ≡ true)
      × (e ≤ i)
      × (i < e + n)
      × (u32 ((first + i) * direntsz) < psize)
      × ((j : ℕ) → e ≤ j → j < i → test db (j * direntsz) ≡ false)
unfolding find_slot
find_slot-some test psize first db zero e i h = cc
find_slot-some test psize first db (suc n) e i h =
    let rest = find_slot-some test psize first db n (e + 1) i in ground (arith, rest)

-- No slot up to the directory's size passes the test.
find_slot-none :
    (test : Buf → ℕ → Bool) (psize first : ℕ) (db : Buf) (n e : ℕ)
    → (first + (e + n)) * direntsz < 2 ^ 32
    → find_slot test psize first db n e ≡ none
    → (j : ℕ) → e ≤ j
    → j < e + n
    → (first + j) * direntsz < psize
    → test db (j * direntsz) ≡ false
unfolding find_slot
find_slot-none test psize first db zero e small h j lo hi inside = absurd (omega arith)
find_slot-none test psize first db (suc n) e small h j lo hi inside = elim (ℕ_discrete j e) [
  | yes same ↦ rw same (ground (arith, same))
  | no later ↦
      find_slot-none test psize first db n (e + 1) (omega arith) (ground arith) j (omega arith)
        (omega arith) inside
]

-- What a search of the slots from `e` up to `stop` found.
abbrev pub Finds : (Buf → ℕ → Bool) → ℕ → ℕ → Buf → ℕ → ℕ → Option ℕ → Type 0
Finds test psize first db e stop none =
    (j : ℕ) → e ≤ j → j < stop → (first + j) * direntsz < psize → test db (j * direntsz) ≡ false
Finds test psize first db e stop (some i) =
    (test db (i * direntsz) ≡ true)
    × (e ≤ i)
    × (i < stop)
    × ((first + i) * direntsz < psize)
    × ((j : ℕ) → e ≤ j → j < i → test db (j * direntsz) ≡ false)

-- The slot search of dir_add and dir_remove finds the first slot of a block, among those inside
-- the directory's size, that passes the test, and finds none only where none of them passes, as
-- long as the slots' offsets in the directory stay below 2 ^ 32.
pub find_slot-Finds :
    (test : Buf → ℕ → Bool) (psize first : ℕ) (db : Buf) (n e : ℕ)
    → (first + (e + n)) * direntsz < 2 ^ 32
    → Finds test psize first db e (e + n) (find_slot test psize first db n e)
find_slot-Finds test psize first db n e small =
    elim (Option-cases (find_slot test psize first db n e)) [
      | inl h ↦ rw h (find_slot-none test psize first db n e small h)
      | inr (i, h) ↦
          let (passes, lo, hi, inside, before) = find_slot-some test psize first db n e i h in
          rw h (passes, lo, hi, omega arith, before)
    ]

-- The number that a block is searched for stands in the block, is not reserved, and its mode is 0.
pub scan_block-free :
    (bo : Endian) (inopb blk : ℕ) (pb : Buf) (n e : ℕ)
    → 0 < scan_block bo inopb blk pb n e
    → (k : ℕ) × (e ≤ k)
      × (k < e + n)
      × (scan_block bo inopb blk pb n e ≡ u32 ((blk - 2) * inopb + k + 1))
      × (rootino ≤ scan_block bo inopb blk pb n e)
      × (get16 bo pb (k * dinodesz + di_mode) ≡ 0)
unfolding scan_block
scan_block-free bo inopb blk pb zero e h = ground arith
scan_block-free bo inopb blk pb (suc n) e h =
    elim (dec_lt (u32 ((blk - 2) * inopb + e + 1)) rootino) [
      | yes p ↦
          let (k, lo, hi, at, res, free) =
            scan_block-free bo inopb blk pb n (e + 1) (ground arith) in
          (k, omega arith, omega arith, ground arith, ground arith, free)
      | no p ↦ elim (ℕ_discrete (get16 bo pb (e * dinodesz + di_mode)) 0) [
        | yes q ↦ (e, omega arith, omega arith, ground arith, ground arith, q)
        | no q ↦
            let (k, lo, hi, at, res, free) =
              scan_block-free bo inopb blk pb n (e + 1) (ground arith) in
            (k, omega arith, omega arith, ground arith, ground arith, free)
      ]
    ]

-- Where it finds none, each inode that is not reserved has a mode.
pub scan_block-used :
    (bo : Endian) (inopb blk : ℕ) (pb : Buf) (n e : ℕ)
    → scan_block bo inopb blk pb n e ≡ 0
    → (k : ℕ) → e ≤ k
    → k < e + n
    → rootino ≤ u32 ((blk - 2) * inopb + k + 1)
    → get16 bo pb (k * dinodesz + di_mode) ≢ 0
unfolding scan_block
scan_block-used bo inopb blk pb zero e h k lo hi res = absurd (omega arith)
scan_block-used bo inopb blk pb (suc n) e h k lo hi res = elim (ℕ_discrete k e) [
  | yes at ↦ λ free.
      let res' : rootino ≤ u32 ((blk - 2) * inopb + e + 1) = rw at at res in
      let free' : get16 bo pb (e * dinodesz + di_mode) ≡ 0 = rw at at free in ground arith
  | no past ↦
      scan_block-used bo inopb blk pb n (e + 1) (ground arith) k (omega (arith, past)) (omega arith)
        res
]
