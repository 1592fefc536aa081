-- ===== src/Fsck/Clean.antt =====
-- The walk of the free list and the partition check together, on a sound volume.
use s5fs.Base.{
  ℕ, zero, suc, ◌+◌, ◌-◌, ◌*◌, ◌≤◌, ◌<◌, ◌≡◌, sym, subst, ◌∙◌, ◌≢◌, ◌⊎◌, inl, inr, false, List, [],
  ◌∷◌, arith, ℕ_discrete, All, Fresh, Distinct,
}
use s5fs.Layout.{sb_free}
use s5fs.Endian.{Buf, get32}
use s5fs.Image.{block}
use s5fs.Fsck.Check.{Ck, refs, is_free, check_partition}
use s5fs.Fsck.Walk.{finished, check_free_list}
use s5fs.Fsck.Partition.{AllFrom, IsExact, check_partition-IsExact}
use s5fs.Fsck.Agrees.{IsReadable, IsClear, IsMarked, check_free_list-IsMarked}
use s5fs.FreeList.Chain.{Chain}

-- A number is in the list, so that what holds of the list holds of it, or it is not.
listed_or_Fresh {ℓ} : (P : ℕ → Type ℓ) (y : ℕ) (xs : List ℕ) → All P xs → P y ⊎ Fresh y xs
listed_or_Fresh P y [] h = inr tt
listed_or_Fresh P y (x ∷ xs) h = elim (ℕ_discrete y x) [
  | yes e ↦ inl (subst P (sym e) h.0)
  | no ne ↦ elim (listed_or_Fresh P y xs h.1) [ inl p ↦ inl p | inr fresh ↦ inr (ne, fresh) ]
]

AllFrom-all : (P : ℕ → Type 0) (n lo : ℕ) → ((i : ℕ) → lo ≤ i → i < lo + n → P i) → AllFrom P n lo
AllFrom-all P zero lo h = tt
AllFrom-all P (suc n) lo h = (
  h lo (omega arith) (omega arith),
  AllFrom-all P n (lo + 1) (λ i lo' hi. h i (omega arith) (omega arith)),
)

-- The block is used and not free.
abbrev pub IsUsed : Ck → ℕ → Type 0
IsUsed c i = (refs c i ≢ 0) × (is_free c i ≡ false)

-- Phases 2 and 3 together. Where the cache in the superblock and the chain behind it stand for a
-- list of different data blocks, none of them marked, and each other data block has a reference and
-- is not marked free, the walk of the free list ends, and the partition check after it leaves the
-- number of errors where it was before both.
pub check_free_list-check_partition :
    (sb : Buf) (c : Ck) (xs : List ℕ)
    → IsReadable c
    → Chain c.bo (block c.fd c.base c.prof.bsize) c.nfree (λ k. get32 c.bo sb (sb_free + 4 * k)) xs
    → All (IsClear c) xs
    → Distinct xs
    → ((i : ℕ) → c.isize ≤ i → i < c.fsize → Fresh i xs → IsUsed c i)
    → (c' : Ck) × (check_free_list sb c ≡ finished c') × ((check_partition c').errors ≡ c.errors)
check_free_list-check_partition sb c xs r chain clear d used =
    let (c', e, m) = check_free_list-IsMarked sb c xs r chain clear d in
    (c', e, (check_partition-IsExact c').1 (exact c' m) ∙ m.errors)
  where
    one : (c' : Ck) → IsMarked xs c c' → (i : ℕ) → c.isize ≤ i → i < c.fsize → IsExact c' i
    one c' m i lo hi = elim (listed_or_Fresh _ i xs m.listed) [
      | inl free ↦ ground (arith, free)
      | inr fresh ↦ ground (arith, m.others i fresh, used i lo hi fresh)
    ]

    exact : (c' : Ck) → IsMarked xs c c' → AllFrom (IsExact c') (c'.fsize - c'.isize) c'.isize
    exact c' m =
        AllFrom-all (IsExact c') (c'.fsize - c'.isize) c'.isize
          (λ i lo hi. one c' m i (omega (arith, m.isize)) (omega (arith, m.isize, m.fsize)))
