-- ===== src/Fsck/Walk.antt =====
-- Phase 2 of fsck_run: the free list is walked the way that s5fs_alloc would take it apart.
use s5fs.Base.{◌*◌, ◌*◌, ℕ, zero, suc, ◌+◌, ◌-◌, none, some, ◌==◌, if◌then◌else◌}
use s5fs.Endian.{Buf, get32}
use s5fs.Layout.{sb_free}
use s5fs.Fsck.Check.{Ck, refs, is_free, set_use, error, ck_rdblk, out_of_range}
use s5fs.Writer.{fblk_nfree, fblk_free}

-- One turn of the loop, with the cache of `nfree` entries `free`.
pub data Turn : Type 0 where
  halt : Ck → Turn
  died : Turn
  next : ℕ → (ℕ → ℕ) → Ck → Turn

-- The cache behind the block `bno`: at the end of the old one, the one that the block holds.
unfoldable pub follow : ℕ → ℕ → (ℕ → ℕ) → Ck → Turn
follow bno nfree free c =
    if nfree == 0
    then elim (ck_rdblk c bno) [
      | none ↦ died
      | some fb ↦ next (fblk_nfree c.bo fb) (fblk_free c.bo fb) c
    ]
    else next nfree free c

-- A block that is marked free already ends the walk.
unfoldable pub visit : ℕ → ℕ → (ℕ → ℕ) → Ck → Turn
visit bno nfree free c =
    if is_free c bno
    then halt (error c)
    else follow bno nfree free (set_use bno (c.use_map bno + 128) c)

unfoldable pub turn : ℕ → (ℕ → ℕ) → Ck → Turn
turn zero free c = halt (error c)
turn (suc n) free c =
    if free n == 0
    then halt c
    else if out_of_range c (free n)
    then next n free (error c)
    else visit (free n) n free (if refs c (free n) == 0 then c else error c)

-- What a search with so much fuel comes to; `exited` is the end of the process.
pub data Outcome (A : Type 0) : Type 0 where
  finished : A → Outcome A
  exited : Outcome A
  out_of_fuel : Outcome A

unfoldable pub walk : ℕ → ℕ → (ℕ → ℕ) → Ck → Outcome Ck
walk zero nfree free c = out_of_fuel
walk (suc fuel) nfree free c = elim (turn nfree free c) [
  | halt c' ↦ finished c'
  | died ↦ exited
  | next n f c' ↦ walk fuel n f c'
]

-- Each turn takes an entry off the cache or marks one more block, and a cache has at most 50
-- entries: that many turns are enough.
abbrev pub walk_fuel : Ck → ℕ
walk_fuel c = (c.fsize - c.isize) * 51 + 51

-- Phase 2, with the superblock `sb`.
unfoldable pub check_free_list : Buf → Ck → Outcome Ck
check_free_list sb c = walk (walk_fuel c) c.nfree (λ k. get32 c.bo sb (sb_free + 4 * k)) c
