-- ===== src/Fsck/Ends.antt =====
-- The walk of the free list ends on every image, also where the chain of blocks has a cycle.
use s5fs.Base.{
  ℕ, zero, suc, ◌+◌, ◌-◌, ◌*◌, ◌/◌, ◌%◌, ◌≤◌, ◌<◌, ◌≡◌, refl, ◌≢◌, inl, inr, false, arith,
  ℕ_discrete, ◌==◌, if◌then◌else◌, Bool-cases, Option-cases,
}
use s5fs.Layout.{nicfree}
use s5fs.Endian.{Buf}
use s5fs.Fsck.Check.{Ck, refs, is_free, set_use, error, ck_rdblk, out_of_range}
use s5fs.Fsck.Walk.{
  Turn, halt, died, next, turn, visit, follow, walk, out_of_fuel, finished, exited, check_free_list,
  walk_fuel,
}
use s5fs.FreeList.Fblk.{fblk_nfree-le}

-- The blocks from `lo` on, `n` of them, that are not marked free.
abbrev unmarked : (ℕ → ℕ) → ℕ → ℕ → ℕ
unmarked u zero lo = 0
unmarked u (suc n) lo = (if u lo / 128 % 2 == 0 then 1 else 0) + unmarked u n (lo + 1)

unmarked-le : (u : ℕ → ℕ) (n lo : ℕ) → unmarked u n lo ≤ n
unmarked-le u zero lo = omega arith
unmarked-le u (suc n) lo = ground (arith, unmarked-le u n (lo + 1))

unmarked_same :
    (u v : ℕ → ℕ) (n lo : ℕ) → ((i : ℕ) → lo ≤ i → v i ≡ u i) → unmarked v n lo ≡ unmarked u n lo
unmarked_same u v zero lo h = refl
unmarked_same u v (suc n) lo h =
    rw (h lo (omega arith), unmarked_same u v n (lo + 1) (λ i le. h i (omega arith))) refl

abbrev marked : (ℕ → ℕ) → ℕ → ℕ → ℕ
marked u b i = if i == b then u b + 128 else u i

-- One more block marked.
unmarked-mark :
    (u : ℕ → ℕ) (b n lo : ℕ)
    → lo ≤ b
    → b < lo + n
    → u b / 128 % 2 ≡ 0
    → unmarked (marked u b) n lo + 1 ≡ unmarked u n lo
unmarked-mark u b zero lo h k clear = absurd (omega arith)
unmarked-mark u b (suc n) lo h k clear = elim (ℕ_discrete lo b) [
  | yes p ↦ ground (arith, p, clear, unmarked_same u (marked u b) n (lo + 1) (λ i le. ground arith))
  | no p ↦ ground (arith, p, unmarked-mark u b n (lo + 1) (omega arith) (omega arith) clear)
]

-- What is left for the walk to do.
abbrev measure : Ck → ℕ → ℕ
measure c nfree = unmarked c.use_map (c.fsize - c.isize) c.isize * 51 + nfree

abbrev Shrinks : ℕ → Ck → Turn → Type 0
Shrinks nfree c (halt c') = Unit
Shrinks nfree c died = Unit
Shrinks nfree c (next n f c') = (n ≤ nicfree) × (measure c' n < measure c nfree)

-- Marking a block makes the measure smaller, whatever cache comes next.
mark-less :
    (c : Ck) (bno n k : ℕ)
    → out_of_range c bno ≡ false
    → is_free c bno ≡ false
    → n ≤ nicfree
    → measure (set_use bno (c.use_map bno + 128) c) n < measure c (k + 1)
mark-less c bno n k inside clear small =
    let low : c.use_map bno / 128 % 2 ≡ 0 = ground arith in
    let lo : c.isize ≤ bno = ground arith in
    let hi : bno < c.isize + (c.fsize - c.isize) = ground arith in
    omega (arith, unmarked-mark c.use_map bno (c.fsize - c.isize) c.isize lo hi low)

follow-Shrinks :
    (bno nfree : ℕ) (free : ℕ → ℕ) (c c2 : Ck)
    → nfree < nicfree
    → ((n : ℕ) → n ≤ nicfree → measure c2 n < measure c (nfree + 1))
    → Shrinks (nfree + 1) c (follow bno nfree free c2)
unfolding follow
follow-Shrinks bno nfree free c c2 small less = elim (Bool-cases (nfree == 0)) [
  | inl t ↦ rw t (elim (Option-cases (ck_rdblk c2 bno)) [
    | inl e ↦ rw e tt
    | inr (fb, e) ↦ rw e (fblk_nfree-le c2.bo fb, less _ (fblk_nfree-le c2.bo fb))
  ])
  | inr f ↦ rw f (omega arith, less nfree (omega arith))
]

visit-Shrinks :
    (bno nfree : ℕ) (free : ℕ → ℕ) (c : Ck)
    → nfree < nicfree
    → out_of_range c bno ≡ false
    → Shrinks (nfree + 1) c (visit bno nfree free c)
unfolding visit
visit-Shrinks bno nfree free c small inside = elim (Bool-cases (is_free c bno)) [
  | inl t ↦ rw t tt
  | inr f ↦
      rw f (follow-Shrinks bno nfree free c _ small (λ n few. mark-less c bno n nfree inside f few))
]

to_suc : (n : ℕ) (c : Ck) (t : Turn) → Shrinks (n + 1) c t → Shrinks (suc n) c t
to_suc n c (halt c') h = tt
to_suc n c died h = tt
to_suc n c (next k f c') h = (h.0, omega (arith, h.1))

turn-Shrinks :
    (nfree : ℕ) (free : ℕ → ℕ) (c : Ck) → nfree ≤ nicfree → Shrinks nfree c (turn nfree free c)
unfolding turn
turn-Shrinks zero free c small = tt
turn-Shrinks (suc n) free c small = elim (Bool-cases (free n == 0)) [
  | inl t ↦ rw t tt
  | inr f ↦ rw f (elim (Bool-cases (out_of_range c (free n))) [
    | inl t ↦ rw t (omega arith, omega arith)
    | inr inside ↦ rw inside (elim (Bool-cases (refs c (free n) == 0)) [
      | inl t ↦ rw t (to_suc n c _ (visit-Shrinks (free n) n free c (omega arith) inside))
      | inr u ↦ rw u (to_suc n c _ (visit-Shrinks (free n) n free (error c) (omega arith) inside))
    ])
  ])
]

after_turn :
    (fuel nfree : ℕ) (c : Ck) (t : Turn)
    → measure c nfree < suc fuel
    → Shrinks nfree c t
    → ((n : ℕ) (f : ℕ → ℕ) (c' : Ck)
        → n ≤ nicfree
        → measure c' n < fuel
        → walk fuel n f c' ≢ out_of_fuel)
    → elim t [ halt c' ↦ finished c' | died ↦ exited | next n f c' ↦ walk fuel n f c' ]
      ≢ out_of_fuel
after_turn fuel nfree c (halt c') enough h ih = λ e. cc
after_turn fuel nfree c died enough h ih = λ e. cc
after_turn fuel nfree c (next n f c') enough h ih = ih n f c' h.0 (omega (arith, h.1, enough))

walk-ends :
    (fuel nfree : ℕ) (free : ℕ → ℕ) (c : Ck)
    → nfree ≤ nicfree
    → measure c nfree < fuel
    → walk fuel nfree free c ≢ out_of_fuel
unfolding walk
walk-ends zero nfree free c small enough = absurd (omega arith)
walk-ends (suc fuel) nfree free c small enough =
    after_turn fuel nfree c (turn nfree free c) enough (turn-Shrinks nfree free c small)
      (λ n f c' few less. walk-ends fuel n f c' few less)

pub walk_fuel-ends :
    (c : Ck) (nfree : ℕ) (free : ℕ → ℕ)
    → nfree ≤ nicfree
    → walk (walk_fuel c) nfree free c ≢ out_of_fuel
walk_fuel-ends c nfree free small =
    walk-ends (walk_fuel c) nfree free c small
      (omega (arith, unmarked-le c.use_map (c.fsize - c.isize) c.isize))

-- On every image, also where the chain of free blocks has a cycle or leaves the volume, the walk of
-- the free list ends, if its cache starts with at most 50 entries.
pub check_free_list-ends :
    (sb : Buf) (c : Ck) → c.nfree ≤ nicfree → check_free_list sb c ≢ out_of_fuel
unfolding check_free_list
check_free_list-ends sb c small =
    walk-ends (walk_fuel c) c.nfree _ c small
      (omega (arith, unmarked-le c.use_map (c.fsize - c.isize) c.isize))
