-- ===== src/Fsck/Agrees.antt =====
-- The walk of the free list, and the partition check after it, on a volume whose free list is sound.
use s5fs.Base.{
  ℕ, zero, suc, ◌+◌, ◌-◌, ◌*◌, ◌≤◌, ◌<◌, ◌≡◌, refl, sym, ◌∙◌, ◌≢◌, inl, inr, true, false, none,
  some, List, [], ◌∷◌, arith, ltb, ◌==◌, if◌then◌else◌, Bool-cases, length, All, Fresh, Distinct,
}
use s5fs.Layout.{u32, sb_free}
use s5fs.Endian.{Buf, get32, SameBytes}
use s5fs.Image.{block, times_mono, read_at_lem}
use s5fs.Writer.{zeros, fblk_nfree, fblk_free}
use s5fs.Fsck.Check.{Ck, refs, is_free, set_use, ck_rdblk, out_of_range}
use s5fs.Fsck.Walk.{
  Turn, halt, died, next, turn, visit, follow, walk, out_of_fuel, finished, exited, Outcome,
  check_free_list, walk_fuel,
}
use s5fs.FreeList.Fblk.{fblk_nfree-le, fblk_nfree_same, fblk_free_same}
use s5fs.FreeList.Chain.{Chain, Chain-same, Chain-size, All-refl, next_nfree, next_free}
use s5fs.FreeList.Volume.{Mounted}
use s5fs.Fsck.Ends.{walk_fuel-ends}

-- More fuel than enough changes nothing.
walk_more :
    (a b n : ℕ) (f : ℕ → ℕ) (c : Ck)
    → a ≤ b
    → walk a n f c ≢ out_of_fuel
    → walk b n f c ≡ walk a n f c
unfolding walk
walk_more zero b n f c h ne = absurd (ne refl)
walk_more (suc a) zero n f c h ne = absurd (omega arith)
walk_more (suc a) (suc b) n f c h ne =
    same_turn a b (turn n f c) ne (λ m g c' ne'. walk_more a b m g c' (omega arith) ne')
  where
    same_turn :
        (a b : ℕ) (t : Turn)
        → elim t [ halt c' ↦ finished c' | died ↦ exited | next m g c' ↦ walk a m g c' ]
          ≢ out_of_fuel
        → ((m : ℕ) (g : ℕ → ℕ) (c' : Ck)
            → walk a m g c' ≢ out_of_fuel
            → walk b m g c' ≡ walk a m g c')
        → ◌≡◌ {A = Outcome Ck}
            (elim t [ halt c' ↦ finished c' | died ↦ exited | next m g c' ↦ walk b m g c' ])
            (elim t [ halt c' ↦ finished c' | died ↦ exited | next m g c' ↦ walk a m g c' ])
    same_turn a b (halt c') ne ih = refl
    same_turn a b died ne ih = refl
    same_turn a b (next m g c') ne ih = ih m g c' ne

-- The blocks of the image, and the state in which the image can be read.
abbrev ck_blocks : Ck → ℕ → Buf
ck_blocks c = block c.fd c.base c.prof.bsize

abbrev pub IsReadable : Ck → Type 0
IsReadable c = Mounted none c.prof.bsize c.base c.isize c.fsize c.fd.size

-- The numbers of data blocks that are not marked.
abbrev pub IsClear : Ck → ℕ → Type 0
IsClear c x = (c.isize ≤ x) × (x < c.fsize) × (c.use_map x ≡ 0)

abbrev mark_all : List ℕ → Ck → Ck
mark_all [] c = c
mark_all (x ∷ xs) c = mark_all xs (set_use x 128 c)

ck_rdblk_lem :
    (c : Ck) (x : ℕ)
    → IsReadable c
    → x < c.fsize
    → (buf : Buf) × (ck_rdblk c x ≡ some buf) × SameBytes buf (ck_blocks c x) 0 202
unfolding ck_rdblk
ck_rdblk_lem c x m h = (
  λ i. if ltb i c.prof.bsize then c.fd.byte (c.base + x * c.prof.bsize + i) else zeros i,
  rw same (
      read_at_lem c.fd (c.base + x * c.prof.bsize) c.prof.bsize zeros
        (omega (arith, m.fits, times_mono (x + 1) c.fsize c.prof.bsize (omega arith)))),
  λ j lo hi. ground (arith, m.large),
)
  where
    same : u32 x ≡ x
    same = omega (arith, m.small)

-- Behind block `x` the cache continues the chain.
follow-Chain :
    (c : Ck) (x p : ℕ) (f : ℕ → ℕ) (xs : List ℕ)
    → IsReadable c
    → x < c.fsize
    → Chain c.bo
        (ck_blocks c)
        (next_nfree c.bo (ck_blocks c) (suc p) x)
        (next_free c.bo (ck_blocks c) (suc p) f x)
        xs
    → (m : ℕ) × (g : ℕ → ℕ) × (follow x p f c ≡ next m g c) × Chain c.bo (ck_blocks c) m g xs
unfolding follow
follow-Chain c x p f xs r lt chain = elim (Bool-cases (p == 0)) [
  | inl t ↦
      let one : (suc p == 1) ≡ true = ground arith in
      let (buf, got, same) = ck_rdblk_lem c x r lt in
      let rest : Chain c.bo (ck_blocks c) (fblk_nfree c.bo (ck_blocks c x))
          (fblk_free c.bo (ck_blocks c x)) xs =
        rw one at chain in
      (
        fblk_nfree c.bo buf,
        fblk_free c.bo buf,
        rw (t, got) refl,
        rw (fblk_nfree_same c.bo buf (ck_blocks c x) same) (
            Chain-same c.bo (ck_blocks c) (ck_blocks c) _ (fblk_free c.bo (ck_blocks c x))
              (fblk_free c.bo buf) xs (All-refl c.bo (ck_blocks c) xs)
              (λ i less.
                fblk_free_same c.bo buf (ck_blocks c x) i same
                  (omega (arith, fblk_nfree-le c.bo (ck_blocks c x))))
              rest),
      )
  | inr u ↦
      let more : (suc p == 1) ≡ false = ground arith in
      let back : suc p - 1 ≡ p = omega arith in
      let rest : Chain c.bo (ck_blocks c) (suc p - 1) f xs = rw more at chain in
      (p, f, rw u refl, rw back at rest)
]

-- A turn at a data block that is not marked marks it.
turn_lem :
    (c : Ck) (p x : ℕ) (f : ℕ → ℕ)
    → f p ≡ x
    → 2 ≤ c.isize
    → IsClear c x
    → turn (suc p) f c ≡ follow x p f (set_use x 128 c)
unfolding turn visit
turn_lem c p x f at low k =
    let real : (x == 0) ≡ false = ground (arith, k.0) in
    let inside : out_of_range c x ≡ false = ground (arith, k.0, k.1) in
    let unused : (refs c x == 0) ≡ true = ground (arith, k.2) in
    let clear : is_free c x ≡ false = ground (arith, k.2) in
    rw at (rw (real, inside, unused, clear, k.2) refl)

-- One turn at the first block of the list.
turn-Chain :
    (c : Ck) (n x : ℕ) (f : ℕ → ℕ) (xs : List ℕ)
    → IsReadable c
    → IsClear c x
    → Chain c.bo (ck_blocks c) n f (x ∷ xs)
    → (m : ℕ) × (g : ℕ → ℕ) × (turn n f c ≡ next m g (set_use x 128 c))
      × Chain c.bo (ck_blocks c) m g xs
turn-Chain c zero x f xs r k chain = absurd (omega (arith, chain.0))
turn-Chain c (suc p) x f xs r k chain =
    let back : suc p - 1 ≡ p = omega arith in
    let at : f p ≡ x = rw back at chain.2 in
    let (m, g, e, rest) = follow-Chain (set_use x 128 c) x p f xs r k.1 chain.5 in
    (m, g, turn_lem c p x f at r.low k ∙ e, rest)

nil_turn : (c : Ck) (f : ℕ → ℕ) → f 0 ≡ 0 → turn 1 f c ≡ halt c
unfolding turn
nil_turn c f h = rw h refl

-- Marking a block leaves the others as they are.
still-IsClear :
    (c : Ck) (x : ℕ) (xs : List ℕ)
    → Fresh x xs
    → All (IsClear c) xs
    → All (IsClear (set_use x 128 c)) xs
still-IsClear c x [] fresh h = tt
still-IsClear c x (y ∷ ys) fresh h =
    ((h.0.0, h.0.1, ground (arith, fresh.0, h.0.2)), still-IsClear c x ys fresh.1 h.1)

walk-Chain :
    (c : Ck) (n : ℕ) (f : ℕ → ℕ) (xs : List ℕ)
    → IsReadable c
    → Chain c.bo (ck_blocks c) n f xs
    → All (IsClear c) xs
    → Distinct xs
    → walk (suc (length xs)) n f c ≡ finished (mark_all xs c)
unfolding walk
walk-Chain c n f [] r chain clear d =
    let one : n ≡ 1 = chain.0 in rw one (rw (nil_turn c f chain.1, walk) refl)
walk-Chain c n f (x ∷ xs) r chain clear d =
    let (m, g, e, rest) = turn-Chain c n x f xs r clear.0 chain in
    rw (e, walk) (walk-Chain (set_use x 128 c) m g xs r rest (still-IsClear c x xs d.0 clear.1) d.1)

mark_all-errors : (xs : List ℕ) (c : Ck) → (mark_all xs c).errors ≡ c.errors
mark_all-errors [] c = refl
mark_all-errors (x ∷ xs) c = mark_all-errors xs (set_use x 128 c)

mark_all-limits :
    (xs : List ℕ) (c : Ck) → ((mark_all xs c).isize ≡ c.isize) × ((mark_all xs c).fsize ≡ c.fsize)
mark_all-limits [] c = (refl, refl)
mark_all-limits (x ∷ xs) c = mark_all-limits xs (set_use x 128 c)

mark_all_other :
    (xs : List ℕ) (c : Ck) (y : ℕ) → Fresh y xs → (mark_all xs c).use_map y ≡ c.use_map y
mark_all_other [] c y h = refl
mark_all_other (x ∷ xs) c y h = mark_all_other xs (set_use x 128 c) y h.1 ∙ ground (arith, h.0)

mark_all_self : (xs : List ℕ) (c : Ck) → Distinct xs → All (λ x. (mark_all xs c).use_map x ≡ 128) xs
mark_all_self [] c d = tt
mark_all_self (x ∷ xs) c d = (
  mark_all_other xs (set_use x 128 c) x d.0 ∙ ground arith,
  mark_all_self xs (set_use x 128 c) d.1,
)

returned : {c : Ck} → finished c ≢ out_of_fuel
returned {c} e = cc e

-- The marks behind the walk: the blocks of the list are free and not used, the others as before.
pub record IsMarked (xs : List ℕ) (c c' : Ck) : Type 0 where
  pub errors : c'.errors ≡ c.errors
  pub isize : c'.isize ≡ c.isize
  pub fsize : c'.fsize ≡ c.fsize
  pub listed : All (λ x. c'.use_map x ≡ 128) xs
  pub others : (y : ℕ) → Fresh y xs → c'.use_map y ≡ c.use_map y

-- Where the cache in the superblock and the chain behind it stand for a list of different data
-- blocks, none of them marked, fsck's walk of the free list ends with no further error, and marks
-- exactly these blocks free.
pub check_free_list-IsMarked :
    (sb : Buf) (c : Ck) (xs : List ℕ)
    → IsReadable c
    → Chain c.bo (block c.fd c.base c.prof.bsize) c.nfree (λ k. get32 c.bo sb (sb_free + 4 * k)) xs
    → All (IsClear c) xs
    → Distinct xs
    → (c' : Ck) × (check_free_list sb c ≡ finished c') × IsMarked xs c c'
unfolding check_free_list
check_free_list-IsMarked sb c xs r chain clear d = (
  mark_all xs c,
  sym (walk_more fuel (fuel + suc (length xs)) c.nfree f c (omega arith) ends)
      ∙ walk_more (suc (length xs)) (fuel + suc (length xs)) c.nfree f c (omega arith)
          (λ e. returned (sym done ∙ e))
      ∙ done,
  record {
    errors = mark_all-errors xs c;
    isize = (mark_all-limits xs c).0;
    fsize = (mark_all-limits xs c).1;
    listed = mark_all_self xs c d;
    others = mark_all_other xs c;
  },
)
  where
    fuel : ℕ
    fuel = walk_fuel c

    f : ℕ → ℕ
    f k = get32 c.bo sb (sb_free + 4 * k)

    done : walk (suc (length xs)) c.nfree f c ≡ finished (mark_all xs c)
    done = walk-Chain c c.nfree f xs r chain clear d

    ends : walk fuel c.nfree f c ≢ out_of_fuel
    ends = walk_fuel-ends c c.nfree f (Chain-size c.bo (ck_blocks c) c.nfree f xs chain).1
