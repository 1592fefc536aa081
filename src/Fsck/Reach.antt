-- ===== src/Fsck/Reach.antt =====
-- mark_reached ends on every image, also where directories contain each other.
use s5fs.Base.{
  ℕ, zero, suc, ◌+◌, ◌≤◌, ◌<◌, ◌≡◌, subst, ◌≢◌, inl, inr, Bool, true, false, ◌||◌, none, some,
  arith, ℕ_discrete, ltb, ◌==◌, if◌then◌else◌, Bool-cases, Option-cases,
}
use s5fs.Layout.{ifmt, ifdir}
use s5fs.Endian.{Buf}
use s5fs.Fsck.Check.{Ck, ck_rdblk, read_inode}
use s5fs.Fsck.Walk.{finished, Outcome, exited, out_of_fuel}
use s5fs.Fsck.Dirs.{
  entry_ino, entry_name, dot, dotdot, mark_reached, set_reached, ck_bmap, ck_nblk, reach_entries,
  reach_blocks,
}
use s5fs.Reader.{same_name}
use s5fs.Fsck.Links.{reach_fuel}

-- The inodes from `ino` on, `n` of them, that are not marked.
abbrev unreached : (ℕ → Bool) → ℕ → ℕ → ℕ
unreached r zero ino = 0
unreached r (suc n) ino = (if r ino then 0 else 1) + unreached r n (ino + 1)

-- What is marked stays marked.
abbrev pub Keeps : (ℕ → Bool) → (ℕ → Bool) → Type 0
Keeps r r' = (i : ℕ) → r i ≡ true → r' i ≡ true

unreached_mono : (r r' : ℕ → Bool) (n ino : ℕ) → Keeps r r' → unreached r' n ino ≤ unreached r n ino
unreached_mono r r' zero ino h = omega arith
unreached_mono r r' (suc n) ino h = elim (Bool-cases (r ino)) [
  | inl t ↦ let t' = h ino t in rw (t, t') (omega (arith, unreached_mono r r' n (ino + 1) h))
  | inr f ↦ ground (arith, unreached_mono r r' n (ino + 1) h)
]

unreached-le : (r : ℕ → Bool) (n ino : ℕ) → unreached r n ino ≤ n
unreached-le r zero ino = omega arith
unreached-le r (suc n) ino = ground (arith, unreached-le r n (ino + 1))

set-Keeps : (k : ℕ) (r : ℕ → Bool) → Keeps r (set_reached k r)
set-Keeps k r i h = ground arith

-- A mark at an inode that had none.
unreached-set :
    (r : ℕ → Bool) (k n ino : ℕ)
    → r k ≡ false
    → ino ≤ k
    → k < ino + n
    → unreached (set_reached k r) n ino < unreached r n ino
unreached-set r k zero ino h lo hi = absurd (omega arith)
unreached-set r k (suc n) ino h lo hi = elim (ℕ_discrete ino k) [
  | yes p ↦
      let less = unreached_mono r (set_reached k r) n (ino + 1) (set-Keeps k r) in
      let old : r ino ≡ false = rw p h in ground (arith, less)
  | no p ↦
      let less = unreached-set r k n (ino + 1) h (omega arith) (omega arith) in ground (arith, less)
]

-- The search has not run out of fuel, and keeps the marks.
abbrev Grows : (ℕ → Bool) → Outcome (ℕ → Bool) → Type 0
Grows r (finished r') = Keeps r r'
Grows r exited = Unit
Grows r out_of_fuel = ⊥

-- A call with so much fuel, where fewer inodes are left to mark.
abbrev Goes : ℕ → ℕ → ((ℕ → Bool) → ℕ → Outcome (ℕ → Bool)) → Type 0
Goes fuel nino go = (r : ℕ → Bool) (di : ℕ) → unreached r nino 1 < fuel → Grows r (go r di)

Grows-after : (r r1 : ℕ → Bool) (o : Outcome (ℕ → Bool)) → Keeps r r1 → Grows r1 o → Grows r o
Grows-after r r1 (finished r') h g = λ i e. g i (h i e)
Grows-after r r1 exited h g = tt
Grows-after r r1 out_of_fuel h g = g

-- One step and then the rest of a loop.
Grows-then :
    (fuel nino : ℕ) (r : ℕ → Bool) (o : Outcome (ℕ → Bool)) (k : (ℕ → Bool) → Outcome (ℕ → Bool))
    → unreached r nino 1 < fuel
    → Grows r o
    → ((r' : ℕ → Bool) → unreached r' nino 1 < fuel → Grows r' (k r'))
    → Grows r (elim o [ finished r' ↦ k r' | exited ↦ exited | out_of_fuel ↦ out_of_fuel ])
Grows-then fuel nino r (finished r') k enough g h =
    Grows-after r r' (k r') g (h r' (omega (arith, unreached_mono r r' nino 1 g)))
Grows-then fuel nino r exited k enough g h = tt
Grows-then fuel nino r out_of_fuel k enough g h = g

reach_entries-Grows :
    (fuel : ℕ) (go : (ℕ → Bool) → ℕ → Outcome (ℕ → Bool)) (c : Ck) (nino : ℕ) (buf : Buf)
    → Goes fuel nino go
    → (n e : ℕ) (r : ℕ → Bool) → unreached r nino 1 < fuel
    → Grows r (reach_entries go c nino buf n e r)
unfolding reach_entries
reach_entries-Grows fuel go c nino buf goes zero e r enough = λ i h. h
reach_entries-Grows fuel go c nino buf goes (suc n) e r enough =
    split
      (entry_ino c buf e == 0
        || (ltb nino (entry_ino c buf e)
            || (same_name (entry_name buf e) dot || same_name (entry_name buf e) dotdot)))
      (reach_entries-Grows fuel go c nino buf goes n (e + 1))
  where
    split :
        (b : Bool)
        → ((r' : ℕ → Bool)
            → unreached r' nino 1 < fuel
            → Grows r' (reach_entries go c nino buf n (e + 1) r'))
        → Grows r (elim b as (λ _. Outcome (ℕ → Bool)) [
          | true ↦ reach_entries go c nino buf n (e + 1) r
          | false ↦ elim (go r (entry_ino c buf e)) [
            | finished r' ↦ reach_entries go c nino buf n (e + 1) r'
            | exited ↦ exited
            | out_of_fuel ↦ out_of_fuel
          ]
        ])
    split true rest = rest r enough
    split false rest =
        Grows-then fuel nino r (go r (entry_ino c buf e)) (reach_entries go c nino buf n (e + 1))
          enough (goes r (entry_ino c buf e) enough) rest

reach_blocks-Grows :
    (fuel : ℕ) (go : (ℕ → Bool) → ℕ → Outcome (ℕ → Bool)) (c : Ck) (nino : ℕ) (addr : ℕ → ℕ)
    → Goes fuel nino go
    → (n b : ℕ) (r : ℕ → Bool) → unreached r nino 1 < fuel
    → Grows r (reach_blocks go c nino addr n b r)
unfolding reach_blocks
reach_blocks-Grows fuel go c nino addr goes zero b r enough = λ i h. h
reach_blocks-Grows fuel go c nino addr goes (suc n) b r enough =
    let rest : (r' : ℕ → Bool)
        → unreached r' nino 1 < fuel
        → Grows r' (reach_blocks go c nino addr n (b + 1) r') =
      reach_blocks-Grows fuel go c nino addr goes n (b + 1) in
    elim (Option-cases (ck_bmap c addr b)) [
      | inl e ↦ rw (Grows, e) tt
      | inr (phys, e) ↦
          rw (Grows, e)
            (elim (Bool-cases (phys == 0)) [
              | inl t ↦ rw t (rest r enough)
              | inr f ↦ rw f (elim (Option-cases (ck_rdblk c phys)) [
                | inl e' ↦ rw e' tt
                | inr (buf, e') ↦ rw e' (
                    Grows-then fuel nino r (reach_entries go c nino buf c.prof.ndirect 0 r)
                      (reach_blocks go c nino addr n (b + 1)) enough
                      (reach_entries-Grows fuel go c nino buf goes c.prof.ndirect 0 r enough) rest)
              ])
            ])
    ]

mark_reached-Goes : (fuel : ℕ) (c : Ck) (nino : ℕ) → Goes fuel nino (mark_reached fuel c nino)
unfolding mark_reached
mark_reached-Goes zero c nino r ino enough = absurd (omega arith)
mark_reached-Goes (suc fuel) c nino r ino enough =
    elim (Bool-cases (ino == 0 || (ltb nino ino || r ino))) [
      | inl t ↦ rw (mark_reached, t) (λ i h. h)
      | inr f ↦
          rw (mark_reached, f)
            (elim (Option-cases (read_inode c ino)) [
              | inl e ↦ rw e tt
              | inr (none, e) ↦ rw e (set-Keeps ino r)
              | inr (some i, e) ↦ rw e (elim (Bool-cases (ifmt i.mode == ifdir)) [
                | inr no_dir ↦ rw no_dir (set-Keeps ino r)
                | inl dir ↦
                    let clear : r ino ≡ false = ground arith in
                    let less = unreached-set r ino nino 1 clear (ground arith) (ground arith) in
                    rw dir (
                      Grows-after r (set_reached ino r) _ (set-Keeps ino r) (
                        reach_blocks-Grows fuel (mark_reached fuel c nino) c nino i.addr
                          (mark_reached-Goes fuel c nino) (ck_nblk c i) 0 (set_reached ino r)
                          (omega (arith, less))))
              ])
            ])
    ]

Grows-ends : (r : ℕ → Bool) (o : Outcome (ℕ → Bool)) → Grows r o → o ≢ out_of_fuel
Grows-ends r (finished r') g e = cc
Grows-ends r exited g e = cc
Grows-ends r out_of_fuel g e = g

-- On every image, whatever its directories hold, the search for the inodes that can be reached ends
-- with the fuel that fsck_run gives it, from each inode and with any marks set.
pub mark_reached-ends :
    (c : Ck) (nino : ℕ) (r : ℕ → Bool) (ino : ℕ)
    → mark_reached (reach_fuel nino) c nino r ino ≢ out_of_fuel
mark_reached-ends c nino r ino =
    Grows-ends r (mark_reached (reach_fuel nino) c nino r ino)
      (mark_reached-Goes (reach_fuel nino) c nino r ino (omega (arith, unreached-le r nino 1)))

-- The search only adds marks.
pub mark_reached-Keeps :
    (c : Ck) (nino : ℕ) (r r' : ℕ → Bool) (ino : ℕ)
    → mark_reached (reach_fuel nino) c nino r ino ≡ finished r'
    → Keeps r r'
mark_reached-Keeps c nino r r' ino e =
    subst (Grows r) e
      (mark_reached-Goes (reach_fuel nino) c nino r ino (omega (arith, unreached-le r nino 1)))
