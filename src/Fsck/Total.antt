-- ===== src/Fsck/Total.antt =====
-- fsck ends on every image, and changes nothing unless a repair is asked for.
use s5fs.Base.{
  ℕ, zero, suc, ◌+◌, ◌-◌, ◌*◌, ◌/◌, ◌≤◌, ◌≡◌, refl, subst, ◌∙◌, ◌≢◌, inl, inr, Bool, true, false,
  not, Option, none, some, arith, ◌==◌, if◌then◌else◌, Bool-cases, Option-cases, codes,
}
use s5fs.Layout.{nicfree, superblk, rootino, u32, clamp_nfree, bsize_ok}
use s5fs.Endian.{Buf, Endian}
use s5fs.Image.{File, read_at}
use s5fs.Fsck.Check.{
  Ck, refs, is_free, set_use, error, ck_rdblk, out_of_range, load_super, check_partition, Tables,
  empty_tables, scan_inodes, Checks,
}
use s5fs.Fsck.Walk.{
  finished, Outcome, exited, out_of_fuel, check_free_list, Turn, halt, died, next, follow, visit,
  turn, walk, walk_fuel,
}
use s5fs.Fsck.Dirs.{mark_reached, find_in_dir, ck_set_dotdot, dir_reuse_slot}
use s5fs.Fsck.ReadOnly.{Reads, Held, Held-of, scan_inodes-Reads, tally-fd}
use s5fs.Fsck.Run.{
  ck_open, ck_nino, check_blocks, check_names, repair_names, fsck_repair, finish_run, fsck_run,
}
use s5fs.Fsck.Links.{
  tally, check_links, repair_links, reconnect, adopt, is_orphan, bad_link, how_many, count_error,
  reach_fuel, orphan_name, zap_dangling, fix_links,
}
use s5fs.Fsck.Ends.{check_free_list-ends}
use s5fs.Fsck.Reach.{mark_reached-ends}
use s5fs.Reader.{chosen}

-- The computation has not run out of fuel, and its result, if it has one, has the property.
abbrev Ends : {A : Type 0} → (A → Type 0) → Outcome A → Type 0
Ends P (finished a) = P a
Ends P exited = Unit
Ends P out_of_fuel = ⊥

Ends-out_of_fuel : {A : Type 0} (P : A → Type 0) (o : Outcome A) → Ends P o → o ≢ out_of_fuel
Ends-out_of_fuel P (finished a) h e = cc
Ends-out_of_fuel P exited h e = cc
Ends-out_of_fuel P out_of_fuel h e = h

Ends-of : {A : Type 0} (P : A → Type 0) (o : Outcome A) (a : A) → Ends P o → o ≡ finished a → P a
Ends-of P (finished b) a h e = subst (Ends P) e h
Ends-of P exited a h e = cc
Ends-of P out_of_fuel a h e = cc

Ends-mono :
    {A : Type 0} (P Q : A → Type 0) (o : Outcome A) → ((a : A) → P a → Q a) → Ends P o → Ends Q o
Ends-mono P Q (finished a) f h = f a h
Ends-mono P Q exited f h = tt
Ends-mono P Q out_of_fuel f h = h

-- A step and then the rest, in the three forms that the code has.
Ends-then :
    {A B : Type 0} (P : A → Type 0) (Q : B → Type 0) (o : Outcome A) (k : A → Outcome B)
    → Ends P o
    → ((a : A) → P a → Ends Q (k a))
    → Ends Q (elim o [ exited ↦ exited | out_of_fuel ↦ out_of_fuel | finished a ↦ k a ])
Ends-then P Q (finished a) k h f = f a h
Ends-then P Q exited k h f = tt
Ends-then P Q out_of_fuel k h f = h

Ends-try :
    {A B : Type 0} (P : A → Type 0) (Q : B → Type 0) (o : Option A) (k : A → Outcome B)
    → Held P o
    → ((a : A) → P a → Ends Q (k a))
    → Ends Q (elim o [ none ↦ exited | some a ↦ k a ])
Ends-try P Q none k h f = tt
Ends-try P Q (some a) k h f = f a h

Held-any : {A : Type 0} (o : Option A) → Held (λ a. Unit) o
Held-any none = tt
Held-any (some a) = tt

-- What one turn of the walk does to the image: nothing.
abbrev TurnReads : Ck → Turn → Type 0
TurnReads c (halt c') = c'.fd ≡ c.fd
TurnReads c died = Unit
TurnReads c (next n f c') = c'.fd ≡ c.fd

follow-Reads :
    (bno nfree : ℕ) (free : ℕ → ℕ) (c c2 : Ck)
    → c2.fd ≡ c.fd
    → TurnReads c (follow bno nfree free c2)
unfolding follow
follow-Reads bno nfree free c c2 h = elim (Bool-cases (nfree == 0)) [
  | inl t ↦ rw t (elim (Option-cases (ck_rdblk c2 bno)) [ inl e ↦ rw e tt | inr (fb, e) ↦ rw e h ])
  | inr f ↦ rw f h
]

visit-Reads :
    (bno nfree : ℕ) (free : ℕ → ℕ) (c c2 : Ck)
    → c2.fd ≡ c.fd
    → TurnReads c (visit bno nfree free c2)
unfolding visit
visit-Reads bno nfree free c c2 h = elim (Bool-cases (is_free c2 bno)) [
  | inl t ↦ rw t h
  | inr f ↦ rw f (follow-Reads bno nfree free c (set_use bno (c2.use_map bno + 128) c2) h)
]

turn-Reads : (nfree : ℕ) (free : ℕ → ℕ) (c : Ck) → TurnReads c (turn nfree free c)
unfolding turn
turn-Reads zero free c = refl
turn-Reads (suc n) free c = elim (Bool-cases (free n == 0)) [
  | inl t ↦ rw t refl
  | inr f ↦ rw f (elim (Bool-cases (out_of_range c (free n))) [
    | inl t ↦ rw t refl
    | inr g ↦ rw g (elim (Bool-cases (refs c (free n) == 0)) [
      | inl t ↦ rw t (visit-Reads (free n) n free c c refl)
      | inr u ↦ rw u (visit-Reads (free n) n free c (error c) refl)
    ])
  ])
]

-- A walk that does not run out of fuel.
walk-Ends :
    (fuel n : ℕ) (f : ℕ → ℕ) (c : Ck)
    → walk fuel n f c ≢ out_of_fuel
    → Ends (λ c'. c'.fd ≡ c.fd) (walk fuel n f c)
unfolding walk
walk-Ends zero n f c ne = absurd (ne refl)
walk-Ends (suc fuel) n f c ne =
    split (turn n f c) (turn-Reads n f c) ne (λ m g c'. walk-Ends fuel m g c')
  where
    split :
        (t : Turn)
        → TurnReads c t
        → elim t as (λ _. Outcome Ck) [
          | halt c' ↦ finished c'
          | died ↦ exited
          | next m g c' ↦ walk fuel m g c'
        ]
          ≢ out_of_fuel
        → ((m : ℕ) (g : ℕ → ℕ) (c' : Ck)
            → walk fuel m g c' ≢ out_of_fuel
            → Ends (λ c2. c2.fd ≡ c'.fd) (walk fuel m g c'))
        → Ends
            (λ c2. c2.fd ≡ c.fd)
            (elim t as (λ _. Outcome Ck) [
              | halt c' ↦ finished c'
              | died ↦ exited
              | next m g c' ↦ walk fuel m g c'
            ])
    split (halt c') h ne ih = h
    split died h ne ih = tt
    split (next m g c') h ne ih =
        Ends-mono (λ c2. c2.fd ≡ c'.fd) (λ c2. c2.fd ≡ c.fd) (walk fuel m g c') (λ c2 e. e ∙ h)
          (ih m g c' ne)

check_blocks-Ends :
    (b : Bool) (sb : Buf) (c : Ck)
    → c.nfree ≤ nicfree
    → Ends (λ c'. c'.fd ≡ c.fd) (check_blocks b sb c)
unfolding check_blocks check_free_list check_partition
check_blocks-Ends false sb c few = refl
check_blocks-Ends true sb c few =
    Ends-then (λ c'. c'.fd ≡ c.fd) (λ c'. c'.fd ≡ c.fd) (check_free_list sb c)
      (λ c'. finished (check_partition c'))
      (walk-Ends (walk_fuel c) c.nfree _ c (check_free_list-ends sb c few))
      (λ c' e. ground (arith, e))

count_error-fd : (n : ℕ) (c : Ck) → (count_error n c).fd ≡ c.fd
count_error-fd n c = ground arith

not_spent : {A : Type 0} (o : Outcome A) → o ≢ out_of_fuel → Ends (λ a. Unit) o
not_spent (finished a) ne = tt
not_spent exited ne = tt
not_spent out_of_fuel ne = ne refl

reach-Ends :
    (c : Ck) (nino : ℕ) (r : ℕ → Bool) (ino : ℕ)
    → Ends (λ r'. Unit) (mark_reached (reach_fuel nino) c nino r ino)
reach-Ends c nino r ino = not_spent _ (mark_reached-ends c nino r ino)

check_names-Ends :
    (b : Bool) (nino : ℕ) (t : Tables) (c : Ck) → Ends (λ s. s.0.fd ≡ c.fd) (check_names b nino t c)
unfolding check_names check_links
check_names-Ends false nino t c = refl
check_names-Ends true nino t c =
    Ends-try (λ s. s.0.fd ≡ c.fd) (λ s. s.0.fd ≡ c.fd) (tally nino t c) _ (tally-fd nino t c)
      (λ s e.
        Ends-then (λ r. Unit) (λ s2. s2.0.fd ≡ c.fd) _ _
          (reach-Ends (count_error (how_many (bad_link t s.1) nino 1) s.0) nino (λ i. false)
            rootino)
          (λ r u.
            count_error-fd _ (count_error (how_many (bad_link t s.1) nino 1) s.0)
            ∙ count_error-fd _ s.0
            ∙ e))

-- The repair ends as well; it may change the image.
adopt-Ends :
    (nino : ℕ) (t : Tables) (lf ino : ℕ) (c : Ck) (r : ℕ → Bool)
    → Ends (λ s. Unit) (adopt nino t lf ino c r)
unfolding adopt
adopt-Ends nino t lf ino c r =
    elim (Option-cases (if t.isdir ino then ck_set_dotdot ino lf c else some c)) [
      | inl e ↦ rw (Ends, e) tt
      | inr (c', e) ↦
          rw (Ends, e)
            (Ends-then (λ r'. Unit) (λ s. Unit) (mark_reached (reach_fuel nino) c' nino r ino)
              (λ r'. finished (c', r')) (reach-Ends c' nino r ino) (λ r' u. tt))
    ]

reconnect-Ends :
    (nino : ℕ) (t : Tables) (lf n ino : ℕ) (c : Ck) (r : ℕ → Bool)
    → Ends (λ s. Unit) (reconnect nino t lf n ino c r)
unfolding reconnect
reconnect-Ends nino t lf zero ino c r = tt
reconnect-Ends nino t lf (suc n) ino c r = elim (Bool-cases (is_orphan t r ino)) [
  | inr z ↦ rw (Ends, z) (reconnect-Ends nino t lf n (ino + 1) c r)
  | inl o ↦
      rw (Ends, o)
        (elim (Option-cases (dir_reuse_slot lf ino (orphan_name ino) c)) [
          | inl e ↦ rw e tt
          | inr ((c1, false), e) ↦ rw e tt
          | inr ((c1, true), e) ↦ rw e (
              Ends-then (λ s. Unit) (λ s. Unit) (adopt nino t lf ino c1 r) _
                (adopt-Ends nino t lf ino c1 r)
                (λ s u. reconnect-Ends nino t lf n (ino + 1) s.0 s.1))
        ])
]

repair_links-Ends :
    (nino : ℕ) (t : Tables) (r : ℕ → Bool) (c : Ck) → Ends (λ c'. Unit) (repair_links nino t r c)
unfolding repair_links
repair_links-Ends nino t r c = elim (Option-cases (find_in_dir c rootino (codes "lost+found"))) [
  | inl e ↦ rw (Ends, e) tt
  | inr (lf, e) ↦
      rw (Ends, e)
        (elim (Option-cases (zap_dangling nino t c)) [
          | inl e2 ↦ rw e2 tt
          | inr (c1, e2) ↦ rw e2 (
              Ends-then (λ s. Unit) (λ c'. Unit) _
                (λ s. elim (fix_links nino t s.0) [ none ↦ exited | some c3 ↦ finished c3 ])
                (found lf c1) (λ s u. ended (fix_links nino t s.0)))
        ])
]
  where
    ended :
        (o : Option Ck)
        → Ends (λ c'. Unit) (elim o as (λ _. Outcome Ck) [ none ↦ exited | some c3 ↦ finished c3 ])
    ended none = tt
    ended (some c3) = tt

    found :
        (lf : ℕ) (c1 : Ck)
        → Ends
            (λ s. Unit)
            (if lf == 0
              then finished (c1, r)
              else reconnect nino t lf (nino - rootino) (rootino + 1) c1 r)
    found lf c1 = elim (Bool-cases (lf == 0)) [
      | inl e ↦ rw (Ends, e) tt
      | inr e ↦ rw (Ends, e) (reconnect-Ends nino t lf (nino - rootino) (rootino + 1) c1 r)
    ]

-- Nothing is changed unless a repair is asked for.
abbrev Untouched : Bool → Ck → Ck → Type 0
Untouched false c c' = c'.fd ≡ c.fd
Untouched true c c' = Unit

finish_run-Ends :
    (repair : Bool) (k : Checks) (arr : ℕ → ℕ) (nino : ℕ) (t : Tables) (r : ℕ → Bool) (sb : Buf)
    (c0 c : Ck)
    → c.fd ≡ c0.fd
    → Ends (Untouched repair c0) (finish_run repair k arr nino t r sb c)
unfolding finish_run fsck_repair repair_names
finish_run-Ends false k arr nino t r sb c0 c e = e
finish_run-Ends true k arr nino t r sb c0 c e =
    Ends-then (λ c'. Unit) (λ c'. Unit) (repair_names k.links nino t r c) _ (names k.links)
      (λ c' u. tt)
  where
    names : (b : Bool) → Ends (λ c'. Unit) (repair_names b nino t r c)
    names false = tt
    names true = repair_links-Ends nino t r c

fsck_run-Ends :
    (repair : Bool) (k : Checks) (arr : ℕ → ℕ) (sb : Buf) (c : Ck)
    → c.nfree ≤ nicfree
    → Ends (Untouched repair c) (fsck_run repair k arr sb c)
unfolding fsck_run
fsck_run-Ends repair k arr sb c few =
    Ends-try (λ s. Reads c s.0) (Untouched repair c) (scan_inodes k (ck_nino c) 1 c empty_tables) _
      (scan_inodes-Reads k (ck_nino c) 1 c empty_tables)
      (λ s1 r1.
        Ends-then (λ c'. c'.fd ≡ s1.0.fd) (Untouched repair c) (check_blocks k.blocks sb s1.0) _
          (check_blocks-Ends k.blocks sb s1.0 (omega (arith, few, r1.nfree)))
          (λ c2 e2.
            Ends-then (λ s. s.0.fd ≡ c2.fd) (Untouched repair c)
              (check_names k.links (ck_nino c) s1.1 c2) _
              (check_names-Ends k.links (ck_nino c) s1.1 c2)
              (λ s3 e3.
                finish_run-Ends repair k arr (ck_nino c) s1.1 s3.1 sb c s3.0 (e3 ∙ e2 ∙ r1.fd))))

load_super-nfree : (sb : Buf) (c : Ck) → (load_super sb c).nfree ≤ nicfree
unfolding load_super clamp_nfree
load_super-nfree sb c = ground arith

load_super-fd : (sb : Buf) (c : Ck) → (load_super sb c).fd ≡ c.fd
unfolding load_super
load_super-fd sb c = refl

-- What fsck opens is the image, with a cache of 50 entries at most.
abbrev Opened : File → Ck × Buf → Type 0
Opened fd s = (s.0.fd ≡ fd) × (s.0.nfree ≤ nicfree)

ck_open-Opened :
    (fd : File) (uninit : Buf) (bsize : ℕ) (forced : Option Endian) (base : ℕ)
    → Held (Opened fd) (ck_open fd uninit bsize forced base)
unfolding ck_open
ck_open-Opened fd uninit bsize forced base = elim (Bool-cases (not (bsize_ok bsize))) [
  | inl t ↦ rw (Held, t) tt
  | inr f ↦
      rw (Held, f)
        (elim (Option-cases (read_at fd (base + superblk * bsize) bsize uninit)) [
          | inl e ↦ rw e tt
          | inr (sb, e) ↦ rw e (elim (Option-cases (chosen forced sb (u32 (fd.size / bsize)))) [
            | inl e2 ↦ rw e2 tt
            | inr (bo, e2) ↦
                rw e2 (guarded _ (load_super sb _) sb (load_super-fd sb _, load_super-nfree sb _))
          ])
        ])
]
  where
    guarded :
        (b : Bool) (c : Ck) (sb : Buf)
        → Opened fd (c, sb)
        → Held (Opened fd) (if b then none else some (c, sb))
    guarded true c sb h = tt
    guarded false c sb h = h

-- fsck ends on every image: whatever a file holds, if fsck opens it as a volume, then no check and
-- no repair that it is asked for runs forever. The walk of the free list and the search of the
-- directories both end, also where the chain of free blocks or the directories have a cycle.
pub fsck_run-ends :
    (fd : File) (uninit : Buf) (bsize : ℕ) (forced : Option Endian) (base : ℕ) (c : Ck) (sb : Buf)
    (repair : Bool) (k : Checks) (arr : ℕ → ℕ)
    → ck_open fd uninit bsize forced base ≡ some (c, sb)
    → fsck_run repair k arr sb c ≢ out_of_fuel
fsck_run-ends fd uninit bsize forced base c sb repair k arr e =
    Ends-out_of_fuel (Untouched repair c) (fsck_run repair k arr sb c) (
      fsck_run-Ends repair k arr sb c
        (Held-of (Opened fd) _ (c, sb) (ck_open-Opened fd uninit bsize forced base) e).1)

-- Where fsck comes to its end without a repair, and not by the exit on a read error, it has left
-- every byte of the image as it was, whatever it was asked to check and whatever it found.
pub fsck_run-reads :
    (fd : File) (uninit : Buf) (bsize : ℕ) (forced : Option Endian) (base : ℕ) (c c' : Ck)
    (sb : Buf) (k : Checks) (arr : ℕ → ℕ)
    → ck_open fd uninit bsize forced base ≡ some (c, sb)
    → fsck_run false k arr sb c ≡ finished c'
    → c'.fd ≡ fd
fsck_run-reads fd uninit bsize forced base c c' sb k arr e done =
    let opened = Held-of (Opened fd) _ (c, sb) (ck_open-Opened fd uninit bsize forced base) e in
    Ends-of (Untouched false c) (fsck_run false k arr sb c) c'
      (fsck_run-Ends false k arr sb c opened.1) done
    ∙ opened.0
