-- ===== src/Mkfs/Groups.antt =====
-- The loops of s5fs_freelist over the groups free each data block of the groups once.
use s5fs.Base.{
  ℕ, zero, suc, ◌+◌, ◌-◌, ◌*◌, ◌≤◌, ◌<◌, ◌≡◌, refl, ap, ◌∙◌, ◌≢◌, ◌⊎◌, inl, inr, false, ◌&&◌, List,
  ◌∷◌, arith, dec_lt, ℕ_discrete, ltb, leb, if◌then◌else◌, Bool-cases, All, Fresh, All-mono,
}
use s5fs.Writer.{wtblk, S5Fs, put_fblk, bfree}
use s5fs.FreeList.Volume.{IsVolume, InData}
use s5fs.FreeList.Stack.{bfree-cons, SameLimits, limits-bfree}
use s5fs.Mkfs.FreeList.{free_group, free_groups}

-- The offsets of a group: each number from 1 to `fn` once.
pub record IsOrder (fn : ℕ) (adr : ℕ → ℕ) : Type 0 where
  pub low : (j : ℕ) → j < fn → 0 < adr j
  pub high : (j : ℕ) → j < fn → adr j ≤ fn
  pub once : (i j : ℕ) → i < j → j < fn → adr i ≢ adr j
  pub every : (v : ℕ) → 0 < v → v ≤ fn → (j : ℕ) × (j < fn) × (adr j ≡ v)

-- The block is above the group that ends at `d`, or one of the first `i` of the group.
abbrev Placed : (ℕ → ℕ) → ℕ → ℕ → ℕ → Type 0
Placed adr d i x = (d ≤ x) ⊎ ((j : ℕ) × (j < i) × (x + adr j ≡ d))

Placed-next : (adr : ℕ → ℕ) (d i x : ℕ) → Placed adr d i x → Placed adr d (i + 1) x
Placed-next adr d i x (inl h) = inl h
Placed-next adr d i x (inr (j, lt, e)) = inr (j, omega arith, e)

-- The block is on the list.
abbrev pub Listed : ℕ → List ℕ → Type 0
Listed x xs = Fresh x xs → ⊥

-- What a run of the inner loop leaves: a consistent volume whose list has grown by the data blocks
-- of the rounds.
record Freed (d i k : ℕ) (fs fs' : S5Fs) (xs xs' : List ℕ) : Type 0 where
  volume : IsVolume fs' xs'
  placed : All (Placed fs.adr d (i + k)) xs'
  keeps : (x : ℕ) → Listed x xs → Listed x xs'
  adds : (j : ℕ) → i ≤ j → j < i + k → InData fs (d - fs.adr j) → Listed (d - fs.adr j) xs'
  above : (x : ℕ) → d ≤ x → Fresh x xs → Fresh x xs'
  adr : fs'.adr ≡ fs.adr
  limits : SameLimits fs fs'

Placed-Fresh :
    (fn d i : ℕ) (adr : ℕ → ℕ) (xs : List ℕ)
    → IsOrder fn adr
    → fn ≤ d
    → i < fn
    → All (Placed adr d i) xs
    → Fresh (d - adr i) xs
Placed-Fresh fn d i adr xs o big lt h = All-mono xs one h
  where
    one : (x : ℕ) → Placed adr d i x → d - adr i ≢ x
    one x (inl above) e = omega (arith, o.low i lt, o.high i lt)
    one x (inr (j, less, at)) e = o.once j i less lt (omega (arith, o.high i lt, at))

adr-bfree : (x : ℕ) (fs : S5Fs) → (bfree x fs).adr ≡ fs.adr
unfolding bfree put_fblk wtblk
adr-bfree x fs = ground arith

-- One round.
abbrev round : ℕ → ℕ → S5Fs → S5Fs
round i d fs =
    if ltb (d - fs.adr i) fs.s_fsize && leb fs.s_isize (d - fs.adr i)
    then bfree (d - fs.adr i) fs
    else fs

round-Freed :
    (fn d i : ℕ) (fs : S5Fs) (xs : List ℕ)
    → IsOrder fn fs.adr
    → fn ≤ d
    → i < fn
    → IsVolume fs xs
    → All (Placed fs.adr d i) xs
    → (xs' : List ℕ) × Freed d i 1 fs (round i d fs) xs xs'
round-Freed fn d i fs xs o big lt v p =
    elim (Bool-cases (ltb (d - fs.adr i) fs.s_fsize && leb fs.s_isize (d - fs.adr i))) [
      | inl t ↦
          let inside : InData fs (d - fs.adr i) = ground arith in
          (
            (d - fs.adr i) ∷ xs,
            rw t (record {
              volume =
                  (bfree-cons fs (d - fs.adr i) xs v inside
                    (Placed-Fresh fn d i fs.adr xs o big lt p)).0;
              placed = (
                inr (i, omega arith, omega (arith, o.high i lt)),
                All-mono xs (Placed-next fs.adr d i) p,
              );
              keeps = λ x h fresh. h fresh.1;
              adds =
                  λ j lo hi inData fresh. fresh.0 (ap (λ q. d - fs.adr q) (same_index i j lo hi));
              above = λ x up fresh. (λ e. omega (arith, o.low i lt, o.high i lt), fresh);
              adr = adr-bfree (d - fs.adr i) fs;
              limits = limits-bfree fs (d - fs.adr i);
            }),
          )
      | inr f ↦ (
        xs,
        rw f (record {
          volume = v;
          placed = All-mono xs (Placed-next fs.adr d i) p;
          keeps = λ x h. h;
          adds = λ j lo hi inside. absurd (outside j (same_index i j lo hi) inside f);
          above = λ x up fresh. fresh;
          adr = refl;
          limits = (refl, refl);
        }),
      )
    ]
  where
    same_index : (i j : ℕ) → i ≤ j → j < i + 1 → j ≡ i
    same_index i j lo hi = omega arith

    outside :
        (j : ℕ)
        → j ≡ i
        → InData fs (d - fs.adr j)
        → (ltb (d - fs.adr i) fs.s_fsize && leb fs.s_isize (d - fs.adr i)) ≡ false
        → ⊥
    outside j e inside f = let inside' : InData fs (d - fs.adr i) = rw e at inside in ground arith

-- A data block depends on the limits alone.
pub InData-same : (fs fs' : S5Fs) (x : ℕ) → SameLimits fs fs' → InData fs x → InData fs' x
InData-same fs fs' x s h = omega (arith, s.0, s.1, h)

-- A run of rounds.
group-Freed :
    (fn d k i : ℕ) (fs : S5Fs) (xs : List ℕ)
    → IsOrder fn fs.adr
    → fn ≤ d
    → i + k ≤ fn
    → IsVolume fs xs
    → All (Placed fs.adr d i) xs
    → (xs' : List ℕ) × Freed d i k fs (free_group k i d fs) xs xs'
unfolding free_group
group-Freed fn d zero i fs xs o big fits v p = (
  xs,
  record {
    volume = v;
    placed = All-mono xs (λ x q. weaken x q) p;
    keeps = λ x h. h;
    adds = λ j lo hi inside. absurd (omega arith);
    above = λ x up fresh. fresh;
    adr = refl;
    limits = (refl, refl);
  },
)
  where
    weaken : (x : ℕ) → Placed fs.adr d i x → Placed fs.adr d (i + 0) x
    weaken x (inl h) = inl h
    weaken x (inr (j, lt, e)) = inr (j, omega arith, e)
group-Freed fn d (suc k) i fs xs o big fits v p =
    let (xs1, f1) = round-Freed fn d i fs xs o big (omega arith) v p in
    let p1 : All (Placed (round i d fs).adr d (i + 1)) xs1 = rw f1.adr f1.placed in
    let o1 : IsOrder fn (round i d fs).adr = rw f1.adr o in
    let (xs2, f2) =
      group-Freed fn d k (i + 1) (round i d fs) xs1 o1 big (omega arith) f1.volume p1 in
    (xs2, join (round i d fs) xs1 xs2 (free_group k (i + 1) d (round i d fs)) f1 f2)
  where
    join :
        (fs1 : S5Fs) (xs1 xs2 : List ℕ) (fs2 : S5Fs)
        → Freed d i 1 fs fs1 xs xs1
        → Freed d (i + 1) k fs1 fs2 xs1 xs2
        → Freed d i (suc k) fs fs2 xs xs2
    join fs1 xs1 xs2 fs2 f1 f2 = record {
      volume = f2.volume;
      placed = All-mono xs2 (λ x q. shift x q) f2.placed;
      keeps = λ x h. f2.keeps x (f1.keeps x h);
      adds = λ j lo hi inside. elim (ℕ_discrete j i) [
        | yes e ↦ f2.keeps (d - fs.adr j) (f1.adds j lo (omega arith) inside)
        | no ne ↦
            let inside1 : InData fs1 (d - fs1.adr j) =
              rw f1.adr (InData-same fs fs1 (d - fs.adr j) f1.limits inside) in
            let listed : Listed (d - fs1.adr j) xs2 =
              f2.adds j (omega arith) (omega arith) inside1 in
            rw f1.adr at listed
      ];
      above = λ x up fresh. f2.above x up (f1.above x up fresh);
      adr = f2.adr ∙ f1.adr;
      limits = (f2.limits.0 ∙ f1.limits.0, f2.limits.1 ∙ f1.limits.1);
    }
      where
        shift : (x : ℕ) → Placed fs1.adr d (i + 1 + k) x → Placed fs.adr d (i + suc k) x
        shift x (inl h) = inl h
        shift x (inr (j, lt, e)) = inr (j, omega arith, omega (arith, ap (λ f. f j) f1.adr, e))

-- What the groups below `d` leave: a consistent volume, whose list has grown by every data block
-- below `d` and no other.
pub record AllFreed (d : ℕ) (fs fs' : S5Fs) (xs xs' : List ℕ) : Type 0 where
  pub volume : IsVolume fs' xs'
  pub keeps : (x : ℕ) → Listed x xs → Listed x xs'
  pub below : (x : ℕ) → x < d → InData fs x → Listed x xs'
  pub above : (x : ℕ) → d ≤ x → Fresh x xs → Fresh x xs'
  pub limits : SameLimits fs fs'

pub free_groups-AllFreed :
    (fn k d : ℕ) (fs : S5Fs) (xs : List ℕ)
    → IsOrder fn fs.adr
    → d ≡ k * fn
    → IsVolume fs xs
    → All (λ x. d ≤ x) xs
    → (xs' : List ℕ) × AllFreed d fs (free_groups k fn d fs) xs xs'
unfolding free_groups
free_groups-AllFreed fn zero d fs xs o e v p = (
  xs,
  record {
    volume = v;
    keeps = λ x h. h;
    below = λ x lt inside. absurd (omega arith);
    above = λ x up fresh. fresh;
    limits = (refl, refl);
  },
)
free_groups-AllFreed fn (suc k) d fs xs o e v p =
    let big : fn ≤ d = omega arith in
    let (xs1, f1) =
      group-Freed fn d fn 0 fs xs o big (omega arith) v (All-mono xs (λ x h. inl h) p) in
    let o1 : IsOrder fn (free_group fn 0 d fs).adr = rw f1.adr o in
    let p1 : All (λ x. d - fn ≤ x) xs1 = All-mono xs1 (λ x q. lower x q) f1.placed in
    let (xs2, f2) =
      free_groups-AllFreed fn k (d - fn) (free_group fn 0 d fs) xs1 o1 (omega arith) f1.volume p1 in
    (
      xs2,
      join (free_group fn 0 d fs) xs1 xs2 (free_groups k fn (d - fn) (free_group fn 0 d fs)) f1 f2,
    )
  where
    lower : (x : ℕ) → Placed fs.adr d (0 + fn) x → d - fn ≤ x
    lower x (inl h) = omega arith
    lower x (inr (j, lt, at)) = omega (arith, o.high j (omega arith), at)

    join :
        (fs1 : S5Fs) (xs1 xs2 : List ℕ) (fs2 : S5Fs)
        → Freed d 0 fn fs fs1 xs xs1
        → AllFreed (d - fn) fs1 fs2 xs1 xs2
        → AllFreed d fs fs2 xs xs2
    join fs1 xs1 xs2 fs2 f1 f2 = record {
      volume = f2.volume;
      keeps = λ x h. f2.keeps x (f1.keeps x h);
      below = λ x lt inside. elim (dec_lt x (d - fn)) [
        | yes under ↦ f2.below x under (InData-same fs fs1 x f1.limits inside)
        | no here ↦
            let (j, less, at) = o.every (d - x) (omega arith) (omega arith) in
            let same : d - fs.adr j ≡ x = omega (arith, at) in
            let listed : Listed (d - fs.adr j) xs1 =
              f1.adds j (omega arith) (omega arith) (rw same inside) in
            f2.keeps x (rw same at listed)
      ];
      above = λ x up fresh. f2.above x (omega arith) (f1.above x up fresh);
      limits = (f2.limits.0 ∙ f1.limits.0, f2.limits.1 ∙ f1.limits.1);
    }
