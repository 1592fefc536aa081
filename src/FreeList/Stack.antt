-- ===== src/FreeList/Stack.antt =====
-- s5fs_alloc pops the stack of free blocks, and s5fs_bfree pushes onto it.
use s5fs.Base.{
  ◌^◌, ◌≢◌, dec_lt, Fresh, ℕ, ◌+◌, ◌-◌, ◌≤◌, ◌<◌, ◌≡◌, refl, ◌∙◌, ap, some, List, [], ◌∷◌, length,
  true, false, ltb, ◌==◌, if◌then◌else◌, Bool-cases, inl, inr, arith,
}
use s5fs.Endian.{Buf, SameBytes}
use s5fs.Layout.{nicfree, u32}
use s5fs.Writer.{
  wtblk, bfree, out_of_space, S5Fs, fail, put_fblk, fblk_nfree, fblk_free, get_fblk, alloc,
}
use s5fs.FreeList.Fblk.{
  fblk, fblk_nfree-fblk, fblk_free-fblk, fblk_nfree_same, fblk_free_same, fblk_nfree-le,
}
use s5fs.FreeList.Chain.{Chain-push, All-refl, Chain-size, Chain-small, Chain, Chain-same}
use s5fs.FreeList.Volume.{
  InData, written, wtblk_lem, written-Mounted, written_other, written_self, written_chain, blocks,
  IsMounted, IsVolume, rdblk_lem,
}

-- The limits of the volume are the same before and after.
abbrev pub SameLimits : S5Fs → S5Fs → Type 0
SameLimits fs fs' = (fs'.s_isize ≡ fs.s_isize) × (fs'.s_fsize ≡ fs.s_fsize)

-- The handle after a block has been taken from a cache of two entries or more.
abbrev popped : S5Fs → S5Fs
popped fs = record fs { s_tfree = u32 (fs.s_tfree + 0xffffffff); s_nfree = fs.s_nfree - 1 }

-- Loading the cache of block `x` continues the chain.
get_fblk-Chain :
    (fs : S5Fs) (x : ℕ) (xs : List ℕ)
    → IsMounted fs
    → x < fs.s_fsize
    → Chain fs.bo (blocks fs) (fblk_nfree fs.bo (blocks fs x)) (fblk_free fs.bo (blocks fs x)) xs
    → (n : ℕ) × (f : ℕ → ℕ) × (get_fblk x fs ≡ record fs { s_nfree = n; s_free = f })
      × Chain fs.bo (blocks fs) n f xs
unfolding get_fblk
get_fblk-Chain fs x xs m h c =
    let buf : Buf = λ i. if ltb i fs.prof.bsize then blocks fs x i else fs.uninit i in
    let same : SameBytes buf (blocks fs x) 0 202 = λ j lo hi. ground (arith, m.large) in
    (
      fblk_nfree fs.bo buf,
      fblk_free fs.bo buf,
      ap (λ r. record r.1 { s_nfree = fblk_nfree r.1.bo r.0; s_free = fblk_free r.1.bo r.0 })
          (rdblk_lem fs x fs.uninit m h),
      rw (fblk_nfree_same fs.bo buf (blocks fs x) same) (
          Chain-same fs.bo (blocks fs) (blocks fs) _ (fblk_free fs.bo (blocks fs x))
            (fblk_free fs.bo buf) xs (All-refl fs.bo (blocks fs) xs)
            (λ i lt.
              fblk_free_same fs.bo buf (blocks fs x) i same
                (omega (arith, fblk_nfree-le fs.bo (blocks fs x))))
            c),
    )

alloc-eq :
    (fs : S5Fs) (x : ℕ)
    → 0 < fs.s_nfree
    → fs.s_nfree ≤ nicfree
    → fs.s_free (fs.s_nfree - 1) ≡ x
    → 0 < x
    → alloc fs ≡ some (x, if fs.s_nfree - 1 == 0 then get_fblk x (popped fs) else popped fs)
unfolding alloc
alloc-eq fs x lo hi at pos = ground arith

-- On a consistent volume with blocks on the free list, s5fs_alloc returns the first of them,
-- leaves the others, keeps the volume consistent, and writes nothing.
pub alloc-cons :
    (fs : S5Fs) (x : ℕ) (xs : List ℕ)
    → IsVolume fs (x ∷ xs)
    → (fs' : S5Fs) × (alloc fs ≡ some (x, fs'))
      × IsVolume fs' xs
      × (fs'.fd ≡ fs.fd)
      × SameLimits fs fs'
alloc-cons fs x xs v = elim (Bool-cases (fs.s_nfree == 1)) [
  | inl one ↦
      let rest : Chain fs.bo (blocks fs) (fblk_nfree fs.bo (blocks fs x))
          (fblk_free fs.bo (blocks fs x)) xs =
        rw one at v.chain.5 in
      let (n, f, loaded, c) = get_fblk-Chain (popped fs) x xs v.mounted (v.range.0).1 rest in
      let last : (fs.s_nfree - 1 == 0) ≡ true = ground arith in
      (
        record (popped fs) { s_nfree = n; s_free = f },
        took ∙ rw last (ap (λ r. some (x, r)) loaded),
        record {
          mounted = v.mounted;
          chain = c;
          range = v.range.1;
          distinct = v.distinct.1;
          counted = counted;
        },
        refl,
        (refl, refl),
      )
  | inr more ↦
      let rest : Chain fs.bo (blocks fs) (fs.s_nfree - 1) fs.s_free xs = rw more at v.chain.5 in
      let left : (fs.s_nfree - 1 == 0) ≡ false = ground arith in
      (
        popped fs,
        took ∙ rw left refl,
        record {
          mounted = v.mounted;
          chain = rest;
          range = v.range.1;
          distinct = v.distinct.1;
          counted = counted;
        },
        refl,
        (refl, refl),
      )
]
  where
    took : alloc fs ≡ some (x, if fs.s_nfree - 1 == 0 then get_fblk x (popped fs) else popped fs)
    took = alloc-eq fs x v.chain.0 v.chain.1 v.chain.2 v.chain.3

    counted : u32 (fs.s_tfree + 0xffffffff) ≡ u32 (length xs)
    counted = omega (arith, v.counted)

-- On a consistent volume with the free list exhausted, s5fs_alloc returns 0, records the error and
-- writes nothing.
pub alloc-nil :
    (fs : S5Fs)
    → IsVolume fs []
    → alloc fs
      ≡ some (0, record fs { error = some out_of_space; s_tfree = 0xffffffff; s_nfree = 0 })
unfolding alloc fail
alloc-nil fs v = ground (arith, v.chain.0, v.chain.1, v.mounted.ok, v.counted)

-- The handle after the address `x` has been put behind the `n` entries of the cache.
abbrev pushed : S5Fs → ℕ → ℕ → S5Fs
pushed fs n x = record fs {
  s_tfree = u32 (fs.s_tfree + 1);
  s_nfree = n + 1;
  s_free = λ i. if i == n then x else fs.s_free i;
}

abbrev spill : S5Fs → Buf
spill fs = fblk fs.bo fs.s_nfree fs.s_free

bfree_room :
    (fs : S5Fs) (x : ℕ) → 0 < x → fs.s_nfree < nicfree → bfree x fs ≡ pushed fs fs.s_nfree x
unfolding bfree
bfree_room fs x pos room = ground arith

bfree_full :
    (fs : S5Fs) (x : ℕ)
    → IsMounted fs
    → 0 < x
    → x < fs.s_fsize
    → fs.s_nfree ≡ nicfree
    → bfree x fs ≡ pushed (written fs x (spill fs)) 0 x
unfolding bfree put_fblk
bfree_full fs x m pos lt full =
    ground (arith, wtblk_lem (record fs { s_tfree = u32 (fs.s_tfree + 1) }) x (spill fs) m lt)

spill-Chain :
    (fs : S5Fs) (x : ℕ) (xs : List ℕ)
    → IsVolume fs xs
    → x < fs.s_fsize
    → Fresh x xs
    → fs.s_nfree ≡ nicfree
    → Chain fs.bo
        (blocks (written fs x (spill fs)))
        (fblk_nfree fs.bo (blocks (written fs x (spill fs)) x))
        (fblk_free fs.bo (blocks (written fs x (spill fs)) x))
        xs
spill-Chain fs x xs v lt fresh full = rw count (
    Chain-same fs.bo (blocks fs) (blocks after) fs.s_nfree fs.s_free
      (fblk_free fs.bo (blocks after x)) xs (written_chain fs x (spill fs) xs v.mounted fresh)
      (λ i small.
        fblk_free_same fs.bo (blocks after x) (spill fs) i held (omega arith)
        ∙ fblk_free-fblk fs.bo fs.s_nfree fs.s_free i (omega arith)
            (Chain-small fs.bo (blocks fs) fs.s_nfree fs.s_free xs i v.chain small))
      v.chain)
  where
    after : S5Fs
    after = written fs x (spill fs)

    held : SameBytes (blocks after x) (spill fs) 0 202
    held j lo hi = written_self fs x (spill fs) j (omega (arith, v.mounted.large))

    count : fblk_nfree fs.bo (blocks after x) ≡ fs.s_nfree
    count =
        fblk_nfree_same fs.bo (blocks after x) (spill fs) held
        ∙ fblk_nfree-fblk fs.bo fs.s_nfree fs.s_free (omega arith)

-- All blocks but `x` hold what they held.
abbrev pub SameBut : ℕ → S5Fs → S5Fs → Type 0
SameBut x fs fs' = (y i : ℕ) → y ≢ x → i < fs.prof.bsize → blocks fs' y i ≡ blocks fs y i

-- On a consistent volume, s5fs_bfree puts a data block that is not free in front of the free list,
-- keeps the volume consistent, and writes to that block at most.
pub bfree-cons :
    (fs : S5Fs) (x : ℕ) (xs : List ℕ)
    → IsVolume fs xs
    → InData fs x
    → Fresh x xs
    → IsVolume (bfree x fs) (x ∷ xs) × SameBut x fs (bfree x fs)
bfree-cons fs x xs v d fresh = elim (dec_lt fs.s_nfree nicfree) [
  | yes room ↦ rw (bfree_room fs x pos room) (
    record {
      mounted = v.mounted;
      chain =
          Chain-push fs.bo (blocks fs) fs.s_nfree fs.s_free x xs
            (Chain-size fs.bo (blocks fs) fs.s_nfree fs.s_free xs v.chain).0 room pos small v.chain;
      range = (d, v.range);
      distinct = (fresh, v.distinct);
      counted = omega (arith, v.counted);
    },
    λ y i ne lt. refl,
  )
  | no no_room ↦
      let full : fs.s_nfree ≡ nicfree =
        omega (arith, Chain-size fs.bo (blocks fs) fs.s_nfree fs.s_free xs v.chain) in
      rw (bfree_full fs x v.mounted pos d.1 full) (
        record {
          mounted = written-Mounted fs x (spill fs) v.mounted d.1;
          chain =
              (omega arith, omega arith, refl, pos, small, spill-Chain fs x xs v d.1 fresh full);
          range = (d, v.range);
          distinct = (fresh, v.distinct);
          counted = omega (arith, v.counted);
        },
        λ y i ne lt. written_other fs x (spill fs) y i ne lt,
      )
]
  where
    pos : 0 < x
    pos = omega (arith, v.mounted.low)

    small : x < 2 ^ 32
    small = omega (arith, v.mounted.small)

-- On a consistent volume, a write to a block inside the volume that is not free leaves the free
-- list as it is.
pub wtblk-IsVolume :
    (fs : S5Fs) (x : ℕ) (buf : Buf) (xs : List ℕ)
    → IsVolume fs xs
    → x < fs.s_fsize
    → Fresh x xs
    → IsVolume (wtblk x buf fs) xs
wtblk-IsVolume fs x buf xs v lt fresh = rw (wtblk_lem fs x buf v.mounted lt) (record {
  mounted = written-Mounted fs x buf v.mounted lt;
  chain =
      Chain-same fs.bo (blocks fs) (blocks (written fs x buf)) fs.s_nfree fs.s_free fs.s_free xs
        (written_chain fs x buf xs v.mounted fresh) (λ i lt. refl) v.chain;
  range = v.range;
  distinct = v.distinct;
  counted = v.counted;
})

pub limits-bfree : (fs : S5Fs) (x : ℕ) → SameLimits fs (bfree x fs)
unfolding bfree put_fblk wtblk
limits-bfree fs x = ground arith

pub limits-wtblk : (fs : S5Fs) (x : ℕ) (buf : Buf) → SameLimits fs (wtblk x buf fs)
unfolding wtblk
limits-wtblk fs x buf = ground arith
