-- ===== src/Mkfs/Free.antt =====
-- The free list of a new volume.
use s5fs.Base.{
  ℕ, ◌+◌, ◌-◌, ◌*◌, ◌/◌, ◌%◌, ◌<◌, ◌≡◌, refl, ◌∙◌, ◌≢◌, ◌⊎◌, inl, inr, false, List, [], arith,
  ℕ_discrete, leb, Fresh,
}
use s5fs.Writer.{S5Fs, bfree}
use s5fs.FreeList.Volume.{IsVolume, InData, IsMounted}
use s5fs.FreeList.Stack.{SameLimits}
use s5fs.Mkfs.FreeList.{permute, round_up, build_list}
use s5fs.Mkfs.Groups.{IsOrder, Listed, InData-same, free_groups-AllFreed}
use s5fs.Mkfs.Interleave.{permute-IsOrder, round_up-IsNext, round_up_exact, IsNext}

-- The handle with the interleave filled in.
abbrev ready : S5Fs → S5Fs
ready fs = record fs {
  adr = permute fs.s_n fs.s_m fs.s_n (λ q. false) 0 0 fs.adr;
  ino = fs.ino + 1;
}

first_IsVolume :
    (fs : S5Fs)
    → IsMounted fs
    → fs.s_nfree ≡ 0
    → fs.s_tfree ≡ 0
    → IsVolume (bfree 0 (ready fs)) []
      × ((bfree 0 (ready fs)).adr ≡ (ready fs).adr)
      × SameLimits fs (bfree 0 (ready fs))
unfolding bfree
first_IsVolume fs m n t =
    let room : leb 50 fs.s_nfree ≡ false = ground (arith, n) in
    rw room (
      record {
        mounted = m;
        chain = (omega (arith, n), ground (arith, n));
        range = tt;
        distinct = tt;
        counted = ground (arith, t);
      },
      refl,
      (refl, refl),
    )

div_up : (d n : ℕ) → 0 < n → d % n ≡ 0 → d ≡ d / n * n
div_up d n p h = omega arith

IsNext-above :
    (fn x size d : ℕ)
    → IsNext fn (size - 1) d
    → x < size
    → (x + 1 < size) ⊎ ((size - 1) % fn ≢ 0)
    → x < d
IsNext-above fn x size d n lt (inl h) = omega (arith, n.low)
IsNext-above fn x size d n lt (inr h) = elim (ℕ_discrete d (size - 1)) [
  | yes e ↦ absurd (h (rw e at n.multiple))
  | no ne ↦ omega (arith, n.low)
]

-- On a mounted handle with an empty cache, no free blocks counted and an interleave of one block or
-- more, the part of s5fs_freelist before its inode builds a consistent volume. Its free list holds every data block, each once,
-- but for the last block of the volume where the number of this block is a multiple of the
-- interleave: that one is missing. No other block is on the list, and the limits are as before.
pub build_list-IsVolume :
    (fs : S5Fs)
    → IsMounted fs
    → fs.s_nfree ≡ 0
    → fs.s_tfree ≡ 0
    → 0 < fs.s_n
    → (xs : List ℕ) × IsVolume (build_list fs) xs
      × ((x : ℕ)
          → InData fs x
          → (x + 1 < fs.s_fsize) ⊎ ((fs.s_fsize - 1) % fs.s_n ≢ 0)
          → Listed x xs)
      × ((x : ℕ) → x + 1 ≡ fs.s_fsize → (fs.s_fsize - 1) % fs.s_n ≡ 0 → Fresh x xs)
      × SameLimits fs (build_list fs)
unfolding build_list
build_list-IsVolume fs m n t pos =
    let d : ℕ = round_up fs.s_n fs.s_n (fs.s_fsize - 1) in
    let next = round_up-IsNext fs.s_n (fs.s_fsize - 1) pos in
    let (v, same, limits) = first_IsVolume fs m n t in
    let order : IsOrder fs.s_n (bfree 0 (ready fs)).adr =
      rw same (permute-IsOrder fs.s_n fs.s_m fs.adr pos) in
    let (xs, f) =
      free_groups-AllFreed fs.s_n (d / fs.s_n) d (bfree 0 (ready fs)) [] order
        (div_up d fs.s_n pos next.multiple) v tt in
    (
      xs,
      f.volume,
      λ x inside c.
          f.below x (IsNext-above fs.s_n x fs.s_fsize d next inside.1 c)
            (InData-same fs (bfree 0 (ready fs)) x limits inside),
      λ x e z. f.above x (omega (arith, round_up_exact fs.s_n fs.s_n (fs.s_fsize - 1) pos z)) tt,
      (f.limits.0 ∙ limits.0, f.limits.1 ∙ limits.1),
    )
