-- ===== src/Mkfs/Whole.antt =====
-- s5fs_freelist as a whole: the free list, and the inode that holds the bad blocks.
use s5fs.Base.{
  ℕ, zero, suc, ◌+◌, ◌-◌, ◌/◌, ◌%◌, ◌≤◌, ◌<◌, ◌≡◌, refl, sym, ap, subst, ◌∙◌, ◌≢◌, ◌⊎◌, inl, inr,
  true, false, ◌&&◌, ◌||◌, some, List, arith, ltb, leb, ◌==◌, if◌then◌else◌, Bool-cases, All, Fresh,
  All-mono, lt→ltb,
}
use s5fs.Layout.{dinodesz, maxfn, u32, u16, Profile, profile, ifreg, IsProfile}
use s5fs.Endian.{Buf}
use s5fs.Fields.{put, put_fields}
use s5fs.Writer.{itod, wtblk, window, splice, S5Fs, do_op, put_fblk, bfree}
use s5fs.Mkfs.Free.{build_list-IsVolume}
use s5fs.Mkfs.FreeList.{free_group, free_groups, build_list, freelist}
use s5fs.Mkfs.Groups.{Listed}
use s5fs.Mkfs.Dir.{no_inode, map_small, iput}
use s5fs.FreeList.Volume.{IsVolume, InData, IsMounted, rdblk_lem, blocks}
use s5fs.FreeList.Stack.{SameLimits, limits-wtblk, wtblk-IsVolume}
use s5fs.Inode.Place.{bsize_cases, inopb-profile}
use s5fs.Inode.{Inode, slot, inode_fields}
use s5fs.BlockMap.Tree.{bind}

-- What building the list leaves alone.
prof-bfree : (x : ℕ) (fs : S5Fs) → (bfree x fs).prof ≡ fs.prof
unfolding bfree put_fblk wtblk
prof-bfree x fs = ground arith

prof-free_group : (k i d : ℕ) (fs : S5Fs) → (free_group k i d fs).prof ≡ fs.prof
unfolding free_group
prof-free_group zero i d fs = refl
prof-free_group (suc k) i d fs =
    let f : ℕ = d - fs.adr i in
    elim (Bool-cases (ltb f fs.s_fsize && leb fs.s_isize f)) [
      | inl t ↦ rw (t, free_group) (prof-free_group k (i + 1) d (bfree f fs) ∙ prof-bfree f fs)
      | inr t ↦ rw (t, free_group) (prof-free_group k (i + 1) d fs)
    ]

prof-free_groups : (k fn d : ℕ) (fs : S5Fs) → (free_groups k fn d fs).prof ≡ fs.prof
unfolding free_groups
prof-free_groups zero fn d fs = refl
prof-free_groups (suc k) fn d fs =
    prof-free_groups k fn (d - fn) (free_group fn 0 d fs) ∙ prof-free_group fn 0 d fs

prof-build_list : (fs : S5Fs) → (build_list fs).prof ≡ fs.prof
unfolding build_list
prof-build_list fs = prof-free_groups _ fs.s_n _ (bfree 0 _) ∙ prof-bfree 0 _

-- Inode 1 stands at the beginning of the i-list.
first_inode : (p : Profile) → IsProfile p → (itod p.inopb 1 ≡ 2) × (0 < p.laddr)
unfolding itod profile
first_inode p h =
    let e : p.inopb ≡ p.bsize / dinodesz = inopb-profile p h in
    let direct : 0 < p.laddr = ground (arith, ap (λ q. q.laddr) h.derived) in
    elim (bsize_cases p.bsize h.size) [
      | inl b ↦ (rw (e, b) refl, direct)
      | inr (inl b) ↦ (rw (e, b) refl, direct)
      | inr (inr b) ↦ (rw (e, b) refl, direct)
    ]

-- The handle with an inode less in the total.
abbrev counted : S5Fs → S5Fs
counted fs = record fs { s_tinode = u32 (fs.s_tinode + 0xffffffff) }

counted-IsVolume : (fs : S5Fs) (xs : List ℕ) → IsVolume fs xs → IsVolume (counted fs) xs
counted-IsVolume fs xs v = record {
  mounted = v.mounted;
  chain = v.chain;
  range = v.range;
  distinct = v.distinct;
  counted = v.counted;
}

-- A regular file without blocks is one write to the block of its inode.
iput_file :
    (fs : S5Fs) (xs : List ℕ)
    → IsVolume fs xs
    → IsProfile fs.prof
    → 2 < fs.s_isize
    → fs.s_isize ≤ fs.s_fsize
    → (buf : Buf) × (iput (record no_inode { number = 1; mode = ifreg }) 0 (λ q. 0) fs
        ≡ some (tt, wtblk 2 buf (counted fs)))
unfolding iput map_small
iput_file fs xs v p room fits =
    let (at_two, direct) = first_inode fs.prof p in
    let read = rdblk_lem (counted fs) 2 fs.uninit v.mounted (omega (arith, room, fits)) in
    let inside : leb fs.s_isize 2 ≡ false = ground (arith, room) in
    let few : ltb 0 fs.prof.laddr ≡ true = lt→ltb 0 fs.prof.laddr direct in
    let held : Buf = λ i. if ltb i fs.prof.bsize then blocks fs 2 i else fs.uninit i in
    let o : ℕ = slot fs 1 in
    let j : Inode = record no_inode {
      number = 1;
      mode = ifreg;
      addr = λ k. if ltb k 0 && ltb k fs.prof.laddr then 0 else 0;
    } in
    let buf : Buf =
      splice held o dinodesz
        (put_fields fs.bo (window held o) (inode_fields fs.prof.naddr fs.s_time j)) in
    let mapped : map_small (record no_inode { number = 1; mode = ifreg }) 0 (λ q. 0) (counted fs)
        ≡ some (j, counted fs) =
      rw (few, map_small) refl in
    (
      buf,
      rw at_two (
          rw read (
            rw inside (
              bind (map_small (record no_inode { number = 1; mode = ifreg }) 0 (λ q. 0))
                (λ i. do_op (
                  wtblk 2 (
                    splice held o dinodesz
                      (put_fields fs.bo (window held o) (inode_fields fs.prof.naddr fs.s_time i)))))
                j (counted fs) (counted fs) mapped))),
    )

data-Fresh : (fs : S5Fs) (xs : List ℕ) (x : ℕ) → All (InData fs) xs → x < fs.s_isize → Fresh x xs
data-Fresh fs xs x range low = All-mono xs (λ y h e. omega (arith, h.0, low, e)) range

-- A volume that is ready for s5fs_freelist: no cache, no free block and no inode counted, an
-- interleave of 1 to 500 blocks, and a block or more of inodes.
pub record IsNew (fs : S5Fs) : Type 0 where
  pub mounted : IsMounted fs
  pub geometry : IsProfile fs.prof
  pub cache : fs.s_nfree ≡ 0
  pub total : fs.s_tfree ≡ 0
  pub first : fs.ino ≡ 0
  pub some_group : 0 < fs.s_n
  pub bounded : fs.s_n ≤ maxfn
  pub ilist : 2 < fs.s_isize
  pub data_after : fs.s_isize ≤ fs.s_fsize

-- On a mounted handle that is ready for it, s5fs_freelist, the write of inode 1 included, leaves a
-- consistent volume with no error. Its free list holds every data block, each once, but for the
-- last block of the volume where the number of this block is a multiple of the interleave: that one
-- is missing. No other block is on the list, and the limits are as before.
pub freelist-IsVolume :
    (fs : S5Fs)
    → IsNew fs
    → (fs' : S5Fs) × (xs : List ℕ) × (freelist fs ≡ some (tt, fs'))
      × IsVolume fs' xs
      × ((x : ℕ)
          → InData fs x
          → (x + 1 < fs.s_fsize) ⊎ ((fs.s_fsize - 1) % fs.s_n ≢ 0)
          → Listed x xs)
      × ((x : ℕ) → x + 1 ≡ fs.s_fsize → (fs.s_fsize - 1) % fs.s_n ≡ 0 → Fresh x xs)
      × SameLimits fs fs'
unfolding freelist
freelist-IsVolume fs new =
    let (xs, v, listed, last, limits) =
      build_list-IsVolume fs new.mounted new.cache new.total new.some_group in
    let b : S5Fs = build_list fs in
    let geometry : IsProfile b.prof = subst IsProfile (sym (prof-build_list fs)) new.geometry in
    let (buf, put) =
      iput_file b xs v geometry (omega (arith, limits.0, new.ilist))
        (omega (arith, limits.0, limits.1, new.data_after)) in
    let number : u16 (fs.ino + 1) ≡ 1 = omega (arith, new.first) in
    let guard : (fs.s_n == 0 || ltb maxfn fs.s_n) ≡ false =
      ground (arith, new.some_group, new.bounded) in
    let kept : SameLimits (counted b) (wtblk 2 buf (counted b)) = limits-wtblk (counted b) 2 buf in
    (
      wtblk 2 buf (counted b),
      xs,
      rw guard
          (ap (λ n. iput (record no_inode { number = n; mode = ifreg }) 0 (λ q. 0) b) number ∙ put),
      wtblk-IsVolume (counted b) 2 buf xs (counted-IsVolume b xs v)
          (omega (arith, limits.0, limits.1, new.ilist, new.data_after))
          (data-Fresh b xs 2 v.range (omega (arith, limits.0, new.ilist))),
      listed,
      last,
      (kept.0 ∙ limits.0, kept.1 ∙ limits.1),
    )
