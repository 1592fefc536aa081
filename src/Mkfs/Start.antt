-- ===== src/Mkfs/Start.antt =====
-- The handle that s5fs_begin leaves is ready for s5fs_freelist.
use s5fs.Base.{
  ℕ, zero, suc, ◌+◌, ◌-◌, ◌*◌, ◌%◌, ◌≤◌, ◌<◌, ◌≡◌, refl, sym, ap, subst, ◌∙◌, ◌≢◌, ◌⊎◌, inl, inr,
  Bool, true, false, not, ◌&&◌, ◌||◌, none, some, List, arith, ltb, leb, ◌==◌, if◌then◌else◌,
  Option-cases, Fresh,
}
use s5fs.Layout.{maxfn, maxino, maxfsblks, iliststart, u32, bsize_ok, profile}
use s5fs.Endian.{Buf, Endian}
use s5fs.Image.{File}
use s5fs.Writer.{
  fail, wtblk, zeros, Failure, bad_order, bad_bsize, volume_large, too_small, bad_ratio,
  too_many_inodes, S5Fs,
}
use s5fs.Mkfs.Begin.{Opts, truncate, interleave_m, interleave_n, ninodeblks, zero_ilist, begin}
use s5fs.Mkfs.FreeList.{freelist}
use s5fs.Mkfs.Groups.{Listed}
use s5fs.Mkfs.Whole.{IsNew, freelist-IsVolume}
use s5fs.FreeList.Volume.{IsVolume, InData, written, wtblk_lem, written-Mounted}
use s5fs.FreeList.Stack.{SameLimits}
use s5fs.Inode.Place.{bsize_cases}
use s5fs.Superblock.{blank}

interleave_n-le : (n : ℕ) → (0 < interleave_n n) × (interleave_n n ≤ maxfn)
unfolding interleave_n
interleave_n-le n = ground arith

ninodeblks-pos :
    (b nblocks ninode : ℕ) → bsize_ok b ≡ true → 0 < ninodeblks (profile b) nblocks ninode
unfolding ninodeblks profile
ninodeblks-pos b nblocks ninode good = elim (bsize_cases b good) [
  | inl e ↦ rw e (ground arith)
  | inr (inl e) ↦ rw e (ground arith)
  | inr (inr e) ↦ rw e (ground arith)
]

-- Zeroing blocks of the volume keeps it ready.
zero_ilist-IsNew : (k n : ℕ) (fs : S5Fs) → IsNew fs → n + k ≤ fs.s_fsize → IsNew (zero_ilist k n fs)
unfolding zero_ilist
zero_ilist-IsNew zero n fs new fits = new
zero_ilist-IsNew (suc k) n fs new fits =
    let fs1 : S5Fs = written fs n zeros in
    let wrote : wtblk n zeros fs ≡ fs1 = wtblk_lem fs n zeros new.mounted (omega arith) in
    let fs2 : S5Fs = record fs1 { s_tinode = u32 (fs1.s_tinode + fs1.prof.inopb) } in
    let new2 : IsNew fs2 = record {
      mounted = written-Mounted fs n zeros new.mounted (omega arith);
      geometry = new.geometry;
      cache = new.cache;
      total = new.total;
      first = new.first;
      some_group = new.some_group;
      bounded = new.bounded;
      ilist = new.ilist;
      data_after = new.data_after;
    } in
    subst
      (λ (q : S5Fs).
        IsNew (zero_ilist k (n + 1) (record q { s_tinode = u32 (q.s_tinode + q.prof.inopb) })))
      (sym wrote) (zero_ilist-IsNew k (n + 1) fs2 new2 (omega arith))

-- The handle before the i-list is zeroed, of a block size `b`, and the size of the image.
abbrev geometry_of : File → Buf → ℕ → ℕ → Opts → ℕ → Endian → S5Fs
geometry_of fd uninit now nblocks opts b e = record (blank fd uninit) {
  base = opts.base;
  sysv = opts.sysv;
  bo = e;
  prof = profile b;
  s_fsize = nblocks;
  s_n = interleave_n opts.n;
  s_m = interleave_m opts.m (interleave_n opts.n);
  s_time = elim (opts.mtime) as (λ x. ℕ) [ none ↦ now | some t ↦ u32 t ];
  s_isize = ninodeblks (profile b) nblocks opts.ninode + 2;
}

abbrev sized : File → Opts → ℕ → File
sized fd opts need = if opts.base == 0 || ltb fd.size need then truncate fd need else fd

size-sized : (fd : File) (opts : Opts) (need : ℕ) → need ≤ (sized fd opts need).size
unfolding truncate
size-sized fd opts need = ground arith

geometry_of-IsNew :
    (fd : File) (uninit : Buf) (now nblocks : ℕ) (opts : Opts) (b : ℕ) (e : Endian)
    → bsize_ok b ≡ true
    → nblocks ≤ maxfsblks
    → ninodeblks (profile b) nblocks opts.ninode + 2 < nblocks
    → IsNew (record (geometry_of fd uninit now nblocks opts b e) {
      fd = sized fd opts (opts.base + nblocks * b);
    })
unfolding profile blank
geometry_of-IsNew fd uninit now nblocks opts b e good small ratio = record {
  mounted = record {
    ok = refl;
    large = elim (bsize_cases b good) [
      | inl h ↦ omega (arith, h)
      | inr (inl h) ↦ omega (arith, h)
      | inr (inr h) ↦ omega (arith, h)
    ];
    fits = size-sized fd opts (opts.base + nblocks * b);
    small = omega (arith, small);
    low = omega arith;
  };
  geometry = record { size = good; derived = refl };
  cache = refl;
  total = refl;
  first = refl;
  some_group = (interleave_n-le opts.n).0;
  bounded = (interleave_n-le opts.n).1;
  ilist = omega (arith, ninodeblks-pos b nblocks opts.ninode good);
  data_after = omega (arith, ratio);
}

-- A check that begin passes.
passed :
    (g : Bool) (bad rest : S5Fs)
    → bad.error ≢ none
    → (if g then bad else rest).error ≡ none
    → (g ≡ false) × (rest.error ≡ none)
passed true bad rest h ok = absurd (h ok)
passed false bad rest h ok = (refl, ok)

error-fail : (m : Failure) (fs : S5Fs) → fs.error ≡ none → (fail m fs).error ≢ none
unfolding fail
error-fail m fs e h = let e' : (fail m fs).error ≡ some m = rw (e, fail) refl in cc

-- begin with the byte order given, check by check.
begin_checks :
    (fd : File) (uninit : Buf) (now nblocks : ℕ) (opts : Opts) (e : Endian)
    → opts.endian ≡ some e
    → begin fd uninit now nblocks opts ≡ (
        let b : ℕ = if opts.bsize == 0 then 1024 else opts.bsize in
        let start : S5Fs = record (blank fd uninit) { base = opts.base; sysv = opts.sysv } in
        let fs : S5Fs = record start { bo = e; prof = profile b } in
        let ready : S5Fs = geometry_of fd uninit now nblocks opts b e in
        let isize : ℕ = ninodeblks (profile b) nblocks opts.ninode + 2 in
        if not (bsize_ok b)
        then fail bad_bsize start
        else if ltb maxfsblks nblocks
        then fail volume_large fs
        else if ltb nblocks 8
        then fail too_small fs
        else if not (opts.ninode == 0) && ltb maxino opts.ninode
        then fail too_many_inodes ready
        else if leb nblocks isize
        then fail bad_ratio ready
        else zero_ilist
            (isize - iliststart)
            iliststart
            (record ready { fd = sized fd opts (opts.base + nblocks * b) }))
unfolding begin
begin_checks fd uninit now nblocks opts e h = rw (h, begin) refl

begin-IsNew :
    (fd : File) (uninit : Buf) (now nblocks : ℕ) (opts : Opts)
    → (begin fd uninit now nblocks opts).error ≡ none
    → IsNew (begin fd uninit now nblocks opts)
unfolding begin blank
begin-IsNew fd uninit now nblocks opts ok = elim (Option-cases opts.endian) [
  | inl e ↦
      let start : S5Fs = record (blank fd uninit) { base = opts.base; sysv = opts.sysv } in
      let failed : begin fd uninit now nblocks opts ≡ fail bad_order start = rw (e, begin) refl in
      absurd (error-fail bad_order start refl (ap (λ (q : S5Fs). q.error) (sym failed) ∙ ok))
  | inr (e, h) ↦
      let same = begin_checks fd uninit now nblocks opts e h in
      let b : ℕ = if opts.bsize == 0 then 1024 else opts.bsize in
      let start : S5Fs = record (blank fd uninit) { base = opts.base; sysv = opts.sysv } in
      let fs : S5Fs = record start { bo = e; prof = profile b } in
      let ready : S5Fs = geometry_of fd uninit now nblocks opts b e in
      let isize : ℕ = ninodeblks (profile b) nblocks opts.ninode + 2 in
      let r5 : S5Fs =
        zero_ilist (isize - iliststart) iliststart
          (record ready { fd = sized fd opts (opts.base + nblocks * b) }) in
      let r4 : S5Fs = if leb nblocks isize then fail bad_ratio ready else r5 in
      let r3 : S5Fs =
        if not (opts.ninode == 0) && ltb maxino opts.ninode
        then fail too_many_inodes ready
        else r4 in
      let r2 : S5Fs = if ltb nblocks 8 then fail too_small fs else r3 in
      let r1 : S5Fs = if ltb maxfsblks nblocks then fail volume_large fs else r2 in
      let (size_ok, ok1) =
        passed (not (bsize_ok b)) (fail bad_bsize start) r1 (error-fail bad_bsize start refl)
          (ap (λ (q : S5Fs). q.error) (sym same) ∙ ok) in
      let (small, ok2) =
        passed (ltb maxfsblks nblocks) (fail volume_large fs) r2 (error-fail volume_large fs refl)
          ok1 in
      let (large, ok3) =
        passed (ltb nblocks 8) (fail too_small fs) r3 (error-fail too_small fs refl) ok2 in
      let (few, ok4) =
        passed (not (opts.ninode == 0) && ltb maxino opts.ninode) (fail too_many_inodes ready) r4
          (error-fail too_many_inodes ready refl) ok3 in
      let (ratio, ok5) =
        passed (leb nblocks isize) (fail bad_ratio ready) r5 (error-fail bad_ratio ready refl)
          ok4 in
      let good : bsize_ok b ≡ true = ground (arith, size_ok) in
      let n : ℕ = ninodeblks (profile b) nblocks opts.ninode in
      let room : n + 2 < nblocks = ground (arith, ratio) in
      let new : IsNew (record ready { fd = sized fd opts (opts.base + nblocks * b) }) =
        geometry_of-IsNew fd uninit now nblocks opts b e good (ground (arith, small)) room in
      subst IsNew (sym (same ∙ rw (size_ok, small, large, few, ratio) refl))
        (zero_ilist-IsNew (n + 2 - iliststart) iliststart _ new (omega (arith, room)))
]

-- s5fs_begin without an error, and s5fs_freelist behind it with the count of free blocks at 0, as
-- s5fs_mkfs and cmd_restore call them, leave a consistent volume with no error, whatever the image
-- held and whatever the options are. Its free list holds each data block once, but for the last
-- block of the volume where the number of this block is a multiple of the interleave, and no other
-- block.
pub freelist-begin :
    (fd : File) (uninit : Buf) (now nblocks : ℕ) (opts : Opts)
    → (begin fd uninit now nblocks opts).error ≡ none
    → let fs : S5Fs = record (begin fd uninit now nblocks opts) { s_tfree = 0 } in
      (fs' : S5Fs) × (xs : List ℕ) × (freelist fs ≡ some (tt, fs'))
      × IsVolume fs' xs
      × ((x : ℕ)
          → InData fs x
          → (x + 1 < fs.s_fsize) ⊎ ((fs.s_fsize - 1) % fs.s_n ≢ 0)
          → Listed x xs)
      × ((x : ℕ) → x + 1 ≡ fs.s_fsize → (fs.s_fsize - 1) % fs.s_n ≡ 0 → Fresh x xs)
      × SameLimits fs fs'
freelist-begin fd uninit now nblocks opts ok =
    let new = begin-IsNew fd uninit now nblocks opts ok in
    freelist-IsVolume (record (begin fd uninit now nblocks opts) { s_tfree = 0 })
      (record {
        mounted = new.mounted;
        geometry = new.geometry;
        cache = new.cache;
        total = refl;
        first = new.first;
        some_group = new.some_group;
        bounded = new.bounded;
        ilist = new.ilist;
        data_after = new.data_after;
      })
