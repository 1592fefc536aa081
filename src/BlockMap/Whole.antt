-- ===== src/BlockMap/Whole.antt =====
-- bmap reads the map that s5fs_setblocks has laid down.
use s5fs.Base.{
  ℕ, ◌+◌, ◌-◌, ◌*◌, ◌/◌, ◌^◌, ◌≤◌, ◌<◌, ◌≡◌, refl, sym, ap, subst, ◌∙◌, inl, inr, true, some, List,
  arith, dec_lt, length, Fresh, lt→ltb,
}
use s5fs.Layout.{Profile, profile, IsProfile}
use s5fs.Endian.{Buf}
use s5fs.Writer.{S5Fs}
use s5fs.BlockMap.{bmap, direct_slots, setblocks}
use s5fs.Inode.{Inode, Fsr}
use s5fs.Inode.RoundTrip.{reader_of}
use s5fs.FreeList.Volume.{IsVolume, blocks}
use s5fs.Inode.Place.{bsize_cases}
use s5fs.BlockMap.Tree.{IsFan, held-eq, Whole}
use s5fs.BlockMap.Levels.{need_levels, room, bmap-direct, bmap-lookup, Leveled, leveled}

profile-IsFan :
    (p : Profile) → IsProfile p → IsFan p.nindir × (4 * p.nindir ≡ p.bsize) × (p.laddr ≤ p.naddr)
unfolding profile
profile-IsFan p h =
    let fan : p.nindir ≡ p.bsize / 4 = ap (λ q. q.nindir) h.derived in
    let few : p.laddr ≤ p.naddr =
      ground (arith, ap (λ q. q.naddr) h.derived, ap (λ q. q.laddr) h.derived) in
    elim (bsize_cases p.bsize h.size) [
      | inl e ↦ (inl (omega (arith, fan, e)), omega (arith, fan, e), few)
      | inr (inl e) ↦ (inr (inl (omega (arith, fan, e))), omega (arith, fan, e), few)
      | inr (inr e) ↦ (inr (inr (omega (arith, fan, e))), omega (arith, fan, e), few)
    ]

direct_slot :
    (naddr laddr : ℕ) (da : ℕ → ℕ) (n : ℕ) (i : Inode) (k : ℕ)
    → laddr ≤ naddr
    → k < laddr
    → k < n
    → (direct_slots naddr laddr da n i).addr k ≡ da k
unfolding direct_slots
direct_slot naddr laddr da n i k few lt within =
    rw (lt→ltb k naddr (omega (arith, few)), lt→ltb k laddr lt, lt→ltb k n within) refl

-- On a consistent volume with one of the block sizes, and with blocks enough on the free list,
-- s5fs_setblocks succeeds for any `n` block numbers of 32 bits within the capacity of a map, holes
-- included. With the inode that it leaves, bmap gives each of the numbers. The volume is consistent,
-- its free list is shorter by the indirect blocks that the map needs, and no block that was not
-- free has changed.
pub bmap-setblocks :
    (da : ℕ → ℕ) (n : ℕ) (i : Inode) (fs : S5Fs) (xs : List ℕ) (uninit : Buf)
    → IsProfile fs.prof
    → IsVolume fs xs
    → n ≤ fs.prof.laddr + room fs.prof.nindir 3 1
    → need_levels fs.prof.nindir 3 1 (n - fs.prof.laddr) ≤ length xs
    → ((j : ℕ) → j < n → da j < 2 ^ 32)
    → (i' : Inode) × (fs' : S5Fs) × (ys : List ℕ) × (setblocks da n i fs ≡ some ((true, i'), fs'))
      × IsVolume fs' ys
      × (length ys + need_levels fs.prof.nindir 3 1 (n - fs.prof.laddr) ≡ length xs)
      × ((lbn : ℕ) → lbn < n → bmap (reader_of fs') fs'.fd uninit i'.addr lbn ≡ da lbn)
      × ((y k : ℕ) → Fresh y xs → k < fs.prof.bsize → blocks fs' y k ≡ blocks fs y k)
unfolding setblocks
bmap-setblocks da n i fs xs uninit geometry v fits enough small =
    let (fan, wide, few) = profile-IsFan fs.prof geometry in
    let r : Fsr = reader_of fs in
    let laddr : ℕ = fs.prof.laddr in
    let i0 : Inode = direct_slots fs.prof.naddr laddr da n i in
    let l : Leveled r uninit fan wide 3 1 (λ q. da (laddr + q)) (n - laddr) i0 fs xs =
      leveled r uninit fan wide 3 1 (λ q. da (laddr + q)) (n - laddr) i0 fs xs (omega arith) refl v
        refl (omega arith) enough (λ j lt. small (laddr + j) (omega arith)) in
    let whole : Whole r uninit l.fs'.fd =
      subst (λ (q : Fsr). q.base + q.fsize * q.prof.bsize ≤ l.fs'.fd.size) l.step.reader
        l.step.volume.mounted.fits in
    (
      l.i',
      l.fs',
      l.ys,
      l.run,
      l.step.volume,
      l.left,
      λ lbn lt. elim (dec_lt lbn laddr) [
        | yes direct ↦
            ap (λ q. bmap q l.fs'.fd uninit l.i'.addr lbn) l.step.reader
            ∙ bmap-direct r l.fs'.fd uninit l.i'.addr lbn direct
            ∙ l.low lbn (omega (arith, direct))
            ∙ direct_slot fs.prof.naddr laddr da n i lbn few direct lt
        | no past ↦
            ap (λ q. bmap q l.fs'.fd uninit l.i'.addr lbn) l.step.reader
            ∙ bmap-lookup r l.fs'.fd uninit l.i'.addr lbn (omega (arith, past))
            ∙ l.found l.fs'.fd whole (λ y k taken ib. refl) (lbn - laddr) (omega (arith, past, lt))
            ∙ ap da (omega (arith, past))
      ],
      λ y k fresh ib.
          sym (ap (λ d. d y k) (held-eq r uninit l.fs' l.step.reader)) ∙ l.step.other y k fresh ib,
    )
