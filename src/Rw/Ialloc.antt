-- ===== src/Rw/Ialloc.antt =====
-- What ialloc_scan finds: a number whose inode is free, or that there is none.
use s5fs.Base.{
  ℕ, zero, suc, ◌+◌, ◌-◌, ◌*◌, ◌/◌, ◌^◌, ◌≤◌, ◌<◌, ◌≡◌, sym, ap, subst, ◌∙◌, some, arith, dec_lt,
  ltb, ◌==◌, if◌then◌else◌, ◌⊎◌, ◌≢◌, ℕ_discrete, inl, inr,
}
use s5fs.Layout.{dinodesz, iliststart, rootino, u32, di_mode, IsProfile, Profile}
use s5fs.Endian.{Buf, get16, get16_same}
use s5fs.Writer.{itod, itoo, S5Fs}
use s5fs.Rw.Dir.{ialloc_blocks, ialloc_scan, scan_block}
use s5fs.Rw.Slots.{scan_block-used}
use s5fs.FreeList.Volume.{blocks, IsMounted, rdblk_lem, block_fits}
use s5fs.Inode.RoundTrip.{reader_of, IsInode}
use s5fs.Inode.{Inode, iget, decode_inode, slot}
use s5fs.Inode.Place.{bsize_cases, inopb-profile}
use s5fs.Inode.Bytes.{iget_bytes}
use s5fs.Rw.FreeInode.{slot_mode, ialloc_blocks-Found, inopb_fits, Found-iget, get16-window}

-- In the blocks of the i-list every inode but the reserved one has a mode.
abbrev Full : S5Fs → ℕ → ℕ → Type 0
Full fs n blk =
    (d k : ℕ)
    → blk ≤ d
    → d < blk + n
    → k < fs.prof.inopb
    → rootino ≤ u32 ((d - 2) * fs.prof.inopb + k + 1)
    → get16 fs.bo (blocks fs d) (k * dinodesz + di_mode) ≢ 0

ialloc_blocks-Full :
    (fs : S5Fs) (n blk : ℕ) (pb : Buf)
    → IsMounted fs
    → blk + n ≤ fs.s_fsize
    → fs.prof.inopb * dinodesz ≤ fs.prof.bsize
    → (ialloc_blocks n blk pb fs).0 ≡ 0
    → Full fs n blk
unfolding ialloc_blocks
ialloc_blocks-Full fs zero blk pb m h fits e d k lo hi slot_of res = absurd (omega arith)
ialloc_blocks-Full fs (suc n) blk pb m h fits e d k lo hi slot_of res =
    let buf : Buf = λ i. if ltb i fs.prof.bsize then blocks fs blk i else pb i in
    let ino : ℕ = scan_block fs.bo fs.prof.inopb blk buf fs.prof.inopb 0 in
    let turn : (if ino == 0 then ialloc_blocks n (blk + 1) buf fs else (ino, fs)).0 ≡ 0 =
      rw (rdblk_lem fs blk pb m (omega arith)) at e in
    let nothing : ino ≡ 0 = ground (arith, turn) in
    let rest : (ialloc_blocks n (blk + 1) buf fs).0 ≡ 0 = ground (arith, turn, nothing) in
    elim (ℕ_discrete d blk) [
      | yes here ↦
          let in_buf : (k * dinodesz + dinodesz) ≤ fs.prof.bsize = omega (arith, fits, slot_of) in
          let used =
            scan_block-used fs.bo fs.prof.inopb blk buf fs.prof.inopb 0 nothing k (omega arith)
              (omega arith)
              (subst (λ q. rootino ≤ u32 ((q - 2) * fs.prof.inopb + k + 1)) here res) in
          λ free. used (
            slot_mode fs blk k pb in_buf
            ∙ subst (λ q. get16 fs.bo (blocks fs q) (k * dinodesz + di_mode) ≡ 0) here free)
      | no past ↦
          ialloc_blocks-Full fs n (blk + 1) buf m (omega arith) fits rest d k (omega (arith, past))
            (omega arith) slot_of res
    ]

-- The number from its place.
number_of :
    (p : Profile) (ino : ℕ)
    → IsProfile p
    → 0 < ino
    → ino < 2 ^ 16
    → (u32 ((itod p.inopb ino - 2) * p.inopb + itoo p.inopb ino + 1) ≡ ino)
      × (2 ≤ itod p.inopb ino)
      × (itoo p.inopb ino < p.inopb)
unfolding itod itoo
number_of p ino h pos small =
    let e : p.inopb ≡ p.bsize / dinodesz = inopb-profile p h in
    elim (bsize_cases p.bsize h.size) [
      | inl b ↦ rw (e, b) (omega arith, omega arith, omega arith)
      | inr (inl b) ↦ rw (e, b) (omega arith, omega arith, omega arith)
      | inr (inr b) ↦ rw (e, b) (omega arith, omega arith, omega arith)
    ]

-- The reader finds a mode in each inode of the i-list but the reserved one.
abbrev pub NoneFree : S5Fs → Buf → Type 0
NoneFree fs uninit =
    (ino : ℕ) (i : Inode)
    → rootino ≤ ino
    → ino < 2 ^ 16
    → itod fs.prof.inopb ino < fs.s_isize
    → iget (reader_of fs) fs.fd uninit ino ≡ some i
    → i.mode ≢ 0

Full-NoneFree :
    (fs : S5Fs) (uninit : Buf)
    → IsMounted fs
    → IsProfile fs.prof
    → fs.s_isize ≤ fs.s_fsize
    → Full fs (fs.s_isize - iliststart) iliststart
    → NoneFree fs uninit
unfolding decode_inode
Full-NoneFree fs uninit m p fits full ino i low small listed got no_mode =
    let (number, behind, within) = number_of fs.prof ino p (omega arith) small in
    let d : ℕ = itod fs.prof.inopb ino in
    let v : IsInode fs ino = record {
      mounted = m;
      profile = p;
      positive = omega arith;
      short = small;
      listed = listed;
      data_after = fits;
    } in
    let (dp, read, same) =
      iget_bytes fs fs.fd ino uninit v (block_fits fs d m (omega (arith, listed, fits))) in
    let is : i ≡ decode_inode fs.bo ino dp = cc in
    let mode : i.mode ≡ get16 fs.bo (blocks fs d) (slot fs ino + di_mode) =
      ap (λ (j : Inode). j.mode) is
      ∙ get16_same fs.bo dp _ di_mode (λ j lo hi. same j lo (omega arith))
      ∙ get16-window fs.bo (blocks fs d) (slot fs ino) di_mode in
    full d (itoo fs.prof.inopb ino) behind (omega (arith, listed, behind)) within
      (omega (arith, number, low)) (sym mode ∙ no_mode)

-- On a mounted volume whose inode numbers have 16 bits, ialloc_scan changes nothing, whatever it
-- finds. Either it gives 0, and then the reader finds a mode other than 0 in each inode of the
-- i-list from number 2 on; or it gives a number of 2 or more, and the reader finds the mode 0 in the
-- inode of that number.
pub ialloc_scan-iget :
    (fs : S5Fs) (uninit : Buf)
    → IsMounted fs
    → IsProfile fs.prof
    → fs.s_isize ≤ fs.s_fsize
    → (fs.s_isize - 2) * fs.prof.inopb < 2 ^ 16
    → ((ialloc_scan fs).1 ≡ fs)
      × (((ialloc_scan fs).0 ≡ 0) × NoneFree fs uninit
          ⊎ ((i : Inode) × (rootino ≤ (ialloc_scan fs).0)
              × (iget (reader_of fs) fs.fd uninit (ialloc_scan fs).0 ≡ some i)
              × (i.mode ≡ 0)))
unfolding ialloc_scan
ialloc_scan-iget fs uninit m p fits small =
    let whole : fs.prof.inopb * dinodesz ≤ fs.prof.bsize =
      rw (inopb-profile fs.prof p) (inopb_fits fs.prof.bsize) in
    let (same, found) =
      ialloc_blocks-Found fs (fs.s_isize - iliststart) iliststart fs.uninit m (omega arith) whole in
    (
      same,
      elim (dec_lt 0 (ialloc_scan fs).0) [
        | no nothing ↦
            let zero_found : (ialloc_scan fs).0 ≡ 0 = omega (arith, nothing) in
            inl (
              zero_found,
              Full-NoneFree fs uninit m p fits (
                  ialloc_blocks-Full fs (fs.s_isize - iliststart) iliststart fs.uninit m
                    (omega arith) whole zero_found),
            )
        | yes pos ↦
            let (res, i, got, mode) =
              Found-iget fs uninit (fs.s_isize - iliststart) _ m p fits small (omega (arith, m.low))
                (found pos) in
            inr (i, res, got, mode)
      ],
    )
