-- ===== src/Rw/FreeInode.antt =====
-- A number that the scan of ialloc_scan finds names a free inode.
use s5fs.Base.{
  ℕ, zero, suc, ◌+◌, ◌-◌, ◌*◌, ◌/◌, ◌^◌, ◌≤◌, ◌<◌, ◌≡◌, refl, sym, ap, subst, ◌∙◌, true, false,
  some, arith, dec_lt, ltb, ◌==◌, if◌then◌else◌, lt→ltb,
}
use s5fs.Layout.{dinodesz, iliststart, rootino, u32, di_mode, IsProfile}
use s5fs.Endian.{Buf, Endian, pdp11, le, be, get16, SameBytes, get16_same}
use s5fs.Image.{block, times_mono}
use s5fs.Writer.{itod, itoo, window, S5Fs}
use s5fs.Rw.Dir.{ialloc_blocks, scan_block}
use s5fs.Rw.Slots.{scan_block-free}
use s5fs.FreeList.Volume.{blocks, IsMounted, rdblk_lem, block_fits}
use s5fs.Inode.RoundTrip.{reader_of, IsInode}
use s5fs.Inode.{Inode, iget, decode_inode, slot}
use s5fs.Inode.Place.{inopb-profile, place_lem}
use s5fs.Inode.Bytes.{iget_bytes}

-- The scan of the blocks of the i-list leaves the handle alone, and a number that is not 0 names a
-- slot of one of the blocks, which holds the mode 0.
abbrev pub Found : S5Fs → ℕ → ℕ → ℕ → Type 0
Found fs n blk ino =
    (d k : ℕ) × (blk ≤ d)
    × (d < blk + n)
    × (k < fs.prof.inopb)
    × (ino ≡ u32 ((d - 2) * fs.prof.inopb + k + 1))
    × (rootino ≤ ino)
    × (get16 fs.bo (blocks fs d) (k * dinodesz + di_mode) ≡ 0)

-- The mode of slot `k` in the buffer that block `d` is read into.
pub slot_mode :
    (fs : S5Fs) (d k : ℕ) (old : Buf)
    → k * dinodesz + dinodesz ≤ fs.prof.bsize
    → get16 fs.bo
        (λ i. if ltb i fs.prof.bsize then blocks fs d i else old i)
        (k * dinodesz + di_mode)
      ≡ get16 fs.bo (blocks fs d) (k * dinodesz + di_mode)
slot_mode fs d k old h =
    get16_same fs.bo _ (blocks fs d) (k * dinodesz + di_mode)
      (λ j lo hi. rw (lt→ltb j fs.prof.bsize (omega arith)) refl)

pub ialloc_blocks-Found :
    (fs : S5Fs) (n blk : ℕ) (pb : Buf)
    → IsMounted fs
    → blk + n ≤ fs.s_fsize
    → fs.prof.inopb * dinodesz ≤ fs.prof.bsize
    → ((ialloc_blocks n blk pb fs).1 ≡ fs)
      × (0 < (ialloc_blocks n blk pb fs).0 → Found fs n blk (ialloc_blocks n blk pb fs).0)
unfolding ialloc_blocks
ialloc_blocks-Found fs zero blk pb m h fits = (refl, λ p. ground arith)
ialloc_blocks-Found fs (suc n) blk pb m h fits =
    rw (rdblk_lem fs blk pb m (omega arith)) (elim (dec_lt 0 ino) [
      | yes p ↦
          let (k, lo, hi, at, res, free) =
            scan_block-free fs.bo fs.prof.inopb blk buf fs.prof.inopb 0 p in
          let taken : (ino == 0) ≡ false = ground arith in
          rw taken (
            refl,
            λ q. (
              blk,
              k,
              omega arith,
              omega arith,
              omega arith,
              at,
              res,
              sym (slot_mode fs blk k pb (omega (arith, fits, hi))) ∙ free,
            ),
          )
      | no p ↦
          let (same, rest) = ialloc_blocks-Found fs n (blk + 1) buf m (omega arith) fits in
          let none_here : (ino == 0) ≡ true = ground arith in
          rw none_here (
            same,
            λ q.
                let (d, k, low, high, slot_of, at, res, free) = rest q in
                (d, k, omega arith, omega arith, slot_of, at, res, free),
          )
    ])
  where
    buf : Buf
    buf i = if ltb i fs.prof.bsize then blocks fs blk i else pb i

    ino : ℕ
    ino = scan_block fs.bo fs.prof.inopb blk buf fs.prof.inopb 0

pub inopb_fits : (bsize : ℕ) → bsize / dinodesz * dinodesz ≤ bsize
inopb_fits bsize = omega arith

-- The number of slot `k` of block `d`.
place :
    (fs : S5Fs)
    → IsProfile fs.prof
    → (d k : ℕ) → 2 ≤ d
    → d < fs.s_isize
    → k < fs.prof.inopb
    → (fs.s_isize - 2) * fs.prof.inopb < 2 ^ 16
    → let ino : ℕ = u32 ((d - 2) * fs.prof.inopb + k + 1) in
      (ino < 2 ^ 16) × (itod fs.prof.inopb ino ≡ d) × (itoo fs.prof.inopb ino ≡ k)
place fs p d k low high h small =
    let inside : (d - 2) * fs.prof.inopb + k + 1 < 2 ^ 16 =
      omega (arith, times_mono (d - 2 + 1) (fs.s_isize - 2) fs.prof.inopb (omega arith)) in
    let e : fs.prof.inopb ≡ fs.prof.bsize / dinodesz = inopb-profile fs.prof p in
    let lt : k < fs.prof.bsize / dinodesz = rw e at h in
    let top : (d - 2) * (fs.prof.bsize / dinodesz) + k + 1 < 2 ^ 16 = rw e at inside in
    let q = place_lem fs.prof.bsize d k p.size low lt top in rw e (q.0, q.1, q.2)

next : (o j : ℕ) → o + (j + 1) ≡ o + j + 1
next o j = omega arith

pub get16-window : (e : Endian) (b : Buf) (o j : ℕ) → get16 e (window b o) j ≡ get16 e b (o + j)
unfolding get16 window
get16-window pdp11 b o j = ap (λ q. b (o + j) + b q * 256) (next o j)
get16-window le b o j = ap (λ q. b (o + j) + b q * 256) (next o j)
get16-window be b o j = ap (λ q. b (o + j) * 256 + b q) (next o j)

-- The inode of a slot of the i-list that holds the mode 0.
slot-iget :
    (fs : S5Fs) (uninit : Buf) (d k : ℕ)
    → IsMounted fs
    → IsProfile fs.prof
    → fs.s_isize ≤ fs.s_fsize
    → (fs.s_isize - 2) * fs.prof.inopb < 2 ^ 16
    → 2 ≤ d
    → d < fs.s_isize
    → k < fs.prof.inopb
    → rootino ≤ u32 ((d - 2) * fs.prof.inopb + k + 1)
    → get16 fs.bo (blocks fs d) (k * dinodesz + di_mode) ≡ 0
    → (i : Inode) × (iget (reader_of fs) fs.fd uninit (u32 ((d - 2) * fs.prof.inopb + k + 1))
        ≡ some i)
      × (i.mode ≡ 0)
unfolding decode_inode
slot-iget fs uninit d k m p fits small low high slot_of res free =
    (decode_inode fs.bo ino bytes.0, bytes.1, mode)
  where
    ino : ℕ
    ino = u32 ((d - 2) * fs.prof.inopb + k + 1)

    at : (ino < 2 ^ 16) × (itod fs.prof.inopb ino ≡ d) × (itoo fs.prof.inopb ino ≡ k)
    at = place fs p d k low high slot_of small

    v : IsInode fs ino
    v = record {
      mounted = m;
      profile = p;
      positive = omega arith;
      short = at.0;
      listed = omega (arith, at.1, high);
      data_after = fits;
    }

    bytes :
        (dp : Buf) × (iget (reader_of fs) fs.fd uninit ino ≡ some (decode_inode fs.bo ino dp))
        × SameBytes dp
            (window (block fs.fd fs.base fs.prof.bsize (itod fs.prof.inopb ino)) (slot fs ino))
            0
            dinodesz
    bytes =
        iget_bytes fs fs.fd ino uninit v
          (block_fits fs (itod fs.prof.inopb ino) m (omega (arith, at.1, high, fits)))

    mode : get16 fs.bo bytes.0 di_mode ≡ 0
    mode =
        get16_same fs.bo bytes.0 _ di_mode (λ j lo hi. bytes.2 j lo (omega arith))
        ∙ get16-window fs.bo (blocks fs (itod fs.prof.inopb ino)) (slot fs ino) di_mode
        ∙ rw (at.1, at.2) free

pub Found-iget :
    (fs : S5Fs) (uninit : Buf) (n ino : ℕ)
    → IsMounted fs
    → IsProfile fs.prof
    → fs.s_isize ≤ fs.s_fsize
    → (fs.s_isize - 2) * fs.prof.inopb < 2 ^ 16
    → iliststart + n ≤ fs.s_isize
    → Found fs n iliststart ino
    → (rootino ≤ ino) × (i : Inode) × (iget (reader_of fs) fs.fd uninit ino ≡ some i) × (i.mode ≡ 0)
Found-iget fs uninit n ino m p fits small whole (d, k, low, high, slot_of, at, res, free) =
    let (i, got, mode) : (i : Inode) × (iget (reader_of fs) fs.fd uninit ino ≡ some i)
        × (i.mode ≡ 0) =
      subst (λ q. (i : Inode) × (iget (reader_of fs) fs.fd uninit q ≡ some i) × (i.mode ≡ 0))
        (sym at)
        (slot-iget fs uninit d k m p fits small low (omega arith) slot_of (omega (arith, at, res))
          free) in
    (res, i, got, mode)
