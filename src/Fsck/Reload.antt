-- ===== src/Fsck/Reload.antt =====
-- What a later run of fsck reads from the superblock that the repair of the free list wrote.
-- The superblock that the repair writes is as before below the count of the free list, and holds
-- the cache behind it.
use s5fs.Base.{ℕ, ◌+◌, ◌*◌, ◌^◌, ◌≤◌, ◌<◌, ◌≡◌, refl, sym, ◌∙◌, List, arith, All-mono}
use s5fs.Layout.{nicfree, superblk, clamp_nfree, sb_isize, sb_fsize, sb_nfree, sb_free}
use s5fs.Endian.{
  Buf, put16, get16, get32, SameBytes, get16-put16, get16_same, get32_same, put16-Outside,
  put32-Outside,
}
use s5fs.Image.{block}
use s5fs.Writer.{wtblk, put_longs}
use s5fs.Fsck.Check.{Ck, refs, ck_wtblk, is_sysv, tfree_off, tinode_off, load_super}
use s5fs.Fsck.Salvage.{Salvage, write_super}
use s5fs.Fsck.Rebuild.{as_handle, SameCk}
use s5fs.FreeList.Volume.{IsVolume, blocks}
use s5fs.FreeList.Stack.{wtblk-IsVolume}
use s5fs.FreeList.Fblk.{put_longs-Outside, get32-put_longs}
use s5fs.FreeList.Chain.{Chain, Chain-size, Chain-same, Chain-small, All-refl}
use s5fs.Fsck.Agrees.{IsReadable}

low_super :
    (files : ℕ) (sb : Buf) (s : Ck × Salvage)
    → SameBytes
        (write_super files sb s).1
        (put_longs s.0.bo (put16 s.0.bo sb sb_nfree s.1.nf) sb_free s.1.fr nicfree)
        0
        208
unfolding write_super
low_super files sb s j lo hi =
    let top : 208 ≤ tfree_off (is_sysv s.0.bo sb) = ground arith in
    let top' : 208 ≤ tinode_off (is_sysv s.0.bo sb) = ground arith in
    put16-Outside s.0.bo _ (tinode_off (is_sysv s.0.bo sb)) _ j (omega arith)
    ∙ put32-Outside s.0.bo _ (tfree_off (is_sysv s.0.bo sb)) _ j (omega arith)

low_start : (files : ℕ) (sb : Buf) (s : Ck × Salvage) → SameBytes (write_super files sb s).1 sb 0 6
low_start files sb s j lo hi =
    low_super files sb s j lo (omega arith)
    ∙ put_longs-Outside s.0.bo _ sb_free s.1.fr nicfree j (omega arith)
    ∙ put16-Outside s.0.bo sb sb_nfree s.1.nf j (omega arith)

stored_nfree :
    (files : ℕ) (sb : Buf) (s : Ck × Salvage)
    → s.1.nf ≤ nicfree
    → clamp_nfree (get16 s.0.bo (write_super files sb s).1 sb_nfree) ≡ s.1.nf
unfolding clamp_nfree
stored_nfree files sb s h = rw stored (ground arith)
  where
    stored : get16 s.0.bo (write_super files sb s).1 sb_nfree ≡ s.1.nf
    stored =
        get16_same s.0.bo _ (put16 s.0.bo sb sb_nfree s.1.nf) sb_nfree (λ j lo hi.
          low_super files sb s j (omega arith) (omega arith)
          ∙ put_longs-Outside s.0.bo (put16 s.0.bo sb sb_nfree s.1.nf) sb_free s.1.fr nicfree j
              (omega arith))
        ∙ omega (arith, get16-put16 s.0.bo sb sb_nfree s.1.nf)

stored_free :
    (files : ℕ) (sb : Buf) (s : Ck × Salvage) (k : ℕ)
    → k < nicfree
    → s.1.fr k < 2 ^ 32
    → get32 s.0.bo (write_super files sb s).1 (sb_free + 4 * k) ≡ s.1.fr k
stored_free files sb s k h small =
    get32_same s.0.bo _ (put_longs s.0.bo (put16 s.0.bo sb sb_nfree s.1.nf) sb_free s.1.fr nicfree)
      (sb_free + 4 * k) (λ j lo hi. low_super files sb s j (omega arith) (omega arith))
    ∙ omega
        (arith, get32-put_longs s.0.bo (put16 s.0.bo sb sb_nfree s.1.nf) sb_free s.1.fr nicfree k h)

-- To the writer, the superblock is one more write outside the data blocks.
pub super-IsVolume :
    (files : ℕ) (sb : Buf) (s : Ck × Salvage) (xs : List ℕ)
    → IsVolume (as_handle s) xs
    → 1 < s.0.fsize
    → IsVolume (as_handle ((write_super files sb s).0, s.1)) xs
unfolding write_super ck_wtblk wtblk
super-IsVolume files sb s xs v h =
    wtblk-IsVolume (as_handle s) superblk (write_super files sb s).1 xs v h
      (All-mono xs (λ x d e. omega (arith, v.mounted.low)) v.range)

-- The state of a later run at the end of phase 1, over the references that were counted before.
abbrev pub recheck : Ck × Buf → Ck
recheck (c, sb) = load_super sb (record c { use_map = λ i. refs c i })

same-write_super : (files : ℕ) (sb : Buf) (s : Ck × Salvage) → SameCk s.0 (write_super files sb s).0
unfolding write_super ck_wtblk
same-write_super files sb s = record {
  bo = refl;
  base = refl;
  prof = refl;
  isize = refl;
  fsize = refl;
  use_map = refl;
  errors = refl;
}

-- The later run takes the same limits from the superblock, and the cache that the repair ended with.
pub reload_isize :
    (files : ℕ) (sb : Buf) (s : Ck × Salvage)
    → get16 s.0.bo sb sb_isize ≡ s.0.isize
    → (recheck (write_super files sb s)).isize ≡ s.0.isize
unfolding load_super write_super ck_wtblk
reload_isize files sb s h =
    get16_same s.0.bo (write_super files sb s).1 sb sb_isize
      (λ j lo hi. low_start files sb s j (omega arith) (omega arith))
    ∙ h

pub reload_fsize :
    (files : ℕ) (sb : Buf) (s : Ck × Salvage)
    → get32 s.0.bo sb sb_fsize ≡ s.0.fsize
    → (recheck (write_super files sb s)).fsize ≡ s.0.fsize
unfolding load_super write_super ck_wtblk
reload_fsize files sb s h =
    get32_same s.0.bo (write_super files sb s).1 sb sb_fsize
      (λ j lo hi. low_start files sb s j (omega arith) (omega arith))
    ∙ h

pub reload-Chain :
    (files : ℕ) (sb : Buf) (s : Ck × Salvage) (xs : List ℕ)
    → IsVolume (as_handle ((write_super files sb s).0, s.1)) xs
    → Chain
        (recheck (write_super files sb s)).bo
        (block
          (recheck (write_super files sb s)).fd
          (recheck (write_super files sb s)).base
          (recheck (write_super files sb s)).prof.bsize)
        (recheck (write_super files sb s)).nfree
        (λ k.
          get32 (recheck (write_super files sb s)).bo (write_super files sb s).1 (sb_free + 4 * k))
        xs
unfolding load_super write_super ck_wtblk
reload-Chain files sb s xs v =
    let blk : ℕ → Buf = blocks (as_handle ((write_super files sb s).0, s.1)) in
    let few : s.1.nf ≤ nicfree = (Chain-size s.0.bo blk s.1.nf s.1.fr xs v.chain).1 in
    rw (stored_nfree files sb s few) (
      Chain-same s.0.bo blk blk s.1.nf s.1.fr _ xs (All-refl s.0.bo blk xs)
        (λ k lt.
          stored_free files sb s k (omega arith)
            (Chain-small s.0.bo blk s.1.nf s.1.fr xs k v.chain lt))
        v.chain)

-- What the next run starts from: it can read the volume, its free list is the one that the repair
-- built, and the marks are the references.
pub reload-IsReadable :
    (files : ℕ) (sb : Buf) (s : Ck × Salvage) (xs : List ℕ)
    → IsVolume (as_handle ((write_super files sb s).0, s.1)) xs
    → get16 s.0.bo sb sb_isize ≡ s.0.isize
    → get32 s.0.bo sb sb_fsize ≡ s.0.fsize
    → IsReadable (recheck (write_super files sb s))
unfolding load_super write_super ck_wtblk
reload-IsReadable files sb s xs v p q =
    let i = reload_isize files sb s p in
    let f = reload_fsize files sb s q in
    let same = same-write_super files sb s in
    record {
      ok = refl;
      large = v.mounted.large;
      fits = rw (f ∙ sym same.fsize) (v.mounted.fits);
      small = omega (arith, f, same.fsize, v.mounted.small);
      low = omega (arith, i, same.isize, v.mounted.low);
    }

pub reload-use_map :
    (files : ℕ) (sb : Buf) (s : Ck × Salvage)
    → ((recheck (write_super files sb s)).use_map ≡ λ i. refs s.0 i)
      × ((recheck (write_super files sb s)).errors ≡ s.0.errors)
unfolding load_super write_super ck_wtblk
reload-use_map files sb s = (refl, refl)
