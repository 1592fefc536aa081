-- ===== src/Scavenge/Used.antt =====
-- mark_ind and build_used of cmd_scavenge.c: the blocks that are no candidates.
use s5fs.Base.{
  ℕ, zero, suc, ◌+◌, ◌-◌, ◌*◌, ◌^◌, Bool, true, false, ◌&&◌, ◌||◌, none, some, ltb, leb, ◌==◌,
  if◌then◌else◌,
}
use s5fs.Layout.{superblk, u32, clamp_nfree, sb_nfree, sb_free, ifmt, ifdir, ifreg}
use s5fs.Endian.{Buf, get16, get32}
use s5fs.Image.{File}
use s5fs.Inode.{Inode, Fsr, bread, iget}
use s5fs.Writer.{fblk_nfree, fblk_free}

-- The static variables R, with the image, and `used`.
pub record Scav : Type 0 where
  pub r : Fsr
  pub image : File
  pub uninit : Buf
  pub used : ℕ → ℕ

-- `used[bno] = 1`
abbrev pub set_used : ℕ → Scav → Scav
set_used bno s = record s { used = λ k. if k == bno then 1 else s.used k }

-- `for (i = 0; …) f(i)`, `n` rounds from `i` on.
unfoldable pub repeat : (ℕ → Scav → Scav) → ℕ → ℕ → Scav → Scav
repeat f zero i s = s
repeat f (suc n) i s = repeat f n (i + 1) (f i s)

-- `level` counts the levels of indirect blocks from the block down to the data.
unfoldable pub mark_ind : ℕ → ℕ → Scav → Scav
mark_ind zero bno s = if bno == 0 || leb s.r.fsize bno then s else set_used bno s
mark_ind (suc l) bno s = elim (bno == 0 || leb s.r.fsize bno) [
  | true ↦ s
  | false ↦ elim (bread s.r s.image bno s.uninit) [
    | none ↦ set_used bno s
    | some buf ↦
        repeat (λ i. mark_ind l (get32 s.r.bo buf (4 * i))) s.r.prof.nindir 0 (set_used bno s)
  ]
]

-- One direct slot; an address has 24 bits and so is not negative.
unfoldable pub mark_slot : (ℕ → ℕ) → ℕ → Scav → Scav
mark_slot addr k s = if ltb 0 (addr k) && ltb (addr k) s.r.fsize then set_used (addr k) s else s

-- The blocks of a regular file or a directory.
unfoldable pub mark_inode : Inode → Scav → Scav
mark_inode i s =
    let l : ℕ = s.r.prof.laddr in
    if ifmt i.mode == ifreg || ifmt i.mode == ifdir
    then mark_ind 3 (i.addr (l + 2))
        (mark_ind 2 (i.addr (l + 1)) (mark_ind 1 (i.addr l) (repeat (mark_slot i.addr) l 0 s)))
    else s

-- `n` inodes from `ino` on; a failure of fsr_iget ends the loop.
unfoldable pub mark_inodes : ℕ → ℕ → Scav → Scav
mark_inodes zero ino s = s
mark_inodes (suc n) ino s = elim (iget s.r s.image s.uninit ino) [
  | none ↦ s
  | some i ↦ mark_inodes n (ino + 1) (mark_inode i s)
]

-- `bno == 0 || bno < isize || bno >= fsize`
abbrev pub off_volume : Scav → ℕ → Bool
off_volume s bno = bno == 0 || (ltb bno s.r.isize || leb s.r.fsize bno)

-- The loop over the chained free list with the cache `fr` of `nfree` entries, `n` rounds at most: the
-- code counts them up to the size of the volume.
unfoldable pub mark_chain : ℕ → ℕ → (ℕ → ℕ) → Scav → Scav
mark_chain zero nfree fr s = s
mark_chain (suc n) zero fr s = s
mark_chain (suc n) (suc nfree) fr s =
    let bno : ℕ = fr nfree in
    elim (off_volume s bno) [
      | true ↦ s
      | false ↦ elim (nfree == 0) [
        | false ↦ mark_chain n nfree fr s
        | true ↦ elim (bread s.r s.image bno s.uninit) [
          | none ↦ set_used bno s
          | some fb ↦ mark_chain n (fblk_nfree s.r.bo fb) (fblk_free s.r.bo fb) (set_used bno s)
        ]
      ]
    ]

-- `(isize - 2) * inopb`
abbrev pub inodes : Fsr → ℕ
inodes r = u32 ((r.isize + 2 ^ 32 - 2) * r.prof.inopb)

-- `used` is all zeros at first.
unfoldable pub build_used : Scav → Scav
build_used s =
    let s1 : Scav = mark_inodes (inodes s.r) 1 s in
    elim (bread s.r s.image superblk s.uninit) [
      | none ↦ s1
      | some sb ↦
          mark_chain s.r.fsize (clamp_nfree (get16 s.r.bo sb sb_nfree))
            (λ k. get32 s.r.bo sb (sb_free + 4 * k)) s1
    ]
