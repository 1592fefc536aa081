-- ===== src/Fsck/Clri.antt =====
-- clri clears one inode and no other byte of the image.
use s5fs.Base.{
  ℕ, ◌+◌, ◌*◌, ◌<◌, ◌≡◌, refl, sym, ap, ◌∙◌, false, ◌||◌, some, arith, ltb, leb, ◌==◌,
  if◌then◌else◌,
}
use s5fs.Layout.{dinodesz, u32, di_mode, di_nlink, di_size, di_addr}
use s5fs.Endian.{
  Buf, Endian, pdp11, le, be, get16, get24, get32, Outside, SameBytes, get16_same, get32_same,
  get24_same,
}
use s5fs.Writer.{itod, itoo, zeros, splice, S5Fs}
use s5fs.Inode.{Inode, decode_inode, iget, edit_inode, slot}
use s5fs.Fsck.Check.{Ck, ck_rdblk, ck_wtblk}
use s5fs.Fsck.Rebuild.{as_handle}
use s5fs.Inode.RoundTrip.{IsInode, reader_of, iget-edit}
use s5fs.Inode.Edit.{edit_other, edit_inode_lem}
use s5fs.FreeList.Volume.{block_fits}
use s5fs.Fsck.Run.{clri}
use s5fs.Image.{read_at_lem}

-- The writer's handle on the checker's volume, with an empty cache.
abbrev pub on_volume : Ck → S5Fs
on_volume c = as_handle (c, record { fr = zeros; nf = 0; tf = 0 })

get16-zeros : (e : Endian) (o : ℕ) → get16 e zeros o ≡ 0
unfolding get16 zeros
get16-zeros pdp11 o = refl
get16-zeros le o = refl
get16-zeros be o = refl

get24-zeros : (e : Endian) (o : ℕ) → get24 e zeros o ≡ 0
unfolding get24 zeros
get24-zeros pdp11 o = refl
get24-zeros le o = refl
get24-zeros be o = refl

get32-zeros : (e : Endian) (o : ℕ) → get32 e zeros o ≡ 0
unfolding get32 zeros
get32-zeros pdp11 o = refl
get32-zeros le o = refl
get32-zeros be o = refl

-- clri is an edit of the inode's bytes.
clri-edit_inode :
    (inum : ℕ) (c : Ck)
    → IsInode (on_volume c) inum
    → (c' : Ck) × (clri inum c ≡ some c')
      × (c'.fd ≡ (edit_inode inum (λ dp. zeros) (on_volume c)).fd)
unfolding clri ck_rdblk ck_wtblk
clri-edit_inode inum c v =
    let past : (inum == 0 || leb c.isize (itod c.prof.inopb inum)) ≡ false =
      ground (arith, v.positive, v.listed) in
    let inside : itod c.prof.inopb inum < c.fsize = omega (arith, v.listed, v.data_after) in
    let small : u32 (itod c.prof.inopb inum) ≡ itod c.prof.inopb inum =
      omega (arith, inside, v.mounted.small) in
    let got =
      read_at_lem c.fd (c.base + u32 (itod c.prof.inopb inum) * c.prof.bsize) c.prof.bsize zeros
        (rw small (block_fits (on_volume c) (itod c.prof.inopb inum) v.mounted inside)) in
    (
      ck_wtblk (itod c.prof.inopb inum)
          (splice
            (λ i.
              if ltb i c.prof.bsize
              then c.fd.byte (c.base + u32 (itod c.prof.inopb inum) * c.prof.bsize + i)
              else zeros i)
            (itoo c.prof.inopb inum * dinodesz) dinodesz zeros)
          c,
      rw (past, got) refl,
      rw small
          (sym (ap (λ s. s.fd) (edit_inode_lem (on_volume c) inum (λ dp. zeros) v.mounted inside))),
    )

-- What the reader makes of an inode whose 64 bytes are 0.
decode-zeros :
    (e : Endian) (ino : ℕ) (dp : Buf)
    → SameBytes dp zeros 0 dinodesz
    → ((decode_inode e ino dp).mode ≡ 0)
      × ((decode_inode e ino dp).nlink ≡ 0)
      × ((decode_inode e ino dp).size ≡ 0)
      × ((k : ℕ) → k < 13 → (decode_inode e ino dp).addr k ≡ 0)
unfolding decode_inode
decode-zeros e ino dp same = (
  get16_same e dp zeros di_mode (λ j lo hi. same j (omega arith) (omega arith))
      ∙ get16-zeros e di_mode,
  get16_same e dp zeros di_nlink (λ j lo hi. same j (omega arith) (omega arith))
      ∙ get16-zeros e di_nlink,
  get32_same e dp zeros di_size (λ j lo hi. same j (omega arith) (omega arith))
      ∙ get32-zeros e di_size,
  λ k lt.
      get24_same e dp zeros (di_addr + 3 * k) (λ j lo hi. same j (omega arith) (omega arith))
      ∙ get24-zeros e (di_addr + 3 * k),
)

-- For an inode of the i-list of a volume that the image holds whole, clri succeeds. The reader then
-- finds the inode with mode, link count, size and all block addresses 0, and every byte of the image
-- outside the inode's 64 is as before.
pub clri-iget :
    (inum : ℕ) (c : Ck) (uninit : Buf)
    → IsInode (on_volume c) inum
    → (c' : Ck) × (clri inum c ≡ some c')
      × ((o : Inode) × (iget (reader_of (on_volume c)) c'.fd uninit inum ≡ some o)
          × (o.mode ≡ 0)
          × (o.nlink ≡ 0)
          × (o.size ≡ 0)
          × ((k : ℕ) → k < 13 → o.addr k ≡ 0))
      × ((j : ℕ)
          → Outside j
              (c.base + itod c.prof.inopb inum * c.prof.bsize + slot (on_volume c) inum)
              dinodesz
          → c'.fd.byte j ≡ c.fd.byte j)
clri-iget inum c uninit v =
    let (c', e, at) = clri-edit_inode inum c v in
    let (dp, got, same) = iget-edit (on_volume c) inum (λ dp. zeros) uninit v in
    let z = decode-zeros c.bo inum dp same in
    (
      c',
      e,
      (
        decode_inode c.bo inum dp,
        ap (λ fd. iget (reader_of (on_volume c)) fd uninit inum) at ∙ got,
        z.0,
        z.1,
        z.2,
        z.3,
      ),
      λ j out.
          ap (λ fd. fd.byte j) at
          ∙ edit_other (on_volume c) inum (λ dp. zeros) v.mounted
              (omega (arith, v.listed, v.data_after)) j out,
    )
