-- ===== src/Inode/Bytes.antt =====
-- An inode's bytes as fsr_iget finds them, and s5fs_bumplink seen through it.
-- The reader finds an inode's 64 bytes in any image that holds its block.
use s5fs.Base.{
  ℕ, ◌+◌, ◌*◌, ◌%◌, ◌^◌, ◌≤◌, ◌<◌, ◌≡◌, refl, sym, ap, ◌∙◌, ◌⊎◌, inl, inr, some, arith, ltb,
  if◌then◌else◌, lt→ltb,
}
use s5fs.Layout.{dinodesz, u32, di_mode, di_nlink, di_uid, di_gid, di_size}
use s5fs.Endian.{
  Buf, Endian, put16, get16, get32, Outside, SameBytes, get16-put16, get16_same, get32_same,
  put16-Outside,
}
use s5fs.Image.{File, read_at, block, read_at_lem}
use s5fs.Writer.{itod, window, S5Fs}
use s5fs.FreeList.Volume.{blocks, block_fits}
use s5fs.Inode.{Inode, iget, bread, decode_inode, slot, edit_inode, bumplink}
use s5fs.Inode.Edit.{held}
use s5fs.Inode.RoundTrip.{reader_of, IsInode, iget-edit}
use s5fs.Inode.Place.{slot_fits}

pub iget_bytes :
    (fs : S5Fs) (fd : File) (number : ℕ) (uninit : Buf)
    → IsInode fs number
    → fs.base + itod fs.prof.inopb number * fs.prof.bsize + fs.prof.bsize ≤ fd.size
    → (dp : Buf) × (iget (reader_of fs) fd uninit number ≡ some (decode_inode fs.bo number dp))
      × SameBytes dp
          (window (block fd fs.base fs.prof.bsize (itod fs.prof.inopb number)) (slot fs number))
          0
          dinodesz
unfolding iget bread window
iget_bytes fs fd number uninit v fits = (
  window buf (slot fs number),
  ground (arith, v.positive, v.listed, got),
  λ j lo hi. ground (arith, in_block, hi),
)
  where
    d : ℕ
    d = itod fs.prof.inopb number

    buf : Buf
    buf j = if ltb j fs.prof.bsize then block fd fs.base fs.prof.bsize d j else uninit j

    same : u32 d ≡ d
    same = omega (arith, v.mounted.small, v.listed, v.data_after)

    got : read_at fd (fs.base + u32 d * fs.prof.bsize) fs.prof.bsize uninit ≡ some buf
    got = rw same (read_at_lem fd (fs.base + d * fs.prof.bsize) fs.prof.bsize uninit fits)

    in_block : slot fs number + dinodesz ≤ fs.prof.bsize
    in_block = slot_fits fs.prof number v.profile v.positive (omega (arith, v.short))

held_at :
    (fs : S5Fs) (ino j : ℕ)
    → slot fs ino + j < fs.prof.bsize
    → window (blocks fs (itod fs.prof.inopb ino)) (slot fs ino) j
      ≡ window (held fs ino) (slot fs ino) j
unfolding window
held_at fs ino j h = rw (lt→ltb (slot fs ino + j) fs.prof.bsize h) refl

bumplink_lem :
    (fs : S5Fs) (ino : ℕ)
    → itod fs.prof.inopb ino < fs.s_isize
    → bumplink ino fs
      ≡ edit_inode ino (λ dp. put16 fs.bo dp di_nlink (get16 fs.bo dp di_nlink + 1)) fs
unfolding bumplink
bumplink_lem fs ino h = ground arith

bump-bytes :
    (e : Endian) (w dp dq : Buf)
    → SameBytes dp w 0 dinodesz
    → SameBytes dq (put16 e w di_nlink (get16 e w di_nlink + 1)) 0 dinodesz
    → (get16 e dq di_nlink ≡ (get16 e dp di_nlink + 1) % 2 ^ 16)
      × ((o : ℕ) → (o + 2 ≤ 2) ⊎ (4 ≤ o) → o + 2 ≤ dinodesz → get16 e dq o ≡ get16 e dp o)
      × ((o : ℕ) → 4 ≤ o → o + 4 ≤ dinodesz → get32 e dq o ≡ get32 e dp o)
bump-bytes e w dp dq same new = (
  get16_same e dq (put16 e w di_nlink (get16 e w di_nlink + 1)) di_nlink
        (λ j lo hi. new j (omega arith) (omega (arith, hi)))
      ∙ get16-put16 e w di_nlink (get16 e w di_nlink + 1)
      ∙ ap (λ q. (q + 1) % 2 ^ 16)
          (sym (get16_same e dp w di_nlink (λ j lo hi. same j (omega arith) (omega (arith, hi))))),
  λ o far hi. get16_same e dq dp o (λ j a b. kept j (ground arith) (omega arith)),
  λ o lo hi. get32_same e dq dp o (λ j a b. kept j (inr (omega arith)) (omega arith)),
)
  where
    kept : (j : ℕ) → Outside j di_nlink 2 → j < dinodesz → dq j ≡ dp j
    kept j out hi =
        new j (omega arith) hi ∙ put16-Outside e w di_nlink _ j out ∙ sym (same j (omega arith) hi)

-- On a mounted volume, bumping the link count of an inode of the i-list adds one to the count that
-- the reader finds, modulo 2 ^ 16, and leaves the mode, the owner, the group and the size.
pub iget-bumplink :
    (fs : S5Fs) (ino : ℕ) (uninit : Buf)
    → IsInode fs ino
    → (i o : Inode) × (iget (reader_of fs) fs.fd fs.uninit ino ≡ some i)
      × (iget (reader_of fs) (bumplink ino fs).fd uninit ino ≡ some o)
      × (o.nlink ≡ (i.nlink + 1) % 2 ^ 16)
      × (o.mode ≡ i.mode)
      × (o.uid ≡ i.uid)
      × (o.gid ≡ i.gid)
      × (o.size ≡ i.size)
unfolding decode_inode
iget-bumplink fs ino uninit v =
    let (dp, got, same) =
      iget_bytes fs fs.fd ino fs.uninit v
        (block_fits fs (itod fs.prof.inopb ino) v.mounted inside) in
    let (dq, got', same') = iget-edit fs ino bump uninit v in
    let (nlink, kept16, kept32) =
      bump-bytes fs.bo _ dp dq (λ j lo hi. same j lo hi ∙ held_lem j hi) same' in
    (
      decode_inode fs.bo ino dp,
      decode_inode fs.bo ino dq,
      got,
      rw (bumplink_lem fs ino v.listed) got',
      nlink,
      kept16 di_mode (inl (omega arith)) (omega arith),
      kept16 di_uid (inr (omega arith)) (omega arith),
      kept16 di_gid (inr (omega arith)) (omega arith),
      kept32 di_size (omega arith) (omega arith),
    )
  where
    bump : Buf → Buf
    bump dp = put16 fs.bo dp di_nlink (get16 fs.bo dp di_nlink + 1)

    inside : itod fs.prof.inopb ino < fs.s_fsize
    inside = omega (arith, v.listed, v.data_after)

    in_block : slot fs ino + dinodesz ≤ fs.prof.bsize
    in_block = slot_fits fs.prof ino v.profile v.positive (omega (arith, v.short))

    held_lem :
        (j : ℕ)
        → j < dinodesz
        → window (blocks fs (itod fs.prof.inopb ino)) (slot fs ino) j
          ≡ window (held fs ino) (slot fs ino) j
    held_lem j h = held_at fs ino j (omega (arith, in_block))
