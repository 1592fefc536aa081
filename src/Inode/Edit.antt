-- ===== src/Inode/Edit.antt =====
-- A change of one inode in place: its 64 bytes get the change, and no other byte of the image does.
use s5fs.Base.{lt→ltb, ℕ, ◌+◌, ◌-◌, ◌*◌, ◌≤◌, ◌<◌, ◌≡◌, ap, ◌∙◌, arith, ltb, if◌then◌else◌}
use s5fs.Layout.{dinodesz}
use s5fs.Endian.{Buf, Outside}
use s5fs.Image.{block, write_at}
use s5fs.Writer.{itod, window, splice, S5Fs}
use s5fs.FreeList.Volume.{blocks, IsMounted, written, rdblk_lem, wtblk_lem, written_self}
use s5fs.Inode.{edit_inode, slot}

-- The block of the inode as the edit reads it.
abbrev pub held : S5Fs → ℕ → Buf
held fs number i =
    if ltb i fs.prof.bsize then blocks fs (itod fs.prof.inopb number) i else fs.uninit i

-- What the edit writes back.
abbrev pub edited : S5Fs → ℕ → (Buf → Buf) → Buf
edited fs number change =
    splice (held fs number) (slot fs number) dinodesz
      (change (window (held fs number) (slot fs number)))

splice_self : (b : Buf) (o n : ℕ) (p : Buf) (k : ℕ) → k < n → splice b o n p (o + k) ≡ p k
unfolding splice
splice_self b o n p k h = let back : o + k - o ≡ k = omega arith in ground (arith, ap p back)

splice_other : (b : Buf) (o n : ℕ) (p : Buf) (i : ℕ) → Outside i o n → splice b o n p i ≡ b i
unfolding splice
splice_other b o n p i h = ground arith

-- A byte is as before where the written block holds what the image held.
written_same :
    (fs : S5Fs) (x : ℕ) (buf : Buf) (j : ℕ)
    → ((i : ℕ) → i < fs.prof.bsize → fs.base + x * fs.prof.bsize + i ≡ j → buf i ≡ fs.fd.byte j)
    → (written fs x buf).fd.byte j ≡ fs.fd.byte j
unfolding write_at
written_same fs x buf j h = ground (arith, h (j - (fs.base + x * fs.prof.bsize)))

module _ (fs : S5Fs) (number : ℕ) (change : Buf → Buf) (m : IsMounted fs)
    (inside : itod fs.prof.inopb number < fs.s_fsize) where
  pub edit_inode_lem :
      edit_inode number change fs ≡ written fs (itod fs.prof.inopb number) (edited fs number change)
  unfolding edit_inode
  edit_inode_lem =
      rw (rdblk_lem fs (itod fs.prof.inopb number) fs.uninit m inside)
        (wtblk_lem fs (itod fs.prof.inopb number) (edited fs number change) m inside)

  -- The inode's bytes after the edit.
  pub edit_self :
      (k : ℕ)
      → k < dinodesz
      → slot fs number + dinodesz ≤ fs.prof.bsize
      → block
          (edit_inode number change fs).fd
          fs.base
          fs.prof.bsize
          (itod fs.prof.inopb number)
          (slot fs number + k)
        ≡ change (window (held fs number) (slot fs number)) k
  edit_self k h fits = rw edit_inode_lem (
      written_self fs (itod fs.prof.inopb number) (edited fs number change) (slot fs number + k)
        (omega arith)
      ∙ splice_self (held fs number) (slot fs number) dinodesz _ k h)

  -- All other bytes of the image.
  pub edit_other :
      (j : ℕ)
      → Outside j (fs.base + itod fs.prof.inopb number * fs.prof.bsize + slot fs number) dinodesz
      → (edit_inode number change fs).fd.byte j ≡ fs.fd.byte j
  edit_other j out = rw edit_inode_lem (
      written_same fs (itod fs.prof.inopb number) (edited fs number change) j (λ i h at.
        splice_other (held fs number) (slot fs number) dinodesz _ i (omega arith)
        ∙ rw (lt→ltb i fs.prof.bsize h) (ap (λ q. fs.fd.byte q) at)))
