-- ===== src/Rw/Chmod.antt =====
-- rw_chmod seen through the reader.
use s5fs.Base.{
  lt→ltb, ℕ, ◌+◌, ◌^◌, ◌≤◌, ◌<◌, ◌≡◌, refl, sym, ap, ◌∙◌, inr, true, none, some, List, arith,
}
use s5fs.Layout.{dinodesz, iliststart, di_mode, di_nlink, di_uid, di_gid, di_size, ifmt, perm_bits}
use s5fs.Endian.{
  put16-Outside, Buf, Endian, get16, get32, SameBytes, get16-put16, get16_same, get32_same,
}
use s5fs.Fields.{put_fields}
use s5fs.Image.{block}
use s5fs.Writer.{itod, zeros, window, S5Fs}
use s5fs.Rw.Dir.{done}
use s5fs.Rw.Ops.{Rw, rw_namei}
use s5fs.Inode.{Inode, iget, decode_inode, slot, edit_inode}
use s5fs.Rw.Attr.{change, chmod, with_perm}
use s5fs.Inode.RoundTrip.{reader_of, IsInode}
use s5fs.Superblock.{finish, sb_fields}
use s5fs.Inode.Bytes.{iget_bytes}
use s5fs.Inode.Edit.{edit_self, edit_inode_lem, held, edited}
use s5fs.Inode.Place.{itod_bounds, inopb-profile, slot_fits}
use s5fs.FreeList.Volume.{block_fits, written_other, written-Mounted, wtblk_lem, written, IsMounted}

finish_lem :
    (fs : S5Fs)
    → IsMounted fs
    → 1 < fs.s_fsize
    → finish fs ≡ written fs 1 (put_fields fs.bo zeros (sb_fields fs))
unfolding finish
finish_lem fs m h = wtblk_lem fs 1 _ m h

-- What the reader finds before an inode is edited, and after that and a sync.
edit-sync :
    (fs : S5Fs) (number : ℕ) (f : Buf → Buf) (uninit : Buf)
    → IsInode fs number
    → (dp dq : Buf) × (iget (reader_of fs) fs.fd fs.uninit number
        ≡ some (decode_inode fs.bo number dp))
      × (iget (reader_of fs) (finish (edit_inode number f fs)).fd uninit number
          ≡ some (decode_inode fs.bo number dq))
      × SameBytes dp (window (held fs number) (slot fs number)) 0 dinodesz
      × SameBytes dq (f (window (held fs number) (slot fs number))) 0 dinodesz
unfolding window
edit-sync fs number f uninit v =
    let (dp, got, same) =
      iget_bytes fs fs.fd number fs.uninit v (block_fits fs d v.mounted inside) in
    let (dq, got', same') =
      iget_bytes fs synced.fd number uninit v (block_fits synced d m' inside) in
    (
      dp,
      dq,
      got,
      rw is_synced got',
      λ j lo hi.
          same j lo hi
          ∙ rw (lt→ltb (slot fs number + j) fs.prof.bsize (omega (arith, in_block, hi))) refl,
      λ j lo hi. same' j lo hi ∙ other j hi ∙ edit_self fs number f v.mounted inside j hi in_block,
    )
  where
    d : ℕ
    d = itod fs.prof.inopb number

    inside : d < fs.s_fsize
    inside = omega (arith, v.listed, v.data_after)

    above : iliststart ≤ d
    above =
        rw (inopb-profile fs.prof v.profile)
          ((itod_bounds fs.prof.bsize number v.profile.size v.positive (omega (arith, v.short))).0)

    in_block : slot fs number + dinodesz ≤ fs.prof.bsize
    in_block = slot_fits fs.prof number v.profile v.positive (omega (arith, v.short))

    changed : S5Fs
    changed = written fs d (edited fs number f)

    is_changed : edit_inode number f fs ≡ changed
    is_changed = edit_inode_lem fs number f v.mounted inside

    m : IsMounted changed
    m = written-Mounted fs d (edited fs number f) v.mounted inside

    super : Buf
    super = put_fields fs.bo zeros (sb_fields changed)

    synced : S5Fs
    synced = written changed 1 super

    m' : IsMounted synced
    m' = written-Mounted changed 1 super m (omega (arith, inside, above))

    is_synced : finish (edit_inode number f fs) ≡ synced
    is_synced = rw is_changed (finish_lem changed m (omega (arith, inside, above)))

    other :
        (j : ℕ)
        → j < dinodesz
        → block synced.fd fs.base fs.prof.bsize d (slot fs number + j)
          ≡ block (edit_inode number f fs).fd fs.base fs.prof.bsize d (slot fs number + j)
    other j h =
        written_other changed 1 super d (slot fs number + j) (λ e. omega (arith, above, e))
          (omega (arith, in_block))
        ∙ rw is_changed refl

-- What with_perm does to the fields of the bytes `w`, of which `dp` and `dq` are copies.
with_perm-bytes :
    (e : Endian) (perm : ℕ) (w dp dq : Buf)
    → get16 e dp di_mode < 2 ^ 16
    → SameBytes dp w 0 dinodesz
    → SameBytes dq (with_perm e perm w) 0 dinodesz
    → (get16 e dq di_mode ≡ ifmt (get16 e dp di_mode) + perm_bits perm)
      × ((o : ℕ) → 2 ≤ o → o + 2 ≤ dinodesz → get16 e dq o ≡ get16 e dp o)
      × ((o : ℕ) → 2 ≤ o → o + 4 ≤ dinodesz → get32 e dq o ≡ get32 e dp o)
unfolding with_perm
with_perm-bytes e perm w dp dq small same new = (
  get16_same e dq (with_perm e perm w) di_mode (λ j lo hi. new j lo (omega (arith, hi)))
      ∙ get16-put16 e w di_mode (ifmt (get16 e w di_mode) + perm_bits perm)
      ∙ omega (arith, small, get16_same e dp w di_mode (λ j lo hi. same j lo (omega (arith, hi)))),
  λ o lo hi. get16_same e dq dp o (λ j a b. kept j (omega arith) (omega arith)),
  λ o lo hi. get32_same e dq dp o (λ j a b. kept j (omega arith) (omega arith)),
)
  where
    kept : (j : ℕ) → 2 ≤ j → j < dinodesz → dq j ≡ dp j
    kept j lo hi =
        new j (omega arith) hi
        ∙ put16-Outside e w di_mode _ j (inr lo)
        ∙ sym (same j (omega arith) hi)

-- On a writable mounted volume, after a chmod of a path that names an inode of the i-list the
-- reader finds the inode with the same file type and the permissions asked for, and with its link
-- count, owner, group and size as they were.
pub chmod-iget :
    (h : Rw) (path : List ℕ) (perm : ℕ) (fs : S5Fs) (uninit : Buf) (i : Inode)
    → h.writable ≡ true
    → IsInode fs (rw_namei h path fs)
    → i.mode < 2 ^ 16
    → iget (reader_of fs) fs.fd fs.uninit (rw_namei h path fs) ≡ some i
    → (fs' : S5Fs) × (o : Inode) × (chmod h path perm fs ≡ some (done, fs'))
      × (iget (reader_of fs) fs'.fd uninit (rw_namei h path fs) ≡ some o)
      × (o.mode ≡ ifmt i.mode + perm_bits perm)
      × (o.nlink ≡ i.nlink)
      × (o.uid ≡ i.uid)
      × (o.gid ≡ i.gid)
      × (o.size ≡ i.size)
unfolding chmod change decode_inode
chmod-iget h path perm fs uninit i w v small got =
    let (dp, dq, before, after, same, new) = edit-sync fs n (with_perm fs.bo perm) uninit v in
    let is_i : decode_inode fs.bo n dp ≡ i =
      ap (λ o. elim o [ none ↦ i | some r ↦ r ]) (sym before ∙ got) in
    let (mode, kept16, kept32) =
      with_perm-bytes fs.bo perm _ dp dq (omega (arith, small, ap (λ r. r.mode) is_i)) same new in
    (
      finish (edit_inode n (with_perm fs.bo perm) fs),
      decode_inode fs.bo n dq,
      ground (arith, w, v.positive),
      after,
      mode ∙ ap (λ r. ifmt r.mode + perm_bits perm) is_i,
      kept16 di_nlink (omega arith) (omega arith) ∙ ap (λ r. r.nlink) is_i,
      kept16 di_uid (omega arith) (omega arith) ∙ ap (λ r. r.uid) is_i,
      kept16 di_gid (omega arith) (omega arith) ∙ ap (λ r. r.gid) is_i,
      kept32 di_size (omega arith) (omega arith) ∙ ap (λ r. r.size) is_i,
    )
  where
    n : ℕ
    n = rw_namei h path fs
