-- ===== src/Inode/RoundTrip.antt =====
-- An inode that s5fs_writeinode stored, fsr_iget reads back, and no other byte changes.
use s5fs.Base.{lt→ltb, ltb, if◌then◌else◌, ℕ, ◌+◌, ◌*◌, ◌^◌, ◌≤◌, ◌<◌, ◌≡◌, refl, ◌∙◌, some, arith}
use s5fs.Layout.{
  IsProfile, u32, dinodesz, di_mode, di_nlink, di_uid, di_gid, di_size, di_addr, di_atime, di_mtime,
  di_ctime,
}
use s5fs.Endian.{Outside, Buf, Endian, SameBytes}
use s5fs.Fields.{
  Width, short, triple, long, bytes, mask, get, Field, field, array, put_fields, find,
}
use s5fs.Fields.Laws.{get-put_fields, get_same}
use s5fs.Inode.{
  slot, edit_inode, bread, Fsr, iget, writeinode, Inode, stamp, inode_fields, decode_inode,
}
use s5fs.Writer.{itoo, window, itod, S5Fs}
use s5fs.FreeList.Volume.{written-Mounted, block_fits, written, IsMounted}
use s5fs.Inode.Edit.{edit_other, edit_self, edit_inode_lem, edited, held}
use s5fs.Image.{read_at_lem, block, File}
use s5fs.Inode.Place.{naddr-profile, slot_fits}

-- The ranges of the on-disk fields.
pub record IsPackable (naddr : ℕ) (i : Inode) : Type 0 where
  pub mode : i.mode < 2 ^ 16
  pub nlink : i.nlink < 2 ^ 16
  pub uid : i.uid < 2 ^ 16
  pub gid : i.gid < 2 ^ 16
  pub size : i.size < 2 ^ 32
  pub atime : i.atime < 2 ^ 32
  pub mtime : i.mtime < 2 ^ 32
  pub ctime : i.ctime < 2 ^ 32
  pub addr : (k : ℕ) → k < naddr → i.addr k < 2 ^ 24

-- `o` is what the reader finds for the inode `i` that was written at the time `now`.
pub record SameInode (naddr now : ℕ) (o i : Inode) : Type 0 where
  pub mode : o.mode ≡ i.mode
  pub nlink : o.nlink ≡ i.nlink
  pub uid : o.uid ≡ i.uid
  pub gid : o.gid ≡ i.gid
  pub size : o.size ≡ i.size
  pub atime : o.atime ≡ stamp i.atime now
  pub mtime : o.mtime ≡ stamp i.mtime now
  pub ctime : o.ctime ≡ stamp i.ctime now
  pub addr : (k : ℕ) → k < naddr → o.addr k ≡ i.addr k

stamp_small : (t now : ℕ) → t < 2 ^ 32 → now < 2 ^ 32 → stamp t now < 2 ^ 32
stamp_small t now h k = ground arith

-- 64 bytes that hold what the put calls write decode to the inode.
module _ (e : Endian) (naddr now ino : ℕ) (i : Inode) (dp old : Buf)
    (held : SameBytes dp (put_fields e old (inode_fields naddr now i)) 0 dinodesz)
    (small : naddr ≤ 13) where
  stored :
      (w : Width) (o k : ℕ) (p : Field)
      → find (inode_fields naddr now i) w o ≡ some p
      → k < p.count
      → o + bytes w * p.count ≤ dinodesz
      → get w e dp (o + bytes w * k) ≡ mask w (p.values k)
  stored w o k p h lt fits =
      let inside : bytes w * (k + 1) ≤ bytes w * p.count = grind arith in
      get_same w e dp _ (o + bytes w * k) (λ j lo hi. held j (omega arith) (omega (arith, inside)))
      ∙ get-put_fields w e (inode_fields naddr now i) old o k p h lt

  scalar :
      (w : Width) (o v : ℕ)
      → find (inode_fields naddr now i) w o ≡ some (field w o v)
      → o + bytes w ≤ dinodesz
      → get w e dp o ≡ mask w v
  scalar w o v h fits = rw place (stored w o 0 (field w o v) h (omega arith) (omega arith))
    where
      place : ◌≡◌ {A = ℕ} o (o + bytes w * 0)
      place = omega arith

  decode-SameInode :
      IsPackable naddr i → now < 2 ^ 32 → SameInode naddr now (decode_inode e ino dp) i
  unfolding decode_inode inode_fields
  decode-SameInode s t = record {
    mode = omega (arith, s.mode, scalar short di_mode i.mode refl (omega arith));
    nlink = omega (arith, s.nlink, scalar short di_nlink i.nlink refl (omega arith));
    uid = omega (arith, s.uid, scalar short di_uid i.uid refl (omega arith));
    gid = omega (arith, s.gid, scalar short di_gid i.gid refl (omega arith));
    size = omega (arith, s.size, scalar long di_size i.size refl (omega arith));
    atime = omega (
      arith,
      stamp_small i.atime now s.atime t,
      scalar long di_atime (stamp i.atime now) refl (omega arith),
    );
    mtime = omega (
      arith,
      stamp_small i.mtime now s.mtime t,
      scalar long di_mtime (stamp i.mtime now) refl (omega arith),
    );
    ctime = omega (
      arith,
      stamp_small i.ctime now s.ctime t,
      scalar long di_ctime (stamp i.ctime now) refl (omega arith),
    );
    addr = λ k lt. omega (
      arith,
      s.addr k lt,
      stored triple di_addr k (array triple di_addr naddr i.addr) (ground arith) lt (omega arith),
    );
  }

-- The reader's view of the volume that the writer has mounted.
abbrev pub reader_of : S5Fs → Fsr
reader_of fs = record {
  bo = fs.bo;
  base = fs.base;
  prof = fs.prof;
  isize = fs.s_isize;
  fsize = fs.s_fsize;
}

-- The number names an inode of the i-list of the volume.
pub record IsInode (fs : S5Fs) (number : ℕ) : Type 0 where
  pub mounted : IsMounted fs
  pub profile : IsProfile fs.prof
  pub positive : 0 < number
  pub short : number < 2 ^ 16
  pub listed : itod fs.prof.inopb number < fs.s_isize
  pub data_after : fs.s_isize ≤ fs.s_fsize

abbrev counted : S5Fs → S5Fs
counted fs = record fs { s_tinode = u32 (fs.s_tinode + 0xffffffff) }

abbrev change : S5Fs → Inode → Buf → Buf
change fs i dp = put_fields fs.bo dp (inode_fields fs.prof.naddr fs.s_time i)

writeinode_lem :
    (fs : S5Fs) (i : Inode)
    → itod fs.prof.inopb i.number < fs.s_isize
    → writeinode i fs ≡ edit_inode i.number (change fs i) (counted fs)
unfolding writeinode
writeinode_lem fs i h = ground arith

iget_ok :
    (r : Fsr) (fd : File) (uninit buf : Buf) (ino : ℕ)
    → 0 < ino
    → itod r.prof.inopb ino < r.isize
    → bread r fd (itod r.prof.inopb ino) uninit ≡ some buf
    → iget r fd uninit ino
      ≡ some (decode_inode r.bo ino (window buf (itoo r.prof.inopb ino * dinodesz)))
unfolding iget
iget_ok r fd uninit buf ino pos listed got = ground arith

-- The reader finds the bytes that an edit left.
pub iget-edit :
    (fs : S5Fs) (number : ℕ) (f : Buf → Buf) (uninit : Buf)
    → IsInode fs number
    → (dp : Buf) × (iget (reader_of fs) (edit_inode number f fs).fd uninit number
        ≡ some (decode_inode fs.bo number dp))
      × SameBytes dp (f (window (held fs number) (slot fs number))) 0 dinodesz
unfolding bread window
iget-edit fs number f uninit v = (
  window buf (slot fs number),
  iget_ok (reader_of fs) out.fd uninit buf number v.positive v.listed
      (rw same (read_at_lem out.fd (fs.base + d * fs.prof.bsize) fs.prof.bsize uninit fits)),
  λ j lo hi.
      rw (lt→ltb (slot fs number + j) fs.prof.bsize (omega (arith, in_block)))
        (edit_self fs number f v.mounted inside j hi in_block),
)
  where
    d : ℕ
    d = itod fs.prof.inopb number

    inside : d < fs.s_fsize
    inside = omega (arith, v.listed, v.data_after)

    out : S5Fs
    out = edit_inode number f fs

    is_out : out ≡ written fs d (edited fs number f)
    is_out = edit_inode_lem fs number f v.mounted inside

    fits : fs.base + d * fs.prof.bsize + fs.prof.bsize ≤ out.fd.size
    fits = rw is_out (
        block_fits (written fs d (edited fs number f)) d
          (written-Mounted fs d (edited fs number f) v.mounted inside) inside)

    buf : Buf
    buf j = if ltb j fs.prof.bsize then block out.fd fs.base fs.prof.bsize d j else uninit j

    same : u32 d ≡ d
    same = omega (arith, v.mounted.small, inside)

    in_block : slot fs number + dinodesz ≤ fs.prof.bsize
    in_block = slot_fits fs.prof number v.profile v.positive (omega (arith, v.short))

-- On a mounted volume, reading an inode of the i-list whose fields fit and that was just written
-- gives its fields back, with the times that are 0 stamped, and a byte of the image outside the
-- inode's 64 is as before.
pub iget-writeinode :
    (fs : S5Fs) (i : Inode) (uninit : Buf) (j : ℕ)
    → IsInode fs i.number
    → IsPackable fs.prof.naddr i
    → fs.s_time < 2 ^ 32
    → Outside j (fs.base + itod fs.prof.inopb i.number * fs.prof.bsize + slot fs i.number) dinodesz
    → (o : Inode) × (iget (reader_of fs) (writeinode i fs).fd uninit i.number ≡ some o)
      × SameInode fs.prof.naddr fs.s_time o i
      × ((writeinode i fs).fd.byte j ≡ fs.fd.byte j)
iget-writeinode fs i uninit j v s t out =
    let (dp, got, same) = iget-edit (counted fs) i.number (change fs i) uninit v' in
    rw (writeinode_lem fs i v.listed) (
      decode_inode fs.bo i.number dp,
      got,
      decode-SameInode fs.bo fs.prof.naddr fs.s_time i.number i dp _ same
          (naddr-profile fs.prof v.profile) s t,
      edit_other (counted fs) i.number (change fs i) v.mounted
          (omega (arith, v.listed, v.data_after)) j out,
    )
  where
    v' : IsInode (counted fs) i.number
    v' = record {
      mounted = v.mounted;
      profile = v.profile;
      positive = v.positive;
      short = v.short;
      listed = v.listed;
      data_after = v.data_after;
    }
