-- ===== src/Superblock/RoundTrip.antt =====
-- What s5fs_finish writes, s5fs_mount reads back.
use s5fs.Base.{
  ltb, if◌then◌else◌, ℕ, ◌+◌, ◌*◌, ◌^◌, ◌≤◌, ◌<◌, ◌≡◌, refl, sym, ◌∙◌, Bool, true, false, none,
  some, List, ◌++◌, arith,
}
use s5fs.Layout.{
  superblk, u32, nicfree, nicinod, sign_extend, clamp_nfree, bsize_ok, profile, sb_isize, sb_fsize,
  sb_nfree, sb_free, sb_ninode, sb_inode, sb_time, sb_tfree, sb_tinode, sb_dinfo, sb_svdinfo,
  sb_svtfree, sb_svtinode, sb_magic, fs_magic,
}
use s5fs.Endian.{Buf, Endian, pdp11, le, be, get16, get32, SameBytes}
use s5fs.Fields.{
  Width, short, long, bytes, mask, get, Field, field, array, put_fields, find, all_apart,
}
use s5fs.Fields.Laws.{get-put_fields, get-put_fields_ne, get_same}
use s5fs.Writer.{fail, rdblk_ok, zeros, S5Fs}
use s5fs.Superblock.{
  sb_fields, blank, finish, mount, decode_common, decode_tail, check_limits, decode, tail_fields,
  common_fields,
}
use s5fs.FreeList.Volume.{
  written_self, written-Mounted, block_fits, wtblk_lem, blocks, written, IsMounted,
}
use s5fs.Image.{File, read_at_lem, read_at}

-- The ranges of the on-disk fields, and the limits that s5fs_mount checks.
pub record IsStorable (fs : S5Fs) : Type 0 where
  pub bsize : bsize_ok fs.prof.bsize ≡ true
  pub derived : fs.prof ≡ profile fs.prof.bsize
  pub ilist : 2 ≤ fs.s_isize
  pub isize : fs.s_isize < 2 ^ 16
  pub inside : fs.s_isize < fs.s_fsize
  pub fsize : fs.s_fsize < 2 ^ 32
  pub nfree : fs.s_nfree ≤ nicfree
  pub free : (i : ℕ) → i < nicfree → fs.s_free i < 2 ^ 32
  pub ninode : fs.s_ninode < 2 ^ 15
  pub inode : (i : ℕ) → i < nicinod → fs.s_inode i < 2 ^ 16
  pub tfree : fs.s_tfree < 2 ^ 32
  pub tinode : fs.s_tinode < 2 ^ 15
  pub m : fs.s_m < 2 ^ 16
  pub n : fs.s_n < 2 ^ 16
  pub time : fs.s_time < 2 ^ 32

-- The decoded superblocks of two handles agree.
pub record SameSuper (r fs : S5Fs) : Type 0 where
  pub isize : r.s_isize ≡ fs.s_isize
  pub fsize : r.s_fsize ≡ fs.s_fsize
  pub nfree : r.s_nfree ≡ fs.s_nfree
  pub free : (i : ℕ) → i < nicfree → r.s_free i ≡ fs.s_free i
  pub ninode : r.s_ninode ≡ fs.s_ninode
  pub inode : (i : ℕ) → i < nicinod → r.s_inode i ≡ fs.s_inode i
  pub tfree : r.s_tfree ≡ fs.s_tfree
  pub tinode : r.s_tinode ≡ fs.s_tinode
  pub m : r.s_m ≡ fs.s_m
  pub n : r.s_n ≡ fs.s_n
  pub time : r.s_time ≡ fs.s_time
  pub sysv : r.sysv ≡ fs.sysv

-- The two dialects differ behind byte 418 alone.
tail_apart :
    (fs : S5Fs) (dialect : Bool) (o n : ℕ)
    → o + n ≤ 418
    → all_apart (tail_fields fs dialect) o n ≡ true
unfolding tail_fields
tail_apart fs true o n h = ground arith
tail_apart fs false o n h = ground arith

-- A buffer `sb` that holds what s5fs_finish writes for the dialect `dialect`.
module _ (fs : S5Fs) (sb : Buf) (dialect : Bool)
    (held : SameBytes sb
      (put_fields fs.bo zeros (common_fields fs ++ tail_fields fs dialect))
      0
      512) where
  table : List Field
  table = common_fields fs ++ tail_fields fs dialect

  stored :
      (w : Width) (o i : ℕ) (p : Field)
      → find table w o ≡ some p
      → i < p.count
      → o + bytes w * p.count ≤ 512
      → get w fs.bo sb (o + bytes w * i) ≡ mask w (p.values i)
  unfolding table
  stored w o i p h lt fits =
      let inside : bytes w * (i + 1) ≤ bytes w * p.count = grind arith in
      get_same w fs.bo sb _ (o + bytes w * i)
        (λ j lo hi. held j (omega arith) (omega (arith, inside)))
      ∙ get-put_fields w fs.bo table zeros o i p h lt

  -- The table of the fields, at a byte offset.
  stored_free :
      IsStorable fs → (i : ℕ) → i < nicfree → get32 fs.bo sb (sb_free + 4 * i) ≡ fs.s_free i
  unfolding table common_fields
  stored_free s i h = omega (
    arith,
    s.free i h,
    stored long sb_free i (array long sb_free nicfree fs.s_free)
        (rw (tail_apart fs dialect 8 200 (omega arith))) h (omega arith),
  )

  stored_inode :
      IsStorable fs → (i : ℕ) → i < nicinod → get16 fs.bo sb (sb_inode + 2 * i) ≡ fs.s_inode i
  unfolding table common_fields
  stored_inode s i h = omega (
    arith,
    s.inode i h,
    stored short sb_inode i (array short sb_inode nicinod fs.s_inode)
        (rw (tail_apart fs dialect 210 200 (omega arith))) h (omega arith),
  )

  -- A field that is no array.
  scalar :
      (w : Width) (o v : ℕ)
      → find table w o ≡ some (field w o v)
      → o + bytes w ≤ 512
      → get w fs.bo sb o ≡ mask w v
  scalar w o v h fits = rw place (stored w o 0 (field w o v) h (omega arith) (omega arith))
    where
      place : ◌≡◌ {A = ℕ} o (o + bytes w * 0)
      place = omega arith

  decode_common_lem :
      IsStorable fs
      → (get16 fs.bo sb sb_isize ≡ fs.s_isize)
        × (get32 fs.bo sb sb_fsize ≡ fs.s_fsize)
        × (clamp_nfree (get16 fs.bo sb sb_nfree) ≡ fs.s_nfree)
        × (sign_extend (get16 fs.bo sb sb_ninode) ≡ fs.s_ninode)
        × (get32 fs.bo sb sb_time ≡ fs.s_time)
  unfolding table common_fields clamp_nfree
  decode_common_lem s = (
    omega (
      arith,
      s.isize,
      scalar short sb_isize fs.s_isize (rw (tail_apart fs dialect 0 2 (omega arith))) (omega arith),
    ),
    omega (
      arith,
      s.fsize,
      scalar long sb_fsize fs.s_fsize (rw (tail_apart fs dialect 2 4 (omega arith))) (omega arith),
    ),
    ground (
      arith,
      s.nfree,
      scalar short sb_nfree fs.s_nfree (rw (tail_apart fs dialect 6 2 (omega arith))) (omega arith),
    ),
    ground (
      arith,
      s.ninode,
      scalar short sb_ninode fs.s_ninode (rw (tail_apart fs dialect 208 2 (omega arith)))
          (omega arith),
    ),
    omega (
      arith,
      s.time,
      scalar long sb_time fs.s_time (rw (tail_apart fs dialect 414 4 (omega arith))) (omega arith),
    ),
  )

get32-zeros : (e : Endian) (o : ℕ) → get32 e zeros o ≡ 0
unfolding get32 zeros
get32-zeros pdp11 o = refl
get32-zeros le o = refl
get32-zeros be o = refl

-- The fields that the dialect places.
tail_true :
    (fs : S5Fs) (sb : Buf)
    → SameBytes sb (put_fields fs.bo zeros (common_fields fs ++ tail_fields fs true)) 0 512
    → IsStorable fs
    → (get32 fs.bo sb sb_magic ≡ fs_magic)
      × (get32 fs.bo sb sb_svtfree ≡ fs.s_tfree)
      × (sign_extend (get16 fs.bo sb sb_svtinode) ≡ fs.s_tinode)
      × (get16 fs.bo sb sb_svdinfo ≡ fs.s_m)
      × (get16 fs.bo sb (sb_svdinfo + 2) ≡ fs.s_n)
unfolding table common_fields tail_fields
tail_true fs sb held s = (
  scalar fs sb true held long sb_magic fs_magic refl (omega arith),
  omega (arith, s.tfree, scalar fs sb true held long sb_svtfree fs.s_tfree refl (omega arith)),
  ground (arith, s.tinode, scalar fs sb true held short sb_svtinode fs.s_tinode refl (omega arith)),
  omega (arith, s.m, scalar fs sb true held short sb_svdinfo fs.s_m refl (omega arith)),
  omega (arith, s.n, scalar fs sb true held short 420 fs.s_n refl (omega arith)),
)

tail_false :
    (fs : S5Fs) (sb : Buf)
    → SameBytes sb (put_fields fs.bo zeros (common_fields fs ++ tail_fields fs false)) 0 512
    → IsStorable fs
    → (get32 fs.bo sb sb_magic ≡ 0)
      × (get32 fs.bo sb sb_tfree ≡ fs.s_tfree)
      × (sign_extend (get16 fs.bo sb sb_tinode) ≡ fs.s_tinode)
      × (get16 fs.bo sb sb_dinfo ≡ fs.s_m)
      × (get16 fs.bo sb (sb_dinfo + 2) ≡ fs.s_n)
unfolding table common_fields tail_fields
tail_false fs sb held s = (
  get_same long fs.bo sb _ sb_magic (λ j lo hi. held j (omega arith) (omega arith))
      ∙ get-put_fields_ne long fs.bo (table fs sb false held) zeros sb_magic refl
      ∙ get32-zeros fs.bo sb_magic,
  omega (arith, s.tfree, scalar fs sb false held long sb_tfree fs.s_tfree refl (omega arith)),
  ground (arith, s.tinode, scalar fs sb false held short sb_tinode fs.s_tinode refl (omega arith)),
  omega (arith, s.m, scalar fs sb false held short sb_dinfo fs.s_m refl (omega arith)),
  omega (arith, s.n, scalar fs sb false held short 426 fs.s_n refl (omega arith)),
)

check_limits_ok : (r : S5Fs) → 2 ≤ r.s_isize → r.s_isize < r.s_fsize → check_limits r ≡ r
unfolding check_limits
check_limits_ok r lo hi = ground arith

limits_ok :
    (fs r : S5Fs) (sb : Buf)
    → IsStorable fs
    → get16 fs.bo sb sb_isize ≡ fs.s_isize
    → get32 fs.bo sb sb_fsize ≡ fs.s_fsize
    → check_limits (decode_tail fs.bo sb (decode_common fs.bo sb r))
      ≡ decode_tail fs.bo sb (decode_common fs.bo sb r)
unfolding decode_tail decode_common
limits_ok fs r sb s p q =
    check_limits_ok (decode_tail fs.bo sb (decode_common fs.bo sb r)) (ground (arith, s.ilist))
      (ground (arith, s.inside))

-- Decoding a buffer that holds the superblock gives the handle's fields, and no error.
decode-SameSuper :
    (fs r : S5Fs) (sb : Buf) (dialect : Bool)
    → SameBytes sb (put_fields fs.bo zeros (common_fields fs ++ tail_fields fs dialect)) 0 512
    → IsStorable fs
    → r.error ≡ none
    → r.sysv ≡ false
    → fs.sysv ≡ dialect
    → SameSuper (decode fs.bo sb r) fs × ((decode fs.bo sb r).error ≡ none)
unfolding decode decode_tail decode_common
decode-SameSuper fs r sb true held s ok plain sys =
    let c = decode_common_lem fs sb true held s in
    let t = tail_true fs sb held s in
    rw (limits_ok fs r sb s c.0 c.1, t.0)
      (
        record {
          isize = c.0;
          fsize = c.1;
          nfree = c.2;
          free = stored_free fs sb true held s;
          ninode = c.3;
          inode = stored_inode fs sb true held s;
          tfree = t.1;
          tinode = t.2;
          m = t.3;
          n = t.4;
          time = c.4;
          sysv = sym sys;
        },
        ok,
      )
decode-SameSuper fs r sb false held s ok plain sys =
    let c = decode_common_lem fs sb false held s in
    let t = tail_false fs sb held s in
    rw (limits_ok fs r sb s c.0 c.1, t.0)
      (
        record {
          isize = c.0;
          fsize = c.1;
          nfree = c.2;
          free = stored_free fs sb false held s;
          ninode = c.3;
          inode = stored_inode fs sb false held s;
          tfree = t.1;
          tinode = t.2;
          m = t.3;
          n = t.4;
          time = c.4;
          sysv = plain ∙ sym sys;
        },
        ok,
      )

-- The handle of s5fs_mount before it has read the superblock.
abbrev opened : File → Buf → ℕ → Endian → ℕ → S5Fs
opened fd uninit bsize e base = record (blank fd uninit) {
  base = base;
  bo = e;
  prof = profile bsize;
}

mount-eq :
    (fd : File) (uninit buf : Buf) (bsize : ℕ) (e : Endian) (base : ℕ)
    → 0 < bsize
    → bsize_ok bsize ≡ true
    → read_at fd (base + u32 superblk * bsize) bsize uninit ≡ some buf
    → mount fd uninit bsize e base ≡ decode e buf (opened fd uninit bsize e base)
unfolding mount blank profile
mount-eq fd uninit buf bsize e base pos good got =
    ground (arith, rdblk_ok superblk uninit buf (opened fd uninit bsize e base) refl got)

prof-decode : (e : Endian) (sb : Buf) (r : S5Fs) → (decode e sb r).prof ≡ r.prof
unfolding decode check_limits decode_tail decode_common fail
prof-decode e sb r = ground arith

abbrev super_bytes : S5Fs → Buf
super_bytes fs = put_fields fs.bo zeros (sb_fields fs)

-- What mounting the written image amounts to.
mount-written :
    (fs : S5Fs) (uninit : Buf)
    → IsStorable fs
    → IsMounted fs
    → (sb : Buf) × (mount (finish fs).fd uninit fs.prof.bsize fs.bo fs.base
        ≡ decode fs.bo sb (opened (finish fs).fd uninit fs.prof.bsize fs.bo fs.base))
      × SameBytes sb (super_bytes fs) 0 512
unfolding finish sb_fields
mount-written fs uninit s m = (
  λ i. if ltb i fs.prof.bsize then blocks out 1 i else uninit i,
  rw (wtblk_lem fs superblk (super_bytes fs) m (omega (arith, s.ilist, s.inside))) (
      mount-eq out.fd uninit _ fs.prof.bsize fs.bo fs.base (omega (arith, m.large)) s.bsize (
        read_at_lem out.fd (fs.base + 1 * fs.prof.bsize) fs.prof.bsize uninit
          (block_fits out 1 (written-Mounted fs 1 (super_bytes fs) m lt) lt))),
  λ j lo hi. ground (arith, m.large, written_self fs 1 (super_bytes fs) j),
)
  where
    out : S5Fs
    out = written fs 1 (super_bytes fs)

    lt : 1 < fs.s_fsize
    lt = omega (arith, s.ilist, s.inside)

-- For a handle with no error whose geometry and fields fit the superblock, mounting the image that
-- s5fs_finish leaves gives a handle with no error, the same geometry, and the same decoded
-- superblock: the free list, the free inodes, the totals and the dialect.
pub mount-finish :
    (fs : S5Fs) (uninit : Buf)
    → IsStorable fs
    → IsMounted fs
    → let r = mount (finish fs).fd uninit fs.prof.bsize fs.bo fs.base in
      SameSuper r fs × (r.error ≡ none) × (r.prof ≡ fs.prof)
unfolding common_fields sb_fields blank
mount-finish fs uninit s m =
    let (sb, e, held) = mount-written fs uninit s m in
    let start : S5Fs = opened (finish fs).fd uninit fs.prof.bsize fs.bo fs.base in
    let d = decode-SameSuper fs start sb fs.sysv held s refl refl refl in
    rw e (d.0, d.1, prof-decode fs.bo sb start ∙ sym s.derived)
