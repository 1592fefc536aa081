-- ===== src/Superblock.antt =====
-- s5fs_mount and s5fs_finish: the superblock between its block and the handle.
pub mod RoundTrip
use s5fs.Base.{
  ℕ, ◌+◌, ◌-◌, ◌*◌, ◌^◌, Bool, true, false, ◌||◌, none, some, List, [], ◌∷◌, ◌++◌, ltb, leb, ◌==◌,
  if◌then◌else◌,
}
use s5fs.Writer.{bad_bsize, rdblk, bad_superblock, fail, wtblk, S5Fs, zeros}
use s5fs.Layout.{
  sb_type, sb_dinfo, sb_time, fs_clean, nicinod, sb_tinode, u32, sb_inode, sb_tfree, sb_ninode,
  sb_state, nicfree, sign_extend, sb_free, sb_svtinode, clamp_nfree, sb_svtfree, sb_nfree, fs_magic,
  sb_fsize, sb_svdinfo, bsize_ok, sb_magic, sb_isize, profile, superblk, iliststart, fs_type,
}
use s5fs.Endian.{get32, get16, pdp11, Buf, Endian}
use s5fs.Image.{File}
use s5fs.Fields.{array, long, put_fields, short, field, Field}

-- The handle of `memset(fs, 0, sizeof *fs)`, on an image file.
unfoldable pub blank : File → Buf → S5Fs
unfolding zeros
blank fd uninit = record {
  fd = fd;
  uninit = uninit;
  base = 0;
  sysv = false;
  error = none;
  bo = pdp11;
  prof = record { bsize = 0; inopb = 0; naddr = 0; laddr = 0; nindir = 0; ndirect = 0; clsize = 0 };
  s_isize = 0;
  s_fsize = 0;
  s_nfree = 0;
  s_free = zeros;
  s_ninode = 0;
  s_inode = zeros;
  s_tfree = 0;
  s_tinode = 0;
  s_m = 0;
  s_n = 0;
  s_time = 0;
  ino = 0;
  adr = zeros;
}

-- The calls of s5fs_finish, in their order. The System V dialect moves the totals and adds its
-- magic, block size and clean state; `FS_CLEAN - s_time` is a difference of uint32_t.
unfoldable pub common_fields : S5Fs → List Field
common_fields fs =
    field short sb_isize fs.s_isize
    ∷ field long sb_fsize fs.s_fsize
    ∷ field short sb_nfree fs.s_nfree
    ∷ array long sb_free nicfree fs.s_free
    ∷ field short sb_ninode fs.s_ninode
    ∷ array short sb_inode nicinod fs.s_inode
    ∷ field long sb_time fs.s_time
    ∷ []

unfoldable pub tail_fields : S5Fs → Bool → List Field
unfolding fs_type
tail_fields fs true =
    field short sb_svdinfo fs.s_m
    ∷ field short (sb_svdinfo + 2) fs.s_n
    ∷ field long sb_svtfree fs.s_tfree
    ∷ field short sb_svtinode fs.s_tinode
    ∷ field long sb_state (u32 (fs_clean + 2 ^ 32 - u32 fs.s_time))
    ∷ field long sb_magic fs_magic
    ∷ field long sb_type (fs_type fs.prof.bsize)
    ∷ []
tail_fields fs false =
    field long sb_tfree fs.s_tfree
    ∷ field short sb_tinode fs.s_tinode
    ∷ field short sb_dinfo fs.s_m
    ∷ field short (sb_dinfo + 2) fs.s_n
    ∷ []

unfoldable pub sb_fields : S5Fs → List Field
sb_fields fs = common_fields fs ++ tail_fields fs fs.sysv

unfoldable pub finish : S5Fs → S5Fs
finish fs = wtblk superblk (put_fields fs.bo zeros (sb_fields fs)) fs

-- The fields that s5fs_mount decodes from the superblock `sb`.
unfoldable pub decode_common : Endian → Buf → S5Fs → S5Fs
decode_common e sb fs = record fs {
  s_isize = get16 e sb sb_isize;
  s_fsize = get32 e sb sb_fsize;
  s_nfree = clamp_nfree (get16 e sb sb_nfree);
  s_free = λ i. get32 e sb (sb_free + 4 * i);
  s_ninode = sign_extend (get16 e sb sb_ninode);
  s_inode = λ i. get16 e sb (sb_inode + 2 * i);
  s_time = get32 e sb sb_time;
}

unfoldable pub decode_tail : Endian → Buf → S5Fs → S5Fs
decode_tail e sb fs =
    if get32 e sb sb_magic == fs_magic
    then record fs {
      sysv = true;
      s_tfree = get32 e sb sb_svtfree;
      s_tinode = sign_extend (get16 e sb sb_svtinode);
      s_m = get16 e sb sb_svdinfo;
      s_n = get16 e sb (sb_svdinfo + 2);
    }
    else record fs {
      s_tfree = get32 e sb sb_tfree;
      s_tinode = sign_extend (get16 e sb sb_tinode);
      s_m = get16 e sb sb_dinfo;
      s_n = get16 e sb (sb_dinfo + 2);
    }

-- The last check of s5fs_mount: a volume with an i-list, and data blocks behind it.
unfoldable pub check_limits : S5Fs → S5Fs
check_limits fs =
    if ltb fs.s_isize iliststart || leb fs.s_fsize fs.s_isize then fail bad_superblock fs else fs

unfoldable pub decode : Endian → Buf → S5Fs → S5Fs
decode e sb fs = check_limits (decode_tail e sb (decode_common e sb fs))

-- s5fs_mount returns -1 where the handle has an error, and 0 elsewhere.
unfoldable pub mount : File → Buf → ℕ → Endian → ℕ → S5Fs
mount fd uninit bsize e base =
    let b : ℕ = if bsize == 0 then 1024 else bsize in
    let fs : S5Fs = record (blank fd uninit) { base = base; bo = e; prof = profile b } in
    if bsize_ok b
    then (let (sb, fs') = rdblk superblk uninit fs in
        elim (fs'.error) [ some _ ↦ fs' | none ↦ decode e sb fs' ])
    else fail bad_bsize (record (blank fd uninit) {
      base = base;
      bo = e;
      prof = record (profile 0) { bsize = b; naddr = 0; laddr = 0 };
    })
