-- ===== src/Mkfs/Begin.antt =====
-- s5fs_begin: the geometry of a fresh volume, the size of the image, and the empty i-list.
use s5fs.Base.{
  ℕ, zero, suc, ◌+◌, ◌-◌, ◌*◌, ◌/◌, Bool, not, ◌&&◌, ◌||◌, Option, none, some, ltb, leb, ◌==◌,
  if◌then◌else◌,
}
use s5fs.Layout.{maxfn, maxino, maxfsblks, iliststart, u32, u16, bsize_ok, Profile, profile}
use s5fs.Endian.{Buf, Endian}
use s5fs.Image.{File}
use s5fs.Writer.{
  fail, wtblk, zeros, bad_order, bad_bsize, volume_large, too_small, bad_ratio, too_many_inodes,
  S5Fs,
}
use s5fs.Superblock.{blank}

-- s5fs_opts. `endian` is `none` for a byte order out of range and `mtime` for a negative time.
pub record Opts : Type 0 where
  pub bsize : ℕ
  pub m : ℕ
  pub n : ℕ
  pub mtime : Option ℕ
  pub ninode : ℕ
  pub endian : Option Endian
  pub base : ℕ
  pub sysv : Bool

-- ftruncate(2): the file gets this length, and reads as 0 behind its old end.
unfoldable pub truncate : File → ℕ → File
truncate f n = record { size = n; byte = λ j. if ltb j f.size then f.byte j else 0 }

-- `(int16_t)w <= 0`
abbrev pub not_positive : ℕ → Bool
not_positive w = w == 0 || leb 0x8000 w

unfoldable pub interleave_n : ℕ → ℕ
interleave_n n =
    let s_n : ℕ = if n == 0 then 10 else u16 n in
    if not_positive s_n || leb maxfn s_n then maxfn else s_n

unfoldable pub interleave_m : ℕ → ℕ → ℕ
interleave_m m s_n =
    let s_m : ℕ = if m == 0 then 5 else u16 m in if not_positive s_m || ltb s_n s_m then 3 else s_m

-- The blocks of the i-list: an explicit minimum of inodes, or the size heuristic of mkfs.
unfoldable pub ninodeblks : Profile → ℕ → ℕ → ℕ
ninodeblks p nblocks ninode =
    if not (ninode == 0)
    then (ninode + p.inopb - 1) / p.inopb
    else let n : ℕ = if leb nblocks (5000 / p.clsize) then nblocks / 50 else nblocks / 25 in
      let n1 : ℕ = if n == 0 then 1 else n in
      if ltb (65500 / p.inopb) n1 then 65500 / p.inopb else n1

-- `for (n = …; n < fs->s_isize; n++)`, `k` rounds from block `n` on.
unfoldable pub zero_ilist : ℕ → ℕ → S5Fs → S5Fs
zero_ilist zero n fs = fs
zero_ilist (suc k) n fs = zero_ilist k (n + 1) (
    let fs' : S5Fs = wtblk n zeros fs in
    record fs' { s_tinode = u32 (fs'.s_tinode + fs'.prof.inopb) })

-- The handle of a fresh volume. s5fs_begin returns -1 where it has an error; the rest of such a
-- handle is not looked at.
unfoldable pub begin : File → Buf → ℕ → ℕ → Opts → S5Fs
begin fd uninit now nblocks opts =
    let b : ℕ = if opts.bsize == 0 then 1024 else opts.bsize in
    let p : Profile = profile b in
    let s_n : ℕ = interleave_n opts.n in
    let isize : ℕ = ninodeblks p nblocks opts.ninode + 2 in
    let start : S5Fs = record (blank fd uninit) { base = opts.base; sysv = opts.sysv } in
    elim (opts.endian) [
      | none ↦ fail bad_order start
      | some e ↦
          let fs : S5Fs = record start { bo = e; prof = p } in
          let ready : S5Fs = record fs {
            s_fsize = nblocks;
            s_n = s_n;
            s_m = interleave_m opts.m s_n;
            s_time = elim (opts.mtime) [ none ↦ now | some t ↦ u32 t ];
            s_isize = isize;
          } in
          let need : ℕ = opts.base + nblocks * b in
          let sized : File = if opts.base == 0 || ltb fd.size need then truncate fd need else fd in
          if not (bsize_ok b)
          then fail bad_bsize start
          else if ltb maxfsblks nblocks
          then fail volume_large fs
          else if ltb nblocks 8
          then fail too_small fs
          else if not (opts.ninode == 0) && ltb maxino opts.ninode
          then fail too_many_inodes ready
          else if leb nblocks isize
          then fail bad_ratio ready
          else zero_ilist (isize - iliststart) iliststart (record ready { fd = sized })
    ]
