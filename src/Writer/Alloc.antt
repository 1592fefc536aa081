-- ===== src/Writer/Alloc.antt =====
-- The free-list block (struct fblk) and the allocator: s5fs_put_fblk, s5fs_get_fblk, s5fs_alloc
-- and s5fs_bfree.
use s5fs.Base.{ℕ, zero, suc, ◌+◌, ◌-◌, ◌*◌, ◌||◌, none, some, ltb, leb, ◌==◌, if◌then◌else◌}
use s5fs.Endian.{Buf, Endian, put16, get16, put32, get32}
use s5fs.Layout.{nicfree, fb_nfree, fb_free, u32, clamp_nfree}
use s5fs.Writer.Handle.{S5Fs, Op, fail, out_of_space, rdblk, wtblk, zeros}

-- `for (i = 0; i < n; i++) put32(b + o + 4 * i, f[i])`
unfoldable pub put_longs : Endian → Buf → ℕ → (ℕ → ℕ) → ℕ → Buf
put_longs e b o f zero = b
put_longs e b o f (suc n) = put32 e (put_longs e b o f n) (o + 4 * n) (f n)

unfoldable pub put_fblk : ℕ → S5Fs → S5Fs
put_fblk bno fs =
    wtblk bno (put_longs fs.bo (put16 fs.bo zeros fb_nfree fs.s_nfree) fb_free fs.s_free nicfree) fs

-- The count and the addresses that a free-list block holds.
unfoldable pub fblk_nfree : Endian → Buf → ℕ
unfolding clamp_nfree
fblk_nfree e b = clamp_nfree (get16 e b fb_nfree)

unfoldable pub fblk_free : Endian → Buf → ℕ → ℕ
fblk_free e b i = get32 e b (fb_free + 4 * i)

unfoldable pub get_fblk : ℕ → S5Fs → S5Fs
get_fblk bno fs =
    let (blk, fs') = rdblk bno fs.uninit fs in
    record fs' { s_nfree = fblk_nfree fs'.bo blk; s_free = fblk_free fs'.bo blk }

-- `s_free[--s_nfree]` with `s_nfree` 0 reads before the array.
unfoldable pub alloc : Op ℕ
alloc fs =
    if fs.s_nfree == 0 || ltb nicfree fs.s_nfree
    then none
    else let n : ℕ = fs.s_nfree - 1 in
      let bno : ℕ = fs.s_free n in
      let fs1 : S5Fs = record fs { s_tfree = u32 (fs.s_tfree + 0xffffffff); s_nfree = n } in
      if bno == 0
      then some (0, fail out_of_space fs1)
      else some (bno, if n == 0 then get_fblk bno fs1 else fs1)

unfoldable pub bfree : ℕ → S5Fs → S5Fs
bfree bno fs =
    let fs1 : S5Fs = record fs {
      s_tfree = if bno == 0 then fs.s_tfree else u32 (fs.s_tfree + 1);
    } in
    let fs2 : S5Fs =
      if leb nicfree fs1.s_nfree then record (put_fblk bno fs1) { s_nfree = 0 } else fs1 in
    record fs2 {
      s_free = λ i. if i == fs2.s_nfree then bno else fs2.s_free i;
      s_nfree = fs2.s_nfree + 1;
    }
