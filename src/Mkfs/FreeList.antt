-- ===== src/Mkfs/FreeList.antt =====
-- s5fs_freelist: the rotational interleave, and the free list over the data blocks.
use s5fs.Base.{
  ℕ, zero, suc, ◌+◌, ◌-◌, ◌/◌, ◌%◌, Bool, false, none, ◌&&◌, ◌||◌, ltb, leb, ◌==◌, if◌then◌else◌,
}
use s5fs.Layout.{maxfn, u16, ifreg}
use s5fs.Writer.{S5Fs, Op, bfree}
use s5fs.Mkfs.Dir.{iput, no_inode}

-- `while (flg[i]) i = (i + 1) % fn;`
unfoldable pub next_clear : ℕ → (ℕ → Bool) → ℕ → ℕ → ℕ
next_clear zero flg fn i = i
next_clear (suc k) flg fn i =
    let on : ℕ = next_clear k flg fn ((i + 1) % fn) in if flg i then on else i

-- The `k` rounds from `j` on of the loop that fills `adr`. `flg` and `adr` have 500 entries in the
-- code, and freelist below keeps `fn` within them.
unfoldable pub permute : ℕ → ℕ → ℕ → (ℕ → Bool) → ℕ → ℕ → (ℕ → ℕ) → ℕ → ℕ
permute fn fm zero flg i j adr = adr
permute fn fm (suc k) flg i j adr =
    let i' : ℕ = next_clear fn flg fn i in
    permute fn fm k (λ q. q == i' || flg q) ((i' + fm) % fn) (j + 1)
      (λ q. if q == j then i' + 1 else adr q)

-- `while (d % fn) d++;`
unfoldable pub round_up : ℕ → ℕ → ℕ → ℕ
round_up zero fn d = d
round_up (suc k) fn d = let on : ℕ = round_up k fn (d + 1) in if d % fn == 0 then d else on

-- The inner loop, `k` rounds from `i` on: the data blocks of a group, in the order of `adr`.
unfoldable pub free_group : ℕ → ℕ → ℕ → S5Fs → S5Fs
free_group zero i d fs = fs
free_group (suc k) i d fs =
    let f : ℕ = d - fs.adr i in
    free_group k (i + 1) d (if ltb f fs.s_fsize && leb fs.s_isize f then bfree f fs else fs)

-- `for (; d > 0; d -= fn)`, `k` groups.
unfoldable pub free_groups : ℕ → ℕ → ℕ → S5Fs → S5Fs
free_groups zero fn d fs = fs
free_groups (suc k) fn d fs = free_groups k fn (d - fn) (free_group fn 0 d fs)

-- s5fs_freelist up to the write of the inode. `d` is a multiple of `fn` and falls by `fn`: `d / fn`
-- groups.
unfoldable pub build_list : S5Fs → S5Fs
build_list fs =
    let fn : ℕ = fs.s_n in
    let d : ℕ = round_up fn fn (fs.s_fsize - 1) in
    let fs1 : S5Fs = record fs {
      adr = permute fn fs.s_m fn (λ q. false) 0 0 fs.adr;
      ino = fs.ino + 1;
    } in
    free_groups (d / fn) fn d (bfree 0 fs1)

-- `none` is undefined behaviour: an interleave of 0, or one that `flg` and `adr` have no room for.
unfoldable pub freelist : Op (Unit {0})
freelist fs =
    if fs.s_n == 0 || ltb maxfn fs.s_n
    then none
    else iput (record no_inode { number = u16 (fs.ino + 1); mode = ifreg }) 0 (λ q. 0)
        (build_list fs)
