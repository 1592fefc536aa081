-- ===== src/Fsck/Salvage.antt =====
-- The repair of the free list in fsck_run, and rep_bfree.
use s5fs.Base.{ℕ, zero, suc, ◌+◌, ◌-◌, ◌*◌, ◌^◌, Bool, leb, ◌==◌, if◌then◌else◌}
use s5fs.Layout.{nicfree, superblk, u32, sb_nfree, sb_free, fb_nfree, fb_free}
use s5fs.Endian.{Buf, put16, put32}
use s5fs.Writer.{zeros, put_longs}
use s5fs.Fsck.Check.{Ck, refs, ck_wtblk, is_sysv, tfree_off, tinode_off}

-- The locals `fr`, `nf` and `tf`.
pub record Salvage : Type 0 where
  pub fr : ℕ → ℕ
  pub nf : ℕ
  pub tf : ℕ

unfoldable pub rep_bfree : ℕ → Ck × Salvage → Ck × Salvage
rep_bfree bno (c, s) =
    let tf : ℕ = if bno == 0 then s.tf else u32 (s.tf + 1) in
    let full : Bool = leb nicfree s.nf in
    let fb : Buf = put_longs c.bo (put16 c.bo zeros fb_nfree s.nf) fb_free s.fr nicfree in
    let nf : ℕ = if full then 0 else s.nf in
    (
      if full then ck_wtblk bno fb c else c,
      record { fr = λ i. if i == nf then bno else s.fr i; nf = nf + 1; tf = tf },
    )

-- `for (bno = c.fsize; bno-- > c.isize;)`, `n` rounds that end at block `lo`.
unfoldable pub rebuild : ℕ → ℕ → Ck × Salvage → Ck × Salvage
rebuild zero lo s = s
rebuild (suc n) lo s = rebuild n lo (if refs s.0 (lo + n) == 0 then rep_bfree (lo + n) s else s)

-- `fr` is not initialised; `uninit` is what it happens to hold.
unfoldable pub salvage : (ℕ → ℕ) → Ck → Ck × Salvage
salvage uninit c =
    rebuild (c.fsize - c.isize) c.isize (rep_bfree 0 (c, record { fr = uninit; nf = 0; tf = 0 }))

-- The superblock behind the repair, put into the buffer `sb` and written; `files` is the count of
-- the inodes in use.
unfoldable pub write_super : ℕ → Buf → Ck × Salvage → Ck × Buf
write_super files sb (c, s) =
    let sysv : Bool = is_sysv c.bo sb in
    let sb1 : Buf = put16 c.bo sb sb_nfree s.nf in
    let sb2 : Buf = put_longs c.bo sb1 sb_free s.fr nicfree in
    let sb3 : Buf = put32 c.bo sb2 (tfree_off sysv) s.tf in
    let sb4 : Buf =
      put16 c.bo sb3 (tinode_off sysv) (u32 ((c.isize - 2) * c.prof.inopb + 2 ^ 32 - files)) in
    (ck_wtblk superblk sb4 c, sb4)
