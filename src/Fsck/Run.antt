-- ===== src/Fsck/Run.antt =====
-- The commands of cmd_fsck.c from the opening of the image on: fsck_run, which `fsck`, `icheck` and
-- `dcheck` call with different checks, and the loop of `clri`.
--
-- The options, the listing `-l` and the messages are left out. `reached` is all false where the
-- links are not checked; the repair does not look at it then.
use s5fs.Base.{
  ℕ, ◌+◌, ◌-◌, ◌*◌, ◌/◌, Bool, true, false, not, ◌||◌, Option, none, some, List, [], ◌∷◌, ltb, leb,
  ◌==◌, if◌then◌else◌,
}
use s5fs.Layout.{dinodesz, superblk, iliststart, u32, bsize_ok, profile}
use s5fs.Endian.{Buf, Endian}
use s5fs.Image.{File, read_at}
use s5fs.Writer.{itod, itoo, zeros, splice}
use s5fs.Fsck.Check.{
  Ck, ck_rdblk, ck_wtblk, load_super, check_partition, Tables, empty_tables, scan_inodes, Checks,
}
use s5fs.Fsck.Salvage.{write_super, salvage}
use s5fs.Fsck.Walk.{finished, Outcome, exited, out_of_fuel, check_free_list}
use s5fs.Reader.{chosen}
use s5fs.Fsck.Links.{check_links, repair_links}

-- The state of fsck_run and the superblock's block; `none` ends the process, by `die` or `exit`.
unfoldable pub ck_open : File → Buf → ℕ → Option Endian → ℕ → Option (Ck × Buf)
ck_open fd uninit bsize forced base =
    if not (bsize_ok bsize)
    then none
    else elim (read_at fd (base + superblk * bsize) bsize uninit) [
      | none ↦ none
      | some sb ↦ elim (chosen forced sb (u32 (fd.size / bsize))) [
        | none ↦ none
        | some e ↦
            let c : Ck = load_super sb (record {
              fd = fd;
              base = base;
              bo = e;
              prof = profile bsize;
              isize = 0;
              fsize = 0;
              nfree = 0;
              tfree = 0;
              tinode = 0;
              use_map = λ i. 0;
              errors = 0;
            }) in
            if ltb c.isize iliststart || (leb c.fsize c.isize || c.fsize == 0)
            then none
            else some (c, sb)
      ]
    ]

-- `(c.isize - 2) * c.inopb`
abbrev pub ck_nino : Ck → ℕ
ck_nino c = u32 ((c.isize - 2) * c.prof.inopb)

-- Phases 2 and 3.
unfoldable pub check_blocks : Bool → Buf → Ck → Outcome Ck
check_blocks false sb c = finished c
check_blocks true sb c = elim (check_free_list sb c) [
  | exited ↦ exited
  | out_of_fuel ↦ out_of_fuel
  | finished c' ↦ finished (check_partition c')
]

unfoldable pub check_names : Bool → ℕ → Tables → Ck → Outcome (Ck × (ℕ → Bool))
check_names false nino t c = finished (c, λ i. false)
check_names true nino t c = check_links nino t c

unfoldable pub repair_names : Bool → ℕ → Tables → (ℕ → Bool) → Ck → Outcome Ck
repair_names false nino t r c = finished c
repair_names true nino t r c = repair_links nino t r c

-- The repair: names first, then the free list from the marks of phase 1. `uninit` is what the array
-- of addresses on the stack happens to hold.
unfoldable pub fsck_repair : Checks → (ℕ → ℕ) → ℕ → Tables → (ℕ → Bool) → Buf → Ck → Outcome Ck
fsck_repair k uninit nino t r sb c = elim (repair_names k.links nino t r c) [
  | exited ↦ exited
  | out_of_fuel ↦ out_of_fuel
  | finished c' ↦ finished (if k.blocks then (write_super t.files sb (salvage uninit c')).0 else c')
]

-- The repair where it is asked for.
unfoldable pub finish_run :
    Bool → Checks → (ℕ → ℕ) → ℕ → Tables → (ℕ → Bool) → Buf → Ck → Outcome Ck
finish_run false k uninit nino t r sb c = finished c
finish_run true k uninit nino t r sb c = fsck_repair k uninit nino t r sb c

-- fsck_run behind the opening.
unfoldable pub fsck_run : Bool → Checks → (ℕ → ℕ) → Buf → Ck → Outcome Ck
fsck_run repair k uninit sb c = elim (scan_inodes k (ck_nino c) 1 c empty_tables) [
  | none ↦ exited
  | some (c1, t) ↦ elim (check_blocks k.blocks sb c1) [
    | exited ↦ exited
    | out_of_fuel ↦ out_of_fuel
    | finished c2 ↦ elim (check_names k.links (ck_nino c) t c2) [
      | exited ↦ exited
      | out_of_fuel ↦ out_of_fuel
      | finished (c3, r) ↦ finish_run repair k uninit (ck_nino c) t r sb c3
    ]
  ]
]

-- `clri` at one inode number: its 64 bytes become 0. A number out of range is passed over.
unfoldable pub clri : ℕ → Ck → Option Ck
unfolding itod itoo splice
clri inum c =
    let blk : ℕ = itod c.prof.inopb inum in
    let o : ℕ = itoo c.prof.inopb inum * dinodesz in
    if inum == 0 || leb c.isize blk then some c else elim (ck_rdblk c blk) [
      | none ↦ none
      | some b ↦ some (ck_wtblk blk (splice b o dinodesz zeros) c)
    ]

unfoldable pub clri_all : List ℕ → Ck → Option Ck
clri_all [] c = some c
clri_all (i ∷ is) c = elim (clri i c) [ none ↦ none | some c' ↦ clri_all is c' ]
