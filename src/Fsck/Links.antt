-- ===== src/Fsck/Links.antt =====
-- Phase 4 of fsck_run, and the part of its repair that concerns names: dangling entries, orphans
-- and link counts.
--
-- `nino` is the number of inodes, and the tables are those that the scan of the inodes filled.
use s5fs.Base.{
  ℕ, zero, suc, ◌+◌, ◌-◌, ◌*◌, ◌/◌, ◌%◌, Bool, true, false, not, ◌&&◌, ◌||◌, Option, none, some,
  List, [], ◌∷◌, ltb, ◌==◌, if◌then◌else◌, codes,
}
use s5fs.Layout.{direntsz, rootino, badblkino}
use s5fs.Endian.{Buf, Endian, put16, get16}
use s5fs.Inode.{Inode}
use s5fs.Fsck.Check.{Ck, error, ck_wtblk, Tables}
use s5fs.Fsck.Walk.{finished, Outcome, exited, out_of_fuel}
use s5fs.Reader.{same_name}
use s5fs.Fsck.Dirs.{
  entry_ino, entry_name, dot, each_entry, each_inode, whole_dir, mark_reached, set_reached,
  find_in_dir, ck_set_nlink, ck_set_dotdot, dir_reuse_slot, bump, ck_recount,
}

-- The tally of one entry of the directory `ino`.
unfoldable pub tally_entry : ℕ → Tables → ℕ → Buf → ℕ → Ck × (ℕ → ℕ) → Ck × (ℕ → ℕ)
tally_entry nino t ino buf e (c, cnt) =
    let di : ℕ = entry_ino c buf e in
    let c1 : Ck = if t.allocated di then c else error c in
    let c2 : Ck = if same_name (entry_name buf e) dot && not (di == ino) then error c1 else c1 in
    if di == 0 then (c, cnt) else if ltb nino di then (error c, cnt) else (c2, bump di cnt)

unfoldable pub tally_block : ℕ → Tables → ℕ → ℕ → ℕ → Buf → Ck × (ℕ → ℕ) → Ck × (ℕ → ℕ)
tally_block nino t ino phys b buf s = each_entry (tally_entry nino t ino buf) s.0.prof.ndirect 0 s

unfoldable pub tally : ℕ → Tables → Ck → Option (Ck × (ℕ → ℕ))
tally nino t c =
    each_inode t.isdir (λ i. whole_dir (tally_block nino t i.number) i) nino 1 (c, λ i. 0)

-- How many of the inodes from `ino` on, `n` of them, pass a test.
unfoldable pub how_many : (ℕ → Bool) → ℕ → ℕ → ℕ
how_many f zero ino = 0
how_many f (suc n) ino = let rest : ℕ = how_many f n (ino + 1) in if f ino then rest + 1 else rest

-- The inodes whose link count is not the number of entries for them.
abbrev pub bad_link : Tables → (ℕ → ℕ) → ℕ → Bool
bad_link t cnt ino = not (cnt ino == t.dnlink ino)

-- The inodes in use that no path from the root leads to.
abbrev pub is_orphan : Tables → (ℕ → Bool) → ℕ → Bool
is_orphan t r ino = t.allocated ino && not (r ino)

-- `if (bad) c.errors++`
abbrev pub count_error : ℕ → Ck → Ck
count_error bad c = if bad == 0 then c else error c

-- The visits of mark_reached nest at most once for each inode that is not yet marked.
abbrev pub reach_fuel : ℕ → ℕ
reach_fuel nino = nino + 2

-- Phase 4: the tally, and the search from the root; inode 1 holds the bad blocks.
unfoldable pub check_links : ℕ → Tables → Ck → Outcome (Ck × (ℕ → Bool))
check_links nino t c = elim (tally nino t c) [
  | none ↦ exited
  | some (c1, cnt) ↦
      let c2 : Ck = count_error (how_many (bad_link t cnt) nino 1) c1 in
      elim (mark_reached (reach_fuel nino) c2 nino (λ i. false) rootino) [
        | exited ↦ exited
        | out_of_fuel ↦ out_of_fuel
        | finished r ↦
            let r1 : ℕ → Bool = set_reached badblkino r in
            finished (count_error (how_many (is_orphan t r1) nino 1) c2, r1)
      ]
]

-- (a) An entry of an inode that is not in use, or out of range, gets the number 0.
unfoldable pub zap_entry : Endian → ℕ → Tables → ℕ → Buf × Bool → Buf × Bool
zap_entry bo nino t e (buf, dirty) =
    let di : ℕ = get16 bo buf (e * direntsz) in
    if not (di == 0) && (ltb nino di || not (t.allocated di))
    then (put16 bo buf (e * direntsz) 0, true)
    else (buf, dirty)

unfoldable pub zap_block : ℕ → Tables → ℕ → ℕ → Buf → Ck × Unit {0} → Ck × Unit {0}
zap_block nino t phys b buf (c, u) =
    let (buf', dirty) = each_entry (zap_entry c.bo nino t) c.prof.ndirect 0 (buf, false) in
    (if dirty then ck_wtblk phys buf' c else c, u)

unfoldable pub zap_dangling : ℕ → Tables → Ck → Option Ck
zap_dangling nino t c =
    elim (each_inode t.isdir (λ i. whole_dir (zap_block nino t) i) nino 1 (c, tt)) [
      | none ↦ none
      | some (c', _) ↦ some c'
    ]

-- `snprintf(nm, sizeof nm, "#%u", ino)`: an inode number has at most ten digits.
abbrev digits : ℕ → ℕ → List ℕ → List ℕ
digits zero n ds = ds
digits (suc k) n ds =
    let rest : List ℕ = digits k (n / 10) ((n % 10 + b'0') ∷ ds) in
    if n / 10 == 0 then (n % 10 + b'0') ∷ ds else rest

unfoldable pub orphan_name : ℕ → List ℕ
orphan_name ino = b'#' ∷ digits 10 ino []

-- (b) An orphan gets an entry in lost+found, and all that it leads to is marked.
unfoldable pub adopt : ℕ → Tables → ℕ → ℕ → Ck → (ℕ → Bool) → Outcome (Ck × (ℕ → Bool))
adopt nino t lf ino c r = elim (if t.isdir ino then ck_set_dotdot ino lf c else some c) [
  | none ↦ exited
  | some c' ↦ elim (mark_reached (reach_fuel nino) c' nino r ino) [
    | exited ↦ exited
    | out_of_fuel ↦ out_of_fuel
    | finished r' ↦ finished (c', r')
  ]
]

-- The inodes from `ino` on, `n` of them, until lost+found is full.
unfoldable pub reconnect : ℕ → Tables → ℕ → ℕ → ℕ → Ck → (ℕ → Bool) → Outcome (Ck × (ℕ → Bool))
reconnect nino t lf zero ino c r = finished (c, r)
reconnect nino t lf (suc n) ino c r = elim (is_orphan t r ino) [
  | false ↦ reconnect nino t lf n (ino + 1) c r
  | true ↦ elim (dir_reuse_slot lf ino (orphan_name ino) c) [
    | none ↦ exited
    | some (c1, false) ↦ finished (c1, r)
    | some (c1, true) ↦ elim (adopt nino t lf ino c1 r) [
      | exited ↦ exited
      | out_of_fuel ↦ out_of_fuel
      | finished (c2, r2) ↦ reconnect nino t lf n (ino + 1) c2 r2
    ]
  ]
]

-- (c) The link counts are set to the number of entries.
unfoldable pub fix_link : (ℕ → ℕ) → Inode → Ck × Unit {0} → Option (Ck × Unit {0})
fix_link cnt i (c, u) =
    if i.nlink == cnt i.number
    then some (c, u)
    else elim (ck_set_nlink i.number (cnt i.number) c) [ none ↦ none | some c' ↦ some (c', u) ]

unfoldable pub fix_links : ℕ → Tables → Ck → Option Ck
fix_links nino t c = elim (ck_recount nino c) [
  | none ↦ none
  | some (c1, cnt) ↦ elim (each_inode t.allocated (fix_link cnt) nino 1 (c1, tt)) [
    | none ↦ none
    | some (c2, _) ↦ some c2
  ]
]

-- The order of the three, with lost+found looked up before anything is changed.
unfoldable pub repair_links : ℕ → Tables → (ℕ → Bool) → Ck → Outcome Ck
repair_links nino t r c = elim (find_in_dir c rootino (codes "lost+found")) [
  | none ↦ exited
  | some lf ↦ elim (zap_dangling nino t c) [
    | none ↦ exited
    | some c1 ↦
        elim (if lf == 0
          then finished (c1, r)
          else reconnect nino t lf (nino - rootino) (rootino + 1) c1 r) [
            | exited ↦ exited
            | out_of_fuel ↦ out_of_fuel
            | finished (c2, _) ↦ elim (fix_links nino t c2) [
              | none ↦ exited
              | some c3 ↦ finished c3
            ]
          ]
  ]
]
