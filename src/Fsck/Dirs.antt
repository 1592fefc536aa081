-- ===== src/Fsck/Dirs.antt =====
-- The directory routines of cmd_fsck.c: bmap, mark_reached, find_in_dir, ck_set_nlink,
-- ck_set_dotdot, dir_reuse_slot and ck_recount.
--
-- Each loop over a directory has the same frame, `each_block`: the blocks in order, a hole passed
-- over. `none` is the end of the process at a read error.
use s5fs.Base.{
  ℕ, zero, suc, ◌+◌, ◌-◌, ◌*◌, ◌/◌, Bool, true, false, not, ◌&&◌, ◌||◌, Option, none, some, List,
  [], ◌∷◌, ltb, leb, ◌==◌, if◌then◌else◌,
}
use s5fs.Layout.{dirsiz, direntsz, dinodesz, u32, di_nlink, ifmt, ifdir}
use s5fs.Endian.{Buf, put16, get16, get32}
use s5fs.Writer.{itod, itoo}
use s5fs.Inode.{Inode}
use s5fs.Fsck.Check.{Ck, ck_rdblk, ck_wtblk, read_inode}
use s5fs.Fsck.Walk.{finished, Outcome, exited, out_of_fuel}
use s5fs.BlockMap.{lbn_route, ind_index}
use s5fs.Reader.{c_string, same_name}
use s5fs.Rw.Dir.{find_slot}
use s5fs.Mkfs.Dir.{put_dirent}

-- The loop of bmap from level `l` down.
unfoldable pub ck_descend : Ck → ℕ → ℕ → ℕ → Option ℕ
ck_descend c idx zero phys = some phys
ck_descend c idx (suc l) phys = if phys == 0 then some 0 else elim (ck_rdblk c phys) [
  | none ↦ none
  | some buf ↦ ck_descend c idx l (get32 c.bo buf (4 * ind_index c.prof.nindir idx (suc l)))
]

unfoldable pub ck_bmap : Ck → (ℕ → ℕ) → ℕ → Option ℕ
ck_bmap c addr lbn = elim (lbn_route c.prof.laddr c.prof.nindir lbn) [
  | none ↦ some 0
  | some (lvl, slot, idx) ↦ ck_descend c idx lvl (addr slot)
]

-- `((uint32_t)size + c->bsize - 1) / c->bsize`
abbrev pub ck_nblk : Ck → Inode → ℕ
ck_nblk c i = u32 (i.size + (c.prof.bsize - 1)) / c.prof.bsize

-- The number and the name of entry `e`.
abbrev pub entry_ino : Ck → Buf → ℕ → ℕ
entry_ino c buf e = get16 c.bo buf (e * direntsz)

abbrev pub entry_name : Buf → ℕ → List ℕ
entry_name buf e = c_string dirsiz buf (e * direntsz + 2)

abbrev pub dot : List ℕ
dot = b'.' ∷ []

abbrev pub dotdot : List ℕ
dotdot = b'.' ∷ b'.' ∷ []

module _ {A : Type 0} where
  -- A loop that visits the entries from `e` on, `n` of them.
  unfoldable pub each_entry : (ℕ → A → A) → ℕ → ℕ → A → A
  each_entry f zero e s = s
  each_entry f (suc n) e s = each_entry f n (e + 1) (f e s)

  -- A loop that visits the blocks of a directory from `b` on, `n` of them at most, until `stop`; `f`
  -- gets the physical block, its place in the directory, and what it holds.
  unfoldable pub each_block :
      (A → Bool) → (ℕ → ℕ → Buf → Ck × A → Ck × A) → (ℕ → ℕ) → ℕ → ℕ → Ck × A → Option (Ck × A)
  each_block stop f addr zero b s = some s
  each_block stop f addr (suc n) b s = elim (stop s.1) [
    | true ↦ some s
    | false ↦ elim (ck_bmap s.0 addr b) [
      | none ↦ none
      | some phys ↦ elim (phys == 0) [
        | true ↦ each_block stop f addr n (b + 1) s
        | false ↦ elim (ck_rdblk s.0 phys) [
          | none ↦ none
          | some buf ↦ each_block stop f addr n (b + 1) (f phys b buf s)
        ]
      ]
    ]
  ]

  -- A loop over the inodes from `ino` on, `n` of them; `keep` says which are visited, and an inode
  -- that read_inode refuses is passed over.
  unfoldable pub each_inode :
      (ℕ → Bool) → (Inode → Ck × A → Option (Ck × A)) → ℕ → ℕ → Ck × A → Option (Ck × A)
  each_inode keep f zero ino s = some s
  each_inode keep f (suc n) ino s = elim (keep ino) [
    | false ↦ each_inode keep f n (ino + 1) s
    | true ↦ elim (read_inode s.0 ino) [
      | none ↦ none
      | some none ↦ each_inode keep f n (ino + 1) s
      | some (some i) ↦ elim (f i s) [ none ↦ none | some s' ↦ each_inode keep f n (ino + 1) s' ]
    ]
  ]

  abbrev pub whole_dir : (ℕ → ℕ → Buf → Ck × A → Ck × A) → Inode → Ck × A → Option (Ck × A)
  whole_dir f i s = each_block (λ a. false) f i.addr (ck_nblk s.0 i) 0 s

-- The marks of mark_reached at the entries of one block from `e` on, `n` of them; `go` is the call
-- of mark_reached for the number of an entry.
unfoldable pub reach_entries :
    ((ℕ → Bool) → ℕ → Outcome (ℕ → Bool)) → Ck → ℕ → Buf → ℕ → ℕ → (ℕ → Bool) → Outcome (ℕ → Bool)
reach_entries go c nino buf zero e r = finished r
reach_entries go c nino buf (suc n) e r =
    let di : ℕ = entry_ino c buf e in
    let name : List ℕ = entry_name buf e in
    elim (di == 0 || (ltb nino di || (same_name name dot || same_name name dotdot))) [
      | true ↦ reach_entries go c nino buf n (e + 1) r
      | false ↦ elim (go r di) [
        | finished r' ↦ reach_entries go c nino buf n (e + 1) r'
        | exited ↦ exited
        | out_of_fuel ↦ out_of_fuel
      ]
    ]

-- The blocks of the directory from `b` on, `n` of them.
unfoldable pub reach_blocks :
    ((ℕ → Bool) → ℕ → Outcome (ℕ → Bool))
    → Ck
    → ℕ
    → (ℕ → ℕ)
    → ℕ
    → ℕ
    → (ℕ → Bool)
    → Outcome (ℕ → Bool)
reach_blocks go c nino addr zero b r = finished r
reach_blocks go c nino addr (suc n) b r = elim (ck_bmap c addr b) [
  | none ↦ exited
  | some phys ↦ elim (phys == 0) [
    | true ↦ reach_blocks go c nino addr n (b + 1) r
    | false ↦ elim (ck_rdblk c phys) [
      | none ↦ exited
      | some buf ↦ elim (reach_entries go c nino buf c.prof.ndirect 0 r) [
        | finished r' ↦ reach_blocks go c nino addr n (b + 1) r'
        | exited ↦ exited
        | out_of_fuel ↦ out_of_fuel
      ]
    ]
  ]
]

-- `reached[ino] = 1`
abbrev pub set_reached : ℕ → (ℕ → Bool) → ℕ → Bool
set_reached ino r i = i == ino || r i

-- The fuel is the depth of the recursion that is left.
unfoldable pub mark_reached : ℕ → Ck → ℕ → (ℕ → Bool) → ℕ → Outcome (ℕ → Bool)
mark_reached zero c nino r ino = out_of_fuel
mark_reached (suc fuel) c nino r ino = elim (ino == 0 || (ltb nino ino || r ino)) [
  | true ↦ finished r
  | false ↦ elim (read_inode c ino) [
    | none ↦ exited
    | some none ↦ finished (set_reached ino r)
    | some (some i) ↦ elim (ifmt i.mode == ifdir) [
      | false ↦ finished (set_reached ino r)
      | true ↦
          reach_blocks (mark_reached fuel c nino) c nino i.addr (ck_nblk c i) 0 (set_reached ino r)
    ]
  ]
]

-- The number of the first entry of this name in a block, 0 for none.
unfoldable pub find_entry : Ck → List ℕ → Buf → ℕ → ℕ → ℕ
find_entry c name buf zero e = 0
find_entry c name buf (suc n) e =
    let rest : ℕ = find_entry c name buf n (e + 1) in
    if not (entry_ino c buf e == 0) && same_name (entry_name buf e) name
    then entry_ino c buf e
    else rest

-- One block of the search: the result is 0 before it, by the condition of the loop.
unfoldable pub find_in_block : List ℕ → ℕ → ℕ → Buf → Ck × ℕ → Ck × ℕ
find_in_block name phys b buf (c, res) = (c, find_entry c name buf c.prof.ndirect 0)

unfoldable pub find_in_dir : Ck → ℕ → List ℕ → Option ℕ
find_in_dir c dino name = elim (read_inode c dino) [
  | none ↦ none
  | some none ↦ some 0
  | some (some i) ↦ elim (ifmt i.mode == ifdir) [
    | false ↦ some 0
    | true ↦
        elim (each_block (λ res. not (res == 0)) (find_in_block name) i.addr (ck_nblk c i) 0
          (c, 0)) [ none ↦ none | some (_, res) ↦ some res ]
  ]
]

-- An inode's block is read, changed and written back.
unfoldable pub ck_set_nlink : ℕ → ℕ → Ck → Option Ck
unfolding itod itoo
ck_set_nlink ino nlink c =
    let blk : ℕ = itod c.prof.inopb ino in
    let o : ℕ = itoo c.prof.inopb ino * dinodesz in
    elim (ck_rdblk c blk) [
      | none ↦ none
      | some b ↦ some (ck_wtblk blk (put16 c.bo b (o + di_nlink) nlink) c)
    ]

-- The entry ".." is the second of the first block.
unfoldable pub ck_set_dotdot : ℕ → ℕ → Ck → Option Ck
ck_set_dotdot dino parent c = elim (read_inode c dino) [
  | none ↦ none
  | some none ↦ some c
  | some (some i) ↦ elim (ck_bmap c i.addr 0) [
    | none ↦ none
    | some phys ↦ elim (phys == 0) [
      | true ↦ some c
      | false ↦ elim (ck_rdblk c phys) [
        | none ↦ none
        | some b ↦ some (ck_wtblk phys (put16 c.bo b direntsz parent) c)
      ]
    ]
  ]
]

-- The first free slot of the block below the directory's size takes the entry.
unfoldable pub reuse_in_block : Inode → ℕ → List ℕ → ℕ → ℕ → Buf → Ck × Bool → Ck × Bool
reuse_in_block i ino name phys b buf (c, d) =
    elim (find_slot (λ db o. get16 c.bo db o == 0) i.size (b * c.prof.ndirect) buf c.prof.ndirect
      0) [
        | none ↦ (c, d)
        | some e ↦ (ck_wtblk phys (put_dirent c.bo buf (e * direntsz) ino name) c, true)
      ]

-- The result `false` is a full directory.
unfoldable pub dir_reuse_slot : ℕ → ℕ → List ℕ → Ck → Option (Ck × Bool)
dir_reuse_slot dir ino name c = elim (read_inode c dir) [
  | none ↦ none
  | some none ↦ some (c, false)
  | some (some i) ↦
      each_block (λ d. d) (reuse_in_block i ino name) i.addr (ck_nblk c i) 0 (c, false)
]

-- One more reference to an inode.
abbrev pub bump : ℕ → (ℕ → ℕ) → ℕ → ℕ
bump di cnt i = if i == di then u32 (cnt i + 1) else cnt i

-- ck_recount at one entry, one block and all inodes.
unfoldable pub recount_entry : Ck → ℕ → Buf → ℕ → (ℕ → ℕ) → ℕ → ℕ
recount_entry c nino buf e cnt =
    let di : ℕ = entry_ino c buf e in if not (di == 0) && leb di nino then bump di cnt else cnt

unfoldable pub recount_block : ℕ → ℕ → ℕ → Buf → Ck × (ℕ → ℕ) → Ck × (ℕ → ℕ)
recount_block nino phys b buf (c, cnt) =
    (c, each_entry (recount_entry c nino buf) c.prof.ndirect 0 cnt)

unfoldable pub ck_recount : ℕ → Ck → Option (Ck × (ℕ → ℕ))
ck_recount nino c =
    each_inode (λ ino. true)
      (λ i s. if ifmt i.mode == ifdir then whole_dir (recount_block nino) i s else some s) nino 1
      (c, λ i. 0)
