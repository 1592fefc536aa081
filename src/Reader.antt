-- ===== src/Reader.antt =====
-- The read side of fsread.c: opening, directories, paths, file contents, and the visited set.
--
-- A name or a path is the list of its bytes, with no NUL in it.
pub mod Names
pub mod Walk
pub mod Tokens
pub mod Bytes
pub mod Content
use s5fs.Base.{
  ℕ, zero, suc, ◌+◌, ◌-◌, ◌*◌, ◌/◌, Bool, true, false, not, ◌&&◌, ◌||◌, Option, none, some, List,
  [], ◌∷◌, ◌++◌, ltb, leb, ◌==◌, if◌then◌else◌,
}
use s5fs.Layout.{
  dirsiz, direntsz, superblk, iliststart, rootino, u32, bsize_ok, profile, sb_isize, sb_fsize, ifmt,
  ifdir,
}
use s5fs.Endian.{Buf, Endian, pdp11, le, be, get16, get32}
use s5fs.Image.{File, read_at}
use s5fs.Inode.{Inode, Fsr, bread, iget}
use s5fs.BlockMap.{bmap}

-- `detect_bo` takes the first byte order under which the superblock makes sense.
abbrev pub sane : Endian → Buf → ℕ → Bool
sane e sb fileblocks =
    leb iliststart (get16 e sb sb_isize)
    && (ltb (get16 e sb sb_isize) (get32 e sb sb_fsize)
        && (ltb 0 (get32 e sb sb_fsize) && leb (get32 e sb sb_fsize) fileblocks))

unfoldable pub detect_bo : Buf → ℕ → Option Endian
detect_bo sb fileblocks =
    if sane pdp11 sb fileblocks
    then some pdp11
    else if sane le sb fileblocks
    then some le
    else if sane be sb fileblocks
    then some be
    else none

abbrev pub chosen : Option Endian → Buf → ℕ → Option Endian
chosen (some e) sb fileblocks = some e
chosen none sb fileblocks = detect_bo sb fileblocks

-- `forced` is `none` to detect the byte order. The result `none` is -1.
unfoldable pub open_image : File → Buf → ℕ → Option Endian → ℕ → Option Fsr
open_image fd uninit bsize forced base =
    let b : ℕ = if bsize == 0 then 1024 else bsize in
    if not (bsize_ok b) then none else elim (read_at fd (base + superblk * b) b uninit) [
      | none ↦ none
      | some sb ↦ elim (chosen forced sb (u32 (fd.size / b))) [
        | none ↦ none
        | some e ↦
            let isize : ℕ = get16 e sb sb_isize in
            let fsize : ℕ = get32 e sb sb_fsize in
            if ltb isize iliststart || (leb fsize isize || fsize == 0)
            then none
            else some
                (record { bo = e; base = base; prof = profile b; isize = isize; fsize = fsize })
      ]
    ]

-- The C string of at most `n` bytes at an offset.
unfoldable pub c_string : ℕ → Buf → ℕ → List ℕ
c_string zero b o = []
c_string (suc n) b o = let rest = c_string n b (o + 1) in if b o == 0 then [] else b o ∷ rest

-- The entries of one directory block, `k` of them from `e` on; an entry 0 is free.
unfoldable pub dirents : Endian → Buf → ℕ → ℕ → List (ℕ × List ℕ)
dirents bo buf zero e = []
dirents bo buf (suc k) e =
    let rest : List (ℕ × List ℕ) = dirents bo buf k (e + 1) in
    if get16 bo buf (e * direntsz) == 0
    then rest
    else (get16 bo buf (e * direntsz), c_string dirsiz buf (e * direntsz + 2)) ∷ rest

-- The blocks of a directory, `k` of them from `b` on; a hole or an unreadable block is skipped.
unfoldable pub dir_blocks : Fsr → File → Buf → Inode → ℕ → ℕ → List (ℕ × List ℕ)
dir_blocks r fd uninit dir zero b = []
dir_blocks r fd uninit dir (suc k) b =
    let rest : List (ℕ × List ℕ) = dir_blocks r fd uninit dir k (b + 1) in
    let phys : ℕ = bmap r fd uninit dir.addr b in
    if phys == 0 then rest else elim (bread r fd phys uninit) [
      | none ↦ rest
      | some buf ↦ dirents r.bo buf r.prof.ndirect 0 ++ rest
    ]

-- What fsr_readdir hands to its callback, in order; `none` is -1, for no directory.
unfoldable pub readdir : Fsr → File → Buf → Inode → Option (List (ℕ × List ℕ))
readdir r fd uninit dir =
    if ifmt dir.mode == ifdir
    then some (dir_blocks r fd uninit dir (u32 (dir.size + (r.prof.bsize - 1)) / r.prof.bsize) 0)
    else none

-- `strcmp(a, b) == 0`
unfoldable pub same_name : List ℕ → List ℕ → Bool
same_name [] [] = true
same_name [] (y ∷ ys) = false
same_name (x ∷ xs) [] = false
same_name (x ∷ xs) (y ∷ ys) = x == y && same_name xs ys

-- The callback look_cb: the number of the first entry of this name, 0 for none.
unfoldable pub look : List ℕ → List (ℕ × List ℕ) → ℕ
look name [] = 0
look name ((ino, n) ∷ es) = if same_name name n then ino else look name es

-- The components of a path: the runs of bytes between slashes, as strtok_r gives them.
abbrev pub emit : List ℕ → List (List ℕ) → List (List ℕ)
emit [] ts = ts
emit (c ∷ cs) ts = (c ∷ cs) ∷ ts

unfoldable pub tokens : List ℕ → List ℕ → List (List ℕ)
tokens cur [] = emit cur []
tokens cur (x ∷ xs) =
    let slash : List (List ℕ) = emit cur (tokens [] xs) in
    let more : List (List ℕ) = tokens (cur ++ (x ∷ [])) xs in if x == b'/' then slash else more

abbrev pub take : ℕ → List ℕ → List ℕ
take zero xs = []
take (suc n) [] = []
take (suc n) (x ∷ xs) = x ∷ take n xs

unfoldable pub namei_from : Fsr → File → Buf → ℕ → List (List ℕ) → ℕ
namei_from r fd uninit ino [] = ino
namei_from r fd uninit ino (t ∷ ts) = elim (iget r fd uninit ino) [
  | none ↦ 0
  | some i ↦ elim (readdir r fd uninit i) [
    | none ↦ 0
    | some es ↦
        let next : ℕ = look t es in
        let on : ℕ = namei_from r fd uninit next ts in if next == 0 then 0 else on
  ]
]

-- The inode that a path names, 0 for none.
unfoldable pub namei : Fsr → File → Buf → List ℕ → ℕ
namei r fd uninit path = namei_from r fd uninit rootino (tokens [] (take 2047 path))
