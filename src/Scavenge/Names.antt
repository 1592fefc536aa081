-- ===== src/Scavenge/Names.antt =====
-- printable_name and deleted_names of cmd_scavenge.c.
use s5fs.Base.{
  ℕ, zero, suc, ◌+◌, ◌-◌, ◌*◌, ◌/◌, Bool, true, not, ◌&&◌, ◌||◌, none, some, List, [], ◌∷◌, ◌++◌,
  leb, ◌==◌, if◌then◌else◌,
}
use s5fs.Layout.{dirsiz, direntsz, u32, ifmt, ifdir}
use s5fs.Endian.{Buf, get16}
use s5fs.Writer.{window}
use s5fs.Inode.{Inode, iget}
use s5fs.Scavenge.Used.{Scav}
use s5fs.Reader.Bytes.{readfile}

-- The bytes up to a NUL, `n` at most, are printable; `p` is the name from its byte `i` on.
unfoldable pub printable_from : ℕ → ℕ → Buf → Bool
printable_from zero i p = true
printable_from (suc n) i p =
    p i == 0 || (leb 32 (p i) && (leb (p i) 126 && printable_from n (i + 1) p))

unfoldable pub printable_name : Buf → Bool
unfolding printable_from
printable_name p = not (p 0 == 0) && printable_from dirsiz 0 p

-- What `%s` prints of the `n` bytes from `i` on.
unfoldable pub printed_name : ℕ → ℕ → Buf → List ℕ
printed_name zero i p = []
printed_name (suc n) i p = if p i == 0 then [] else p i ∷ printed_name n (i + 1) p

-- A name in the directory with this inode number.
abbrev pub Ghost : Type 0
Ghost = List ℕ × ℕ

-- The entry `e` of a block: a name whose inode number is cleared.
unfoldable pub ghost : Scav → ℕ → Buf → ℕ → List Ghost
ghost s ino buf e =
    let p : Buf = window buf (e * direntsz + 2) in
    if get16 s.r.bo buf (e * direntsz) == 0 && printable_name p
    then (printed_name dirsiz 0 p, ino) ∷ []
    else []

-- `n` rounds from `e` on.
unfoldable pub collect : (ℕ → List Ghost) → ℕ → ℕ → List Ghost
collect f zero e = []
collect f (suc n) e = f e ++ collect f n (e + 1)

-- The entries of the block `b` of a directory: `for (e = 0; e * P11_DIRENTSZ < got; e++)`.
unfoldable pub ghosts_of_block : Scav → ℕ → Inode → ℕ → List Ghost
ghosts_of_block s ino i b =
    let (got, buf) = readfile s.r s.image s.uninit i s.uninit s.r.prof.bsize (b * s.r.prof.bsize) in
    collect (ghost s ino buf) ((got + direntsz - 1) / direntsz) 0

unfoldable pub ghosts_of_dir : Scav → ℕ → Inode → List Ghost
ghosts_of_dir s ino i =
    if ifmt i.mode == ifdir
    then collect (ghosts_of_block s ino i) (u32 (i.size + s.r.prof.bsize - 1) / s.r.prof.bsize) 0
    else []

-- `n` inodes from `ino` on; a failure of fsr_iget ends the loop.
unfoldable pub deleted_names : ℕ → ℕ → Scav → List Ghost
deleted_names zero ino s = []
deleted_names (suc n) ino s = elim (iget s.r s.image s.uninit ino) [
  | none ↦ []
  | some i ↦ ghosts_of_dir s ino i ++ deleted_names n (ino + 1) s
]
