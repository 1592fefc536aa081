-- ===== src/Mkfs/Dir.antt =====
-- s5fs_newblk, s5fs_entry and s5fs_iput: the directory and inode writers of mkfs.
use s5fs.Base.{
  ℕ, zero, suc, ◌+◌, ◌-◌, ◌*◌, ◌%◌, ◌&&◌, ◌||◌, some, List, [], ◌∷◌, ltb, leb, ◌==◌, if◌then◌else◌,
}
use s5fs.Layout.{direntsz, dinodesz, u32, ifmt, ifdir, ifchr, ifblk, ifreg}
use s5fs.Endian.{Buf, Endian, put16}
use s5fs.Fields.{put_fields}
use s5fs.Writer.{
  fail, itod, rdblk, wtblk, zeros, window, splice, indirect_full, ilist_small, bad_mode, S5Fs, Op,
  pure, do_op, ◌>>=◌, ◌>>◌, put_longs, alloc,
}
use s5fs.Inode.{Inode, inode_fields, slot}
use s5fs.BlockMap.{set_addr}

-- The in-core block `db` with `dbc` entries, and the blocks `ib` with `ibc` numbers.
pub record DirBuf : Type 0 where
  pub dbc : ℕ
  pub db : Buf
  pub ibc : ℕ
  pub ib : ℕ → ℕ

abbrev pub empty_dir : DirBuf
empty_dir = record { dbc = 0; db = λ i. 0; ibc = 0; ib = λ i. 0 }

abbrev pub no_inode : Inode
no_inode = record {
  number = 0;
  mode = 0;
  nlink = 0;
  uid = 0;
  gid = 0;
  size = 0;
  atime = 0;
  mtime = 0;
  ctime = 0;
  addr = λ k. 0;
}

-- The bytes of a name, with NUL behind its end.
abbrev pub name_byte : List ℕ → ℕ → ℕ
name_byte [] i = 0
name_byte (c ∷ cs) zero = c % 256
name_byte (c ∷ cs) (suc i) = name_byte cs i

-- One directory entry: the number, then the first 14 bytes of the name, padded with NUL.
unfoldable pub put_dirent : Endian → Buf → ℕ → ℕ → List ℕ → Buf
put_dirent e db o inum name j =
    if leb (o + 2) j && ltb j (o + direntsz)
    then name_byte name (j - (o + 2))
    else put16 e db o inum j

unfoldable pub newblk : DirBuf → Op DirBuf
newblk b fs =
    (do
      bno ← alloc
      do_op (wtblk bno b.db)
      do_op (λ s. if leb fs.prof.nindir (b.ibc + 1) then fail indirect_full s else s)
      pure (record {
        dbc = 0;
        db = zeros;
        ibc = if leb fs.prof.nindir (b.ibc + 1) then 0 else b.ibc + 1;
        ib = λ i. if i == b.ibc then bno else b.ib i;
      }))
      fs

unfoldable pub entry : ℕ → List ℕ → DirBuf → Op DirBuf
entry inum name b fs =
    let b' : DirBuf = record b {
      dbc = b.dbc + 1;
      db = put_dirent fs.bo b.db (b.dbc * direntsz) inum name;
    } in
    (if leb fs.prof.ndirect b'.dbc then newblk b' else pure b') fs

-- `for (i = 0; i < n; i++) s5fs_newblk(…)`
unfoldable pub newblks : ℕ → DirBuf → Op DirBuf
newblks zero b = pure b
newblks (suc n) b = do b' ← newblk b; newblks n b'

-- What the loop that moves `ib` down by `laddr` leaves in it.
unfoldable pub indirect_rest : ℕ → ℕ → (ℕ → ℕ) → ℕ → ℕ
indirect_rest nindir laddr ib j = if ltb j (nindir - laddr) then ib (j + laddr) else 0

-- The block numbers of a directory or a regular file: the direct slots, then one indirect block.
unfoldable pub map_small : Inode → ℕ → (ℕ → ℕ) → Op Inode
map_small i ibc ib fs =
    let laddr : ℕ = fs.prof.laddr in
    let direct : Inode = record i {
      addr = λ k. if ltb k ibc && ltb k laddr then ib k else i.addr k;
    } in
    (if ltb ibc laddr then pure direct else (do
      bno ← alloc
      do_op (
          wtblk bno
            (put_longs fs.bo zeros 0 (indirect_rest fs.prof.nindir laddr ib) fs.prof.nindir))
      pure (set_addr direct laddr bno)))
      fs

-- A mode that is no file type is an error; the inode is not written then.
unfoldable pub iput : Inode → ℕ → (ℕ → ℕ) → Op (Unit {0})
iput i ibc ib fs =
    let fs1 : S5Fs = record fs { s_tinode = u32 (fs.s_tinode + 0xffffffff) } in
    let d : ℕ = itod fs1.prof.inopb i.number in
    let (buf, fs2) = rdblk d fs1.uninit fs1 in
    let store : Inode → Op (Unit {0}) = λ j. do_op (
      wtblk d (
        splice buf (slot fs i.number) dinodesz (
          put_fields fs.bo (window buf (slot fs i.number))
            (inode_fields fs.prof.naddr fs.s_time j)))) in
    (if leb fs1.s_isize d
        then (λ s. some (tt, fail ilist_small fs1))
        else if ifmt i.mode == ifdir || ifmt i.mode == ifreg
        then (do j ← map_small i ibc ib; store j)
        else if ifmt i.mode == ifblk || ifmt i.mode == ifchr
        then store i
        else do_op (fail bad_mode))
      fs2
