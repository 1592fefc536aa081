-- ===== src/Examples/Tree.antt =====
-- A small volume with a directory and a file, and the theorems of the other modules at it.
use s5fs.Base.{
  ◌%◌, ◌≤◌, ℕ, ◌+◌, ◌*◌, ◌^◌, ◌<◌, ◌≡◌, refl, Bool, true, none, some, List, [], ◌∷◌, ◌++◌, arith,
  ◌==◌, if◌then◌else◌, ◌⊎◌,
}
use s5fs.Layout.{bsize_ok, level_cap, profile, ifmt, perm_bits, ifdir, rootino}
use s5fs.Endian.{Buf, pdp11, get16, get24, get32}
use s5fs.Image.{read_at}
use s5fs.Writer.{itod, itoo, zeros, window, S5Fs, rdblk}
use s5fs.FreeList.Examples.{vol, vol-IsVolume}
use s5fs.Rw.Ancestry.{rename-subtree, here}
use s5fs.Rw.Dir.{
  find_slot, name_ok, einval, enotempty, done, ialloc_scan, ialloc_blocks, scan_block,
}
use s5fs.Rw.Ops.{Rw, rw_namei, parent_of, split_last, rw_iget, rename, rmdir}
use s5fs.Rw.Attr.{chmod}
use s5fs.Inode.{Inode, iget, bread, decode_inode, bumplink}
use s5fs.Rw.Slots.{Finds, find_slot-Finds}
use s5fs.Rw.Empty.{rmdir-occupied}
use s5fs.Inode.Bytes.{iget-bumplink}
use s5fs.Rw.Ialloc.{NoneFree, ialloc_scan-iget}
use s5fs.Rw.Chmod.{chmod-iget}
use s5fs.Inode.RoundTrip.{IsInode, reader_of}
use s5fs.Reader.{namei, namei_from, tokens, readdir, look, dir_blocks, dirents, same_name, c_string}
use s5fs.BlockMap.{bmap, lbn_route, descend, ind_index, per_entry}
use mathlib.Core.List.{tail}

abbrev byte_of : List (ℕ × ℕ) → ℕ → ℕ
byte_of [] j = 0
byte_of ((k, v) ∷ rest) j = if j == k then v else byte_of rest j

-- Inodes 2, 3 and 4: the root, the directory "/d" and the file "/d/f". The directories stand in
-- blocks 20 and 21.
abbrev inode_bytes : List (ℕ × ℕ)
inode_bytes =
    (1088, 0xed)
    ∷ (1089, 0x41)
    ∷ (1090, 3)
    ∷ (1098, 48)
    ∷ (1101, 20)
    ∷ (1152, 0xed)
    ∷ (1153, 0x41)
    ∷ (1154, 2)
    ∷ (1162, 48)
    ∷ (1165, 21)
    ∷ (1216, 0xa4)
    ∷ (1217, 0x81)
    ∷ (1218, 1)
    ∷ []

abbrev dir_bytes : List (ℕ × ℕ)
dir_bytes =
    (10240, 2)
    ∷ (10242, b'.')
    ∷ (10256, 2)
    ∷ (10258, b'.')
    ∷ (10259, b'.')
    ∷ (10272, 3)
    ∷ (10274, b'd')
    ∷ (10752, 3)
    ∷ (10754, b'.')
    ∷ (10768, 2)
    ∷ (10770, b'.')
    ∷ (10771, b'.')
    ∷ (10784, 4)
    ∷ (10786, b'f')
    ∷ []

abbrev tree : S5Fs
tree = record vol { fd = record { size = 64 * 512; byte = byte_of (inode_bytes ++ dir_bytes) } }

abbrev handle : Bool → Rw
handle w = record { r = reader_of tree; writable = w }

abbrev dir_path : List ℕ
dir_path = b'/' ∷ b'd' ∷ []

abbrev file_path : List ℕ
file_path = b'/' ∷ b'd' ∷ b'/' ∷ b'f' ∷ []

finds_dir : rw_namei (handle true) dir_path tree ≡ 3
unfolding rw_namei namei namei_from iget readdir tokens bread read_at decode_inode get16 look
    dir_blocks get32 bmap lbn_route descend get24 dirents same_name c_string ind_index per_entry
    level_cap itod itoo window
finds_dir = refl

finds_file : rw_namei (handle true) file_path tree ≡ 4
unfolding rw_namei namei namei_from iget readdir tokens bread read_at decode_inode get16 look
    dir_blocks get32 bmap lbn_route descend get24 dirents same_name c_string ind_index per_entry
    level_cap itod itoo window
finds_file = refl

abbrev inode_of : ℕ → Inode
inode_of n = elim (iget (reader_of tree) tree.fd tree.uninit n) [
  | none ↦ decode_inode pdp11 0 zeros
  | some i ↦ i
]

gets_dir : rw_iget (handle true) 3 tree ≡ some (inode_of 3)
unfolding rw_namei namei namei_from iget readdir tokens bread read_at decode_inode get16 look
    dir_blocks get32 bmap lbn_route descend get24 dirents same_name c_string ind_index per_entry
    level_cap itod itoo window
gets_dir = refl

is_dir : ifmt (inode_of 3).mode ≡ ifdir
unfolding rw_namei namei namei_from iget readdir tokens bread read_at decode_inode get16 look
    dir_blocks get32 bmap lbn_route descend get24 dirents same_name c_string ind_index per_entry
    level_cap itod itoo window
is_dir = refl

gets_file : rw_iget (handle true) 4 tree ≡ some (inode_of 4)
unfolding rw_namei namei namei_from iget readdir tokens bread read_at decode_inode get16 look
    dir_blocks get32 bmap lbn_route descend get24 dirents same_name c_string ind_index per_entry
    level_cap itod itoo window
gets_file = refl

small_mode : (inode_of 4).mode < 2 ^ 16
unfolding rw_namei namei namei_from iget readdir tokens bread read_at decode_inode get16 look
    dir_blocks get32 bmap lbn_route descend get24 dirents same_name c_string ind_index per_entry
    level_cap itod itoo window
small_mode = omega arith

-- "/d/x"
abbrev inner_path : List ℕ
inner_path = dir_path ++ (b'/' ∷ b'x' ∷ [])

parent_dir : parent_of (handle true) dir_path tree ≡ (2, b'd' ∷ [])
unfolding parent_of split_last rw_namei namei namei_from iget readdir tokens bread read_at
    decode_inode get16 look dir_blocks get32 bmap lbn_route descend get24 dirents same_name c_string
    ind_index per_entry level_cap itod itoo window
parent_dir = refl

parent_inner : parent_of (handle true) inner_path tree ≡ (3, b'x' ∷ [])
unfolding parent_of split_last rw_namei namei namei_from iget readdir tokens bread read_at
    decode_inode get16 look dir_blocks get32 bmap lbn_route descend get24 dirents same_name c_string
    ind_index per_entry level_cap itod itoo window
parent_inner = refl

rename-subtree_example : rename (handle true) dir_path inner_path tree ≡ some (einval, tree)
unfolding name_ok
rename-subtree_example =
    rename-subtree (handle true) dir_path inner_path tree (inode_of 3) refl (rw finds_dir gets_dir)
      is_dir (rw parent_dir (omega arith)) (rw finds_dir (omega arith))
      (rw parent_inner (omega arith)) (rw parent_inner refl) (rw (finds_dir, parent_inner) here)

-- A name of 15 bytes in the root.
abbrev long_path : List ℕ
long_path =
    b'/' ∷ b'a' ∷ b'b' ∷ b'c' ∷ b'd' ∷ b'e' ∷ b'f' ∷ b'g' ∷ b'h' ∷ b'i' ∷ b'j' ∷ b'k' ∷ b'l' ∷ b'm'
    ∷ b'n' ∷ b'o' ∷ []

parent_long : parent_of (handle true) long_path tree ≡ (2, tail long_path)
unfolding parent_of split_last rw_namei namei namei_from tokens
parent_long = refl

dir_entries :
    readdir (reader_of tree) tree.fd tree.uninit (inode_of 3)
    ≡ some ((3, b'.' ∷ []) ∷ (2, b'.' ∷ b'.' ∷ []) ∷ (4, b'f' ∷ []) ∷ [])
unfolding iget readdir bread read_at decode_inode get16 dir_blocks get32 bmap lbn_route descend
    get24 dirents c_string ind_index per_entry level_cap itod itoo window
dir_entries = refl

rmdir-occupied_example : rmdir (handle true) dir_path tree ≡ some (enotempty, tree)
rmdir-occupied_example =
    rmdir-occupied (handle true) dir_path tree (inode_of 3)
      ((3, b'.' ∷ []) ∷ (2, b'.' ∷ b'.' ∷ []) ∷ (4, b'f' ∷ []) ∷ []) refl
      (rw parent_dir (omega arith)) (rw finds_dir (omega arith)) (rw finds_dir gets_dir) is_dir
      dir_entries (λ all. ground (arith, all.1.1.0))

tree-IsInode : (n : ℕ) → 0 < n → n < 9 → IsInode tree n
unfolding itod profile bsize_ok
tree-IsInode n pos small = record {
  mounted = vol-IsVolume.mounted;
  profile = record { size = refl; derived = refl };
  positive = pos;
  short = omega arith;
  listed = omega arith;
  data_after = omega arith;
}

chmod-iget_example :
    (fs' : S5Fs) × (o : Inode) × (chmod (handle true) file_path 0o600 tree ≡ some (done, fs'))
    × (iget (reader_of tree) fs'.fd zeros (rw_namei (handle true) file_path tree) ≡ some o)
    × (o.mode ≡ ifmt (inode_of 4).mode + perm_bits 0o600)
    × (o.nlink ≡ (inode_of 4).nlink)
    × (o.uid ≡ (inode_of 4).uid)
    × (o.gid ≡ (inode_of 4).gid)
    × (o.size ≡ (inode_of 4).size)
chmod-iget_example =
    chmod-iget (handle true) file_path 0o600 tree zeros (inode_of 4) refl
      (rw finds_file (tree-IsInode 4 (omega arith) (omega arith))) small_mode
      (rw finds_file gets_file)

ialloc_scan-iget_example :
    ((ialloc_scan tree).1 ≡ tree)
    × (((ialloc_scan tree).0 ≡ 0) × NoneFree tree zeros
        ⊎ ((i : Inode) × (rootino ≤ (ialloc_scan tree).0)
            × (iget (reader_of tree) tree.fd zeros (ialloc_scan tree).0 ≡ some i)
            × (i.mode ≡ 0)))
unfolding profile bsize_ok
ialloc_scan-iget_example =
    ialloc_scan-iget tree zeros vol-IsVolume.mounted (record { size = refl; derived = refl })
      (omega arith) (omega arith)

-- It finds the number 5 there.
scan_five : (ialloc_scan tree).0 ≡ 5
unfolding ialloc_scan ialloc_blocks scan_block rdblk read_at get16
scan_five = refl

iget-bumplink_example :
    (i o : Inode) × (iget (reader_of tree) tree.fd tree.uninit 4 ≡ some i)
    × (iget (reader_of tree) (bumplink 4 tree).fd zeros 4 ≡ some o)
    × (o.nlink ≡ (i.nlink + 1) % 2 ^ 16)
    × (o.mode ≡ i.mode)
    × (o.uid ≡ i.uid)
    × (o.gid ≡ i.gid)
    × (o.size ≡ i.size)
iget-bumplink_example = iget-bumplink tree 4 zeros (tree-IsInode 4 (omega arith) (omega arith))

-- The first free slot of the block of "/d" inside its 48 bytes, of which there is none.
abbrev free_slot : Buf → ℕ → Bool
free_slot db o = get16 pdp11 db o == 0

find_slot-Finds_example :
    Finds free_slot 48 0
      (λ i. tree.fd.byte (10752 + i))
      0
      32
      (find_slot free_slot 48 0 (λ i. tree.fd.byte (10752 + i)) 32 0)
find_slot-Finds_example =
    find_slot-Finds free_slot 48 0 (λ i. tree.fd.byte (10752 + i)) 32 0 (omega arith)
