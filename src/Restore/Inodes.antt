-- ===== src/Restore/Inodes.antt =====
-- The records of one inode: dump_dinode of cmd_dump.c writes them, pass 1 of cmd_restore.c passes
-- over them.
use s5fs.Base.{
  ℕ, ◌+◌, ◌-◌, ◌*◌, ◌^◌, ◌≤◌, ◌<◌, ◌≡◌, refl, sym, ap, ◌∙◌, Bool, true, false, List, [], ◌∷◌, arith,
  ◌==◌, length, min, ap₂,
}
use s5fs.Layout.{u16, Profile, di_mode, di_size, di_addr}
use s5fs.Endian.{Buf, pdp11, get16, get24, get32}
use s5fs.Image.{File}
use s5fs.Dump.Record.{ts_inode, ts_addr, c_inum, c_addr, Dump}
use s5fs.Dump.Inodes.{put_blocks, map_header, is_data}
use s5fs.Restore.Tape.{Dr, head, gethead, htype}
use s5fs.Restore.Blocks.{ahead, ended, then_run, read_blocks}
use s5fs.Restore.Run.{blocks_in, d_field, nblk_of, skip_blocks, pass_over}
use s5fs.Dump.Flat.{Keeps, Keeps-trans, put_blocks-Keeps, map_header-Keeps}
use s5fs.Restore.Flags.{skipping, Tight}
use s5fs.Restore.Headers.{IsFlat, Keeps-IsFlat, On, On-Keeps, at, gethead-map_header}
use s5fs.Dump.Leaves.{Volume, put_leaf, put_leaves, put_leaf-Keeps, put_leaves-Keeps, slot_leaves}
use s5fs.Restore.Follow.{TightLeaves, follow_leaves}

-- The number of blocks that cmd_restore takes from the size of an inode.
abbrev pub size_blocks : ℕ → Buf → ℕ
size_blocks rec dino = blocks_in rec (get32 pdp11 dino di_size)

abbrev pub numbers : Buf → ℕ → ℕ
numbers dino i = get24 pdp11 dino (di_addr + 3 * i)

-- The leaves of an inode's indirect slots.
abbrev pub inode_leaves : Volume → Buf → List (ℕ → ℕ)
inode_leaves v dino =
    let p : Profile = v.0.prof in
    slot_leaves (p.naddr - p.laddr) 0 v (λ k. numbers dino (p.laddr + k))

-- No block of the inode stands behind its end, counted the way that the flags on the tape are.
abbrev pub TightInode : ℕ → Volume → Buf → Type 0
TightInode rec v dino =
    is_data (get16 pdp11 dino di_mode) ≡ true
    → Tight (size_blocks rec dino) 0 (numbers dino) v.0.prof.laddr 0
      × TightLeaves (size_blocks rec dino) v.0.prof.nindir
          (min (0 + v.0.prof.laddr) (size_blocks rec dino)) (inode_leaves v dino)

-- Each leaf takes a record.
length-put_leaves :
    (rec : ℕ) (ino : ℕ) (fs : List (ℕ → ℕ)) (d : Dump)
    → 0 < rec
    → IsFlat rec d
    → d.file.size + length fs ≤ (put_leaves ino fs d).file.size
unfolding put_leaves put_leaf
length-put_leaves rec ino [] d h flat = omega arith
length-put_leaves rec ino (f ∷ fs) d h flat =
    let m : ℕ = d.r.prof.nindir in
    let e : Dump = map_header ts_addr m f ino d in
    let (k, size) = map_header-Keeps ts_addr m f ino d flat.0 in
    let (k', size') = put_blocks-Keeps m 0 f d.uninit e k.flat in
    let flat' : IsFlat rec (put_leaf ino f d) =
      Keeps-IsFlat rec d (put_leaf ino f d) (put_leaf-Keeps ino f d flat.0) flat in
    omega (arith, size, flat.2, k'.longer, length-put_leaves rec ino fs (put_leaf ino f d) h flat')

module _ (tape : File) (rec nindir : ℕ) (force : Bool) (bad : ℕ) (small : rec < 2 ^ 16)
    (fits : c_addr + nindir ≤ rec) where
  abbrev spot : ℕ → Dr
  spot = at tape rec force bad

  -- read_blocks passes over an inode, whatever the fuel above the records it has.
  pub pass_over-header :
      (n : ℕ) (f : ℕ → ℕ) (fs : List (ℕ → ℕ)) (ino : ℕ) (dino db : Buf) (d : Dump) (h : Buf)
      (fuel : ℕ)
      → IsFlat rec d
      → d.r.prof.nindir ≡ nindir
      → get32 pdp11 d.spcl (d_field di_size) ≡ get32 pdp11 dino di_size
      → c_addr + n ≤ rec
      → Tight (size_blocks rec dino) 0 f n 0
      → TightLeaves (size_blocks rec dino) nindir (min (0 + n) (size_blocks rec dino)) fs
      → (let e : Dump = map_header ts_inode n f ino d in
          let end : Dump = put_leaves ino fs (put_blocks n 0 f (db, e)).1 in
          On tape end
          → gethead (spot end.file.size) ≡ head h (spot (end.file.size + rec))
          → (htype h == ts_addr) ≡ false
          → tape.size < d.file.size + fuel
          → (b : Buf) × (gethead (spot d.file.size) ≡ head b (spot (d.file.size + rec)))
            × (htype b ≡ ts_inode)
            × (get16 pdp11 b c_inum ≡ u16 ino)
            × (pass_over fuel b (spot (d.file.size + rec))
                ≡ ended (head h (spot (end.file.size + rec)))))
  unfolding pass_over then_run
  pass_over-header n f fs ino dino db d h fuel flat wide size room tight all on next other l =
      let e : Dump = map_header ts_inode n f ino d in
      let (k, e_size) = map_header-Keeps ts_inode n f ino d flat.0 in
      let e_flat : IsFlat rec e = Keeps-IsFlat rec d e k flat in
      let e_wide : e.r.prof.nindir ≡ nindir = ap (λ r. r.prof.nindir) k.same_r ∙ wide in
      let d1 : Dump = (put_blocks n 0 f (db, e)).1 in
      let (k1, _) = put_blocks-Keeps n 0 f db e k.flat in
      let d1_flat : IsFlat rec d1 = Keeps-IsFlat rec e d1 k1 e_flat in
      let end : Dump = put_leaves ino fs d1 in
      let k2 : Keeps d1 end = put_leaves-Keeps ino fs d1 k1.flat in
      let on_e : On tape e = On-Keeps tape e end (Keeps-trans e d1 end k1 k2) on in
      let (b, found, is) =
        gethead-map_header tape rec force bad ts_inode n f ino d flat (omega arith) room small
          on_e in
      let nblk : nblk_of rec b ≡ size_blocks rec dino = ap (blocks_in rec) (is.size ∙ size) in
      let start : e.file.size ≡ d.file.size + rec = e_size ∙ ap (λ r. d.file.size + r) flat.2 in
      let many : d1.file.size + length fs ≤ end.file.size =
        length-put_leaves rec ino fs d1 (omega arith) d1_flat in
      let (c, reads) =
        follow_leaves tape rec nindir force bad small fits fs n f b db (size_blocks rec dino) 0 ino
          e h fuel (e_flat, e_wide) is.count is.flags room (omega arith) tight all on (next, other)
          (omega (arith, many, k1.longer, start, on.longer)) in
      let inode : (htype b == ts_inode) ≡ true = ground (arith, is.kind) in
      let skipped : skip_blocks fuel b (spot (d.file.size + rec))
          ≡ ended (ahead h (skipping (spot (end.file.size + rec)) c)) =
        ap₂ (λ m p. read_blocks fuel b m (skipping (spot p) 0)) nblk (sym start) ∙ reads in
      (b, found, is.kind, is.inum, rw (inode, pass_over) (rw (skipped, then_run) refl))
