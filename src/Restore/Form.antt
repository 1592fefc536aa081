-- ===== src/Restore/Form.antt =====
-- The records of an inode that cmd_dump.c has written, as one list of leaves.
use s5fs.Base.{
  ℕ, ◌+◌, ◌-◌, ◌≤◌, ◌≡◌, refl, sym, ap, subst, ◌∙◌, inl, inr, false, List, [], arith, if◌then◌else◌,
  Bool-cases, min,
}
use s5fs.Layout.{di_mode}
use s5fs.Endian.{Buf, Endian, pdp11, get16}
use s5fs.Dump.Record.{ts_inode, Dump}
use s5fs.Dump.Inodes.{
  put_blocks, map_header, indirects, slot_of, inode_header, is_data, dump_dinode,
}
use s5fs.Dump.Flat.{Keeps, Keeps-trans, put_blocks-Keeps, map_header-Keeps}
use s5fs.Restore.Flags.{Tight}
use s5fs.Restore.Headers.{IsFlat}
use s5fs.Dump.Leaves.{volume_of, same_volume, put_leaves, put_leaves-Keeps, indirects-slot_leaves}
use s5fs.Restore.Follow.{TightLeaves}
use s5fs.Restore.Inodes.{size_blocks, numbers, inode_leaves, TightInode}

-- The records of an inode: a header of `n` numbers, their blocks, and leaves.
pub record Form (rec : ℕ) (ino : ℕ) (dino buf : Buf) (d end : Dump) : Type 0 where
  pub n : ℕ
  pub f : ℕ → ℕ
  pub fs : List (ℕ → ℕ)
  pub same :
      end
      ≡ put_leaves ino fs
          (put_blocks n 0 f (buf, map_header ts_inode n f ino (inode_header dino d))).1
  pub room : n ≤ d.r.prof.laddr
  pub tight : Tight (size_blocks rec dino) 0 f n 0
  pub all :
      TightLeaves (size_blocks rec dino) d.r.prof.nindir (min (0 + n) (size_blocks rec dino)) fs

-- dump_dinode with the byte order `o` for its numbers.
abbrev dinode_in : Endian → ℕ → Buf → Buf → Dump → Dump
dinode_in o ino buf dino d =
    let f : ℕ → ℕ = slot_of o dino in
    let d1 : Dump = inode_header dino d in
    if is_data (get16 o dino di_mode)
    then indirects (d.r.prof.naddr - d.r.prof.laddr) 0 ino (λ k. f (d.r.prof.laddr + k))
        (put_blocks d.r.prof.laddr 0 f (buf, map_header ts_inode d.r.prof.laddr f ino d1)).1
    else map_header ts_inode 0 f ino d1

dump_dinode-in :
    (ino : ℕ) (buf dino : Buf) (d : Dump)
    → dump_dinode ino buf dino d ≡ dinode_in d.r.bo ino buf dino d
unfolding dump_dinode
dump_dinode-in ino buf dino d = refl

pub dump_dinode-Form :
    (rec ino : ℕ) (buf dino : Buf) (d : Dump)
    → IsFlat rec d
    → TightInode rec (volume_of d) dino
    → Form rec ino dino buf d (dump_dinode ino buf dino d)
unfolding inode_header put_leaves put_blocks
dump_dinode-Form rec ino buf dino d flat tight =
    let here : dump_dinode ino buf dino d ≡ dinode_in pdp11 ino buf dino d =
      dump_dinode-in ino buf dino d ∙ ap (λ o. dinode_in o ino buf dino d) flat.1 in
    elim (Bool-cases (is_data (get16 pdp11 dino di_mode))) [
      | inr other ↦ record {
        n = 0;
        f = slot_of pdp11 dino;
        fs = [];
        same = here ∙ rw other refl;
        room = omega arith;
        tight = λ k lo hi. absurd (omega arith);
        all = tt;
      }
      | inl kind ↦
          let l : ℕ = d.r.prof.laddr in
          let d1 : Dump = inode_header dino d in
          let e : Dump = map_header ts_inode l (numbers dino) ino d1 in
          let (k, _) = map_header-Keeps ts_inode l (numbers dino) ino d1 flat.0 in
          let d2 : Dump = (put_blocks l 0 (numbers dino) (buf, e)).1 in
          let (k2, _) = put_blocks-Keeps l 0 (numbers dino) buf e k.flat in
          let all : Keeps d1 d2 = Keeps-trans d1 e d2 k k2 in
          record {
            n = l;
            f = numbers dino;
            fs = inode_leaves (volume_of d) dino;
            same =
                here
                ∙ rw kind (
                    indirects-slot_leaves (d.r.prof.naddr - l) 0 ino (λ j. numbers dino (l + j))
                      (volume_of d) d2 all.flat (same_volume d1 d2 all));
            room = omega arith;
            tight = (tight kind).0;
            all = (tight kind).1;
          }
    ]

pub Form-Keeps :
    (rec ino : ℕ) (dino buf : Buf) (d end : Dump)
    → d.tap ≡ false
    → Form rec ino dino buf d end
    → Keeps d end
unfolding inode_header
Form-Keeps rec ino dino buf d end h form =
    let d1 : Dump = inode_header dino d in
    let e : Dump = map_header ts_inode form.n form.f ino d1 in
    let (k, _) = map_header-Keeps ts_inode form.n form.f ino d1 h in
    let d2 : Dump = (put_blocks form.n 0 form.f (buf, e)).1 in
    let (k2, _) = put_blocks-Keeps form.n 0 form.f buf e k.flat in
    let k3 : Keeps d2 (put_leaves ino form.fs d2) = put_leaves-Keeps ino form.fs d2 k2.flat in
    let all : Keeps d1 (put_leaves ino form.fs d2) =
      Keeps-trans d1 d2 (put_leaves ino form.fs d2) (Keeps-trans d1 e d2 k k2) k3 in
    subst (Keeps d) (sym form.same) (record {
      same_r = all.same_r;
      same_image = all.same_image;
      same_uninit = all.same_uninit;
      flat = all.flat;
      longer = all.longer;
      bytes = all.bytes;
    })

-- The header is longer than nothing.
pub Form-longer :
    (rec ino : ℕ) (dino buf : Buf) (d end : Dump)
    → IsFlat rec d
    → Form rec ino dino buf d end
    → d.file.size + rec ≤ end.file.size
unfolding inode_header
Form-longer rec ino dino buf d end flat form =
    let d1 : Dump = inode_header dino d in
    let e : Dump = map_header ts_inode form.n form.f ino d1 in
    let (k, size) = map_header-Keeps ts_inode form.n form.f ino d1 flat.0 in
    let d2 : Dump = (put_blocks form.n 0 form.f (buf, e)).1 in
    let (k2, _) = put_blocks-Keeps form.n 0 form.f buf e k.flat in
    let k3 : Keeps d2 (put_leaves ino form.fs d2) = put_leaves-Keeps ino form.fs d2 k2.flat in
    omega (arith, size, flat.2, k2.longer, k3.longer, ap (λ (x : Dump). x.file.size) form.same)
