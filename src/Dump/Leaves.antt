-- ===== src/Dump/Leaves.antt =====
-- The indirect blocks that indir of cmd_dump.c comes to, in their order, each as the numbers in it.
use s5fs.Base.{
  ℕ, zero, suc, ◌+◌, ◌*◌, ◌≡◌, refl, sym, ap, ◌∙◌, inl, inr, false, none, some, List, [], ◌∷◌, ◌++◌,
  ◌==◌, if◌then◌else◌, Bool-cases,
}
use s5fs.Endian.{Buf, get32}
use s5fs.Image.{File}
use s5fs.Inode.{Fsr, bread}
use s5fs.Dump.Record.{ts_addr, Dump}
use s5fs.Dump.Inodes.{read_into, put_blocks, map_header, each_child, indir, indirects}
use s5fs.Dump.Flat.{Keeps, Keeps-refl, Keeps-trans, put_blocks-Keeps, map_header-Keeps}

-- What reading depends on.
abbrev pub Volume : Type 0
Volume = Fsr × File × Buf

abbrev pub volume_of : Dump → Volume
volume_of d = (d.r, d.image, d.uninit)

-- The entries of the indirect block `blk`.
unfoldable pub entries : Volume → ℕ → ℕ → ℕ
entries v blk j = get32 v.0.bo (elim (bread v.0 v.1 blk v.2) [ none ↦ v.2 | some b ↦ b ]) (4 * j)

unfoldable pub child_leaves : (ℕ → List (ℕ → ℕ)) → ℕ → ℕ → (ℕ → ℕ) → List (ℕ → ℕ)
child_leaves child zero j f = []
child_leaves child (suc n) j f =
    (if f j == 0 then [] else child (f j)) ++ child_leaves child n (j + 1) f

unfoldable pub leaves : ℕ → Volume → ℕ → List (ℕ → ℕ)
leaves zero v blk = entries v blk ∷ []
leaves (suc l) v blk = child_leaves (leaves l v) v.0.prof.nindir 0 (entries v blk)

-- One of them on the tape: its header and its blocks.
unfoldable pub put_leaf : ℕ → (ℕ → ℕ) → Dump → Dump
put_leaf ino f d =
    (put_blocks d.r.prof.nindir 0 f (d.uninit, map_header ts_addr d.r.prof.nindir f ino d)).1

unfoldable pub put_leaves : ℕ → List (ℕ → ℕ) → Dump → Dump
put_leaves ino [] d = d
put_leaves ino (f ∷ fs) d = put_leaves ino fs (put_leaf ino f d)

put_leaves-append :
    (ino : ℕ) (fs gs : List (ℕ → ℕ)) (d : Dump)
    → put_leaves ino (fs ++ gs) d ≡ put_leaves ino gs (put_leaves ino fs d)
unfolding put_leaves
put_leaves-append ino [] gs d = refl
put_leaves-append ino (f ∷ fs) gs d = put_leaves-append ino fs gs (put_leaf ino f d)

-- An operation on a tape without framing.
abbrev Puts : ℕ → (Dump → Dump) → (Volume → List (ℕ → ℕ)) → Type 0
Puts ino op fs = (d : Dump) → d.tap ≡ false → op d ≡ put_leaves ino (fs (volume_of d)) d

pub put_leaf-Keeps : (ino : ℕ) (f : ℕ → ℕ) (d : Dump) → d.tap ≡ false → Keeps d (put_leaf ino f d)
unfolding put_leaf
put_leaf-Keeps ino f d h =
    let e : Dump = map_header ts_addr d.r.prof.nindir f ino d in
    let (k, size) = map_header-Keeps ts_addr d.r.prof.nindir f ino d h in
    let (k', size') = put_blocks-Keeps d.r.prof.nindir 0 f d.uninit e k.flat in
    Keeps-trans d e (put_blocks d.r.prof.nindir 0 f (d.uninit, e)).1 k k'

pub put_leaves-Keeps :
    (ino : ℕ) (fs : List (ℕ → ℕ)) (d : Dump) → d.tap ≡ false → Keeps d (put_leaves ino fs d)
unfolding put_leaves
put_leaves-Keeps ino [] d h = Keeps-refl d h
put_leaves-Keeps ino (f ∷ fs) d h =
    let k : Keeps d (put_leaf ino f d) = put_leaf-Keeps ino f d h in
    Keeps-trans d (put_leaf ino f d) (put_leaves ino fs (put_leaf ino f d)) k
      (put_leaves-Keeps ino fs (put_leaf ino f d) k.flat)

pub same_volume : (d d' : Dump) → Keeps d d' → volume_of d' ≡ volume_of d
same_volume d d' k = cc (k.same_r, k.same_image, k.same_uninit)

each_child-Puts :
    (ino : ℕ) (op : ℕ → Dump → Dump) (child : Volume → ℕ → List (ℕ → ℕ))
    → ((blk : ℕ) → Puts ino (op blk) (λ v. child v blk))
    → (n j : ℕ) (f : ℕ → ℕ) (v : Volume) (d : Dump) → d.tap ≡ false
    → volume_of d ≡ v
    → each_child op n j f d ≡ put_leaves ino (child_leaves (child v) n j f) d
unfolding each_child child_leaves put_leaves
each_child-Puts ino op child puts zero j f v d h e = refl
each_child-Puts ino op child puts (suc n) j f v d h e = elim (Bool-cases (f j == 0)) [
  | inl z ↦ rw z (each_child-Puts ino op child puts n (j + 1) f v d h e)
  | inr z ↦
      let here : op (f j) d ≡ put_leaves ino (child v (f j)) d =
        puts (f j) d h ∙ ap (λ w. put_leaves ino (child w (f j)) d) e in
      let d' : Dump = put_leaves ino (child v (f j)) d in
      let k : Keeps d d' = put_leaves-Keeps ino (child v (f j)) d h in
      rw z (
        ap (each_child op n (j + 1) f) here
        ∙ each_child-Puts ino op child puts n (j + 1) f v d' k.flat (same_volume d d' k ∙ e)
        ∙ sym (put_leaves-append ino (child v (f j)) (child_leaves (child v) n (j + 1) f) d))
]

-- indir puts the leaves of the block on the tape.
pub indir-Puts : (l ino blk : ℕ) → Puts ino (indir l ino blk) (λ v. leaves l v blk)
unfolding indir leaves put_leaves put_leaf entries read_into
indir-Puts zero ino blk d h = refl
indir-Puts (suc l) ino blk d h =
    each_child-Puts ino (indir l ino) (λ v b. leaves l v b) (λ b. indir-Puts l ino b)
      d.r.prof.nindir 0 (entries (volume_of d) blk) (volume_of d) d h refl

-- The leaves of the indirect slots, from the level `level` on.
unfoldable pub slot_leaves : ℕ → ℕ → Volume → (ℕ → ℕ) → List (ℕ → ℕ)
slot_leaves zero level v slots = []
slot_leaves (suc n) level v slots =
    (if slots level == 0 then [] else leaves level v (slots level))
    ++ slot_leaves n (level + 1) v slots

pub indirects-slot_leaves :
    (n level ino : ℕ) (slots : ℕ → ℕ) (v : Volume) (d : Dump)
    → d.tap ≡ false
    → volume_of d ≡ v
    → indirects n level ino slots d ≡ put_leaves ino (slot_leaves n level v slots) d
unfolding indirects slot_leaves put_leaves
indirects-slot_leaves zero level ino slots v d h e = refl
indirects-slot_leaves (suc n) level ino slots v d h e = elim (Bool-cases (slots level == 0)) [
  | inl z ↦ rw z (indirects-slot_leaves n (level + 1) ino slots v d h e)
  | inr z ↦
      let fs : List (ℕ → ℕ) = leaves level v (slots level) in
      let here : indir level ino (slots level) d ≡ put_leaves ino fs d =
        indir-Puts level ino (slots level) d h
        ∙ ap (λ w. put_leaves ino (leaves level w (slots level)) d) e in
      let k : Keeps d (put_leaves ino fs d) = put_leaves-Keeps ino fs d h in
      rw z (
        ap (indirects n (level + 1) ino slots) here
        ∙ indirects-slot_leaves n (level + 1) ino slots v (put_leaves ino fs d) k.flat
            (same_volume d (put_leaves ino fs d) k ∙ e)
        ∙ sym (put_leaves-append ino fs (slot_leaves n (level + 1) v slots) d))
]
