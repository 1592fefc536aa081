-- ===== src/Dump/Flat.antt =====
-- A tape without the framing of SIMH grows record by record: what the operations of cmd_dump.c leave
-- alone, and how long the tape is behind them.
use s5fs.Base.{
  ℕ, zero, suc, ◌+◌, ◌*◌, ◌≤◌, ◌<◌, ◌≡◌, refl, sym, ap, subst, ◌∙◌, inl, inr, false, arith, ◌==◌,
  if◌then◌else◌, Bool-cases,
}
use s5fs.Endian.{Buf, put16}
use s5fs.Image.{write_at}
use s5fs.Dump.Record.{c_type, c_count, Dump, wput, taprec, header, spclrec}
use s5fs.Dump.Inodes.{read_into, put_block, put_blocks, put_flags, map_header}

-- The volume is the same, and what was on the tape still is.
pub record Keeps (d d' : Dump) : Type 0 where
  pub same_r : d'.r ≡ d.r
  pub same_image : d'.image ≡ d.image
  pub same_uninit : d'.uninit ≡ d.uninit
  pub flat : d'.tap ≡ false
  pub longer : d.file.size ≤ d'.file.size
  pub bytes : (j : ℕ) → j < d.file.size → d'.file.byte j ≡ d.file.byte j

pub Keeps-refl : (d : Dump) → d.tap ≡ false → Keeps d d
Keeps-refl d h = record {
  same_r = refl;
  same_image = refl;
  same_uninit = refl;
  flat = h;
  longer = omega arith;
  bytes = λ j l. refl;
}

pub Keeps-trans : (a b c : Dump) → Keeps a b → Keeps b c → Keeps a c
Keeps-trans a b c h k = record {
  same_r = k.same_r ∙ h.same_r;
  same_image = k.same_image ∙ h.same_image;
  same_uninit = k.same_uninit ∙ h.same_uninit;
  flat = k.flat;
  longer = omega (arith, h.longer, k.longer);
  bytes = λ j l. k.bytes j (omega (arith, h.longer)) ∙ h.bytes j l;
}

-- What taprec leaves of a tape without framing.
abbrev written : Buf → Dump → Dump
written b d = record d {
  file = write_at d.file d.file.size d.r.prof.bsize b;
  ncount = d.ncount + 1;
}

taprec-written : (b : Buf) (d : Dump) → d.tap ≡ false → taprec b d ≡ written b d
unfolding taprec wput
taprec-written b d h = rw (h, taprec) refl

pub size-taprec :
    (b : Buf) (d : Dump) → d.tap ≡ false → (taprec b d).file.size ≡ d.file.size + d.r.prof.bsize
unfolding write_at
size-taprec b d h = rw (taprec-written b d h) (omega arith)

pub taprec-Keeps : (b : Buf) (d : Dump) → d.tap ≡ false → Keeps d (taprec b d)
unfolding write_at
taprec-Keeps b d h = subst (Keeps d) (sym (taprec-written b d h)) (record {
  same_r = refl;
  same_image = refl;
  same_uninit = refl;
  flat = h;
  longer = omega arith;
  bytes = λ j l. ground arith;
})

-- How many of the `n` block numbers from `j` on are no holes.
unfoldable pub present : (ℕ → ℕ) → ℕ → ℕ → ℕ
present f zero j = 0
present f (suc n) j = (if f j == 0 then 0 else 1) + present f n (j + 1)

put_block-Keeps :
    (bno : ℕ) (db : Buf) (d : Dump)
    → d.tap ≡ false
    → Keeps d (put_block bno (db, d)).1
      × ((put_block bno (db, d)).1.file.size
          ≡ d.file.size + (if bno == 0 then 0 else 1) * d.r.prof.bsize)
unfolding put_block
put_block-Keeps bno db d h = elim (Bool-cases (bno == 0)) [
  | inl z ↦ rw z (Keeps-refl d h, omega arith)
  | inr z ↦
      let b : Buf = read_into d bno db in rw z (taprec-Keeps b d h, size-taprec b d h ∙ omega arith)
]

two_parts : (x y z a b c c' : ℕ) → x ≡ y + a * c → z ≡ x + b * c' → c' ≡ c → z ≡ y + (a + b) * c
two_parts x y z a b c c' p q r = grind arith

-- A loop over block numbers writes those that are no holes.
pub put_blocks-Keeps :
    (n j : ℕ) (f : ℕ → ℕ) (db : Buf) (d : Dump)
    → d.tap ≡ false
    → Keeps d (put_blocks n j f (db, d)).1
      × ((put_blocks n j f (db, d)).1.file.size ≡ d.file.size + present f n j * d.r.prof.bsize)
unfolding put_blocks present
put_blocks-Keeps zero j f db d h = (Keeps-refl d h, omega arith)
put_blocks-Keeps (suc n) j f db d h =
    let s : Buf × Dump = put_block (f j) (db, d) in
    let (k, e) = put_block-Keeps (f j) db d h in
    let (k', e') = put_blocks-Keeps n (j + 1) f s.0 s.1 k.flat in
    let r : s.1.r.prof.bsize ≡ d.r.prof.bsize = ap (λ r. r.prof.bsize) k.same_r in
    (Keeps-trans d s.1 (put_blocks n (j + 1) f s).1 k k', two_parts _ _ _ _ _ _ _ e e' r)

pub spclrec-Keeps : (ino : ℕ) (d : Dump) → d.tap ≡ false → Keeps d (spclrec ino d)
unfolding spclrec
spclrec-Keeps ino d h =
    let b : Buf = header d.r.bo d.r.prof.bsize ino d.spcl in
    let k : Keeps (record d { spcl = b }) (taprec b (record d { spcl = b })) =
      taprec-Keeps b (record d { spcl = b }) h in
    record {
      same_r = k.same_r;
      same_image = k.same_image;
      same_uninit = k.same_uninit;
      flat = k.flat;
      longer = k.longer;
      bytes = k.bytes;
    }

-- A header is written behind the tape.
pub map_header-Keeps :
    (type n : ℕ) (f : ℕ → ℕ) (ino : ℕ) (d : Dump)
    → d.tap ≡ false
    → Keeps d (map_header type n f ino d)
      × ((map_header type n f ino d).file.size ≡ d.file.size + d.r.prof.bsize)
unfolding map_header spclrec
map_header-Keeps type n f ino d h =
    let e : Dump = record d {
      spcl = put_flags (put16 d.r.bo (put16 d.r.bo d.spcl c_type type) c_count n) n f;
    } in
    let k : Keeps e (spclrec ino e) = spclrec-Keeps ino e h in
    (
      record {
        same_r = k.same_r;
        same_image = k.same_image;
        same_uninit = k.same_uninit;
        flat = k.flat;
        longer = k.longer;
        bytes = k.bytes;
      },
      size-taprec _ _ h,
    )
