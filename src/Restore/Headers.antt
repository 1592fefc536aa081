-- ===== src/Restore/Headers.antt =====
-- The headers of cmd_dump.c where cmd_restore.c finds them on a longer tape.
use s5fs.Base.{
  ℕ, ◌+◌, ◌-◌, ◌^◌, ◌≤◌, ◌<◌, ◌≡◌, refl, ap, subst, ◌∙◌, Bool, false, arith, ltb, if◌then◌else◌,
  ap₂,
}
use s5fs.Layout.{u16, di_size}
use s5fs.Endian.{Buf, Endian, pdp11, put16, get16, get32, get16_same, get32_same}
use s5fs.Image.{File, write_at, read_at_lem}
use s5fs.Writer.{zeros, splice}
use s5fs.Dump.Record.{c_type, c_inum, c_count, c_addr, Dump, header, spclrec}
use s5fs.Dump.Inodes.{put_flags, map_header}
use s5fs.Restore.Tape.{Dr, head, rec_read, gethead, htype}
use s5fs.Restore.Run.{d_field}
use s5fs.Dump.Flat.{Keeps}
use s5fs.Restore.Flags.{HasFlags}
use s5fs.Restore.Heads.{SameRecord, check_head-header, spclrec-file}

-- What a header with the flags of `n` numbers `f` says; `spcl` is the record it was made from.
pub record IsHeader (type n : ℕ) (f : ℕ → ℕ) (ino : ℕ) (spcl b : Buf) : Type 0 where
  pub kind : htype b ≡ type
  pub count : get16 pdp11 b c_count ≡ n
  pub flags : HasFlags b f n 0
  pub inum : get16 pdp11 b c_inum ≡ u16 ino
  pub size : get32 pdp11 b (d_field di_size) ≡ get32 pdp11 spcl (d_field di_size)

-- The record that map_header makes, before spclrec.
abbrev pub mapped : Endian → ℕ → ℕ → (ℕ → ℕ) → Buf → Buf
mapped e type n f spcl = put_flags (put16 e (put16 e spcl c_type type) c_count n) n f

header-IsHeader :
    (rec type n : ℕ) (f : ℕ → ℕ) (ino : ℕ) (spcl : Buf)
    → type < 2 ^ 16
    → n < 2 ^ 16
    → IsHeader type n f ino spcl (header pdp11 rec ino (mapped pdp11 type n f spcl))
unfolding header get16 put16 get32 splice
header-IsHeader rec type n f ino spcl ht hn = record {
  kind = omega arith;
  count = omega arith;
  flags = λ k lo hi. ground arith;
  inum = omega arith;
  size = refl;
}

IsHeader-SameRecord :
    (rec type n : ℕ) (f : ℕ → ℕ) (ino : ℕ) (spcl b c : Buf)
    → c_addr + n ≤ rec
    → SameRecord rec b c
    → IsHeader type n f ino spcl c
    → IsHeader type n f ino spcl b
IsHeader-SameRecord rec type n f ino spcl b c fits same h = record {
  kind = get16_same pdp11 b c c_type (λ j lo hi. same j (omega arith)) ∙ h.kind;
  count = get16_same pdp11 b c c_count (λ j lo hi. same j (omega arith)) ∙ h.count;
  flags = λ k lo hi. same (c_addr + k) (omega arith) ∙ h.flags k lo hi;
  inum = get16_same pdp11 b c c_inum (λ j lo hi. same j (omega arith)) ∙ h.inum;
  size = get32_same pdp11 b c (d_field di_size) (λ j lo hi. same j (omega arith)) ∙ h.size;
}

-- A tape without framing, in the byte order of the PDP-11.
abbrev pub IsFlat : ℕ → Dump → Type 0
IsFlat rec d = (d.tap ≡ false) × (d.r.bo ≡ pdp11) × (d.r.prof.bsize ≡ rec)

pub Keeps-IsFlat : (rec : ℕ) (d d' : Dump) → Keeps d d' → IsFlat rec d → IsFlat rec d'
Keeps-IsFlat rec d d' k h =
    (k.flat, ap (λ r. r.bo) k.same_r ∙ h.1, ap (λ r. r.prof.bsize) k.same_r ∙ h.2)

-- The file goes on with what `d` has written.
pub record On (tape : File) (d : Dump) : Type 0 where
  pub longer : d.file.size ≤ tape.size
  pub bytes : (j : ℕ) → j < d.file.size → tape.byte j ≡ d.file.byte j

pub On-Keeps : (tape : File) (d d' : Dump) → Keeps d d' → On tape d' → On tape d
On-Keeps tape d d' k o = record {
  longer = omega (arith, k.longer, o.longer);
  bytes = λ j l. o.bytes j (omega (arith, k.longer)) ∙ k.bytes j l;
}

append_size : (f : File) (n : ℕ) (b : Buf) → (write_at f f.size n b).size ≡ f.size + n
unfolding write_at
append_size f n b = omega arith

append_byte :
    (f : File) (n : ℕ) (b : Buf) (i : ℕ) → i < n → (write_at f f.size n b).byte (f.size + i) ≡ b i
unfolding write_at
append_byte f n b i l = let e : f.size + i - f.size ≡ i = omega arith in ground (arith, ap b e)

-- The tape at a position.
module _ (tape : File) (rec : ℕ) (force : Bool) (bad : ℕ) where
  abbrev pub at : ℕ → Dr
  at pos = record { file = tape; pos = pos; rec = rec; force = force; badsum = bad }

  gethead-at :
      (pos ino : ℕ) (spcl : Buf)
      → 22 ≤ rec
      → pos + rec ≤ tape.size
      → ((i : ℕ) → i < rec → tape.byte (pos + i) ≡ header pdp11 rec ino spcl i)
      → (b : Buf) × (gethead (at pos) ≡ head b (at (pos + rec)))
        × SameRecord rec b (header pdp11 rec ino spcl)
  unfolding gethead rec_read
  gethead-at pos ino spcl h fits same =
      let b : Buf = λ i. if ltb i rec then tape.byte (pos + i) else zeros i in
      let b_same : SameRecord rec b (header pdp11 rec ino spcl) = λ i l. ground (arith, same i l) in
      (
        b,
        rw (read_at_lem tape pos rec zeros fits, gethead)
            (check_head-header rec ino spcl b (at (pos + rec)) h refl b_same),
        b_same,
      )

  -- A header of spclrec, on a tape that goes on with it.
  pub gethead-spclrec-On :
      (ino : ℕ) (d : Dump)
      → IsFlat rec d
      → 22 ≤ rec
      → On tape (spclrec ino d)
      → (b : Buf) × (gethead (at d.file.size) ≡ head b (at (d.file.size + rec)))
        × SameRecord rec b (header pdp11 rec ino d.spcl)
        × ((spclrec ino d).file.size ≡ d.file.size + rec)
  gethead-spclrec-On ino d flat h on =
      let end : ℕ = d.file.size in
      let c : Buf = header pdp11 rec ino d.spcl in
      let wrote : (spclrec ino d).file ≡ write_at d.file end rec c =
        spclrec-file ino d flat.0
        ∙ ap₂ (λ o r. write_at d.file end r (header o r ino d.spcl)) flat.1 flat.2 in
      let size : (spclrec ino d).file.size ≡ end + rec =
        ap (λ g. g.size) wrote ∙ append_size d.file rec c in
      let same : (i : ℕ) → i < rec → tape.byte (end + i) ≡ c i = λ i l.
        on.bytes (end + i) (omega (arith, size))
        ∙ ap (λ g. g.byte (end + i)) wrote
        ∙ append_byte d.file rec c i l in
      let (b, found, b_same) = gethead-at end ino d.spcl h (omega (arith, size, on.longer)) same in
      (b, found, b_same, size)

  -- The header of map_header, on a tape that goes on with it.
  pub gethead-map_header :
      (type n : ℕ) (f : ℕ → ℕ) (ino : ℕ) (d : Dump)
      → IsFlat rec d
      → type < 2 ^ 16
      → c_addr + n ≤ rec
      → rec < 2 ^ 16
      → On tape (map_header type n f ino d)
      → (b : Buf) × (gethead (at d.file.size) ≡ head b (at (d.file.size + rec)))
        × IsHeader type n f ino d.spcl b
  unfolding map_header
  gethead-map_header type n f ino d flat ht fits small on =
      let e : Dump = record d { spcl = mapped d.r.bo type n f d.spcl } in
      let (b, found, same, size) = gethead-spclrec-On ino e flat (omega arith) on in
      let same' : SameRecord rec b (header pdp11 rec ino (mapped pdp11 type n f d.spcl)) =
        subst (λ o. SameRecord rec b (header pdp11 rec ino (mapped o type n f d.spcl))) flat.1
          same in
      (
        b,
        found,
        IsHeader-SameRecord rec type n f ino d.spcl b
            (header pdp11 rec ino (mapped pdp11 type n f d.spcl)) fits same'
            (header-IsHeader rec type n f ino d.spcl ht (omega arith)),
      )
