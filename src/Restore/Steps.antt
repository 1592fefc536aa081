-- ===== src/Restore/Steps.antt =====
-- Pass 1 of cmd_restore.c over the headers that cmd_dump.c writes before the inodes and behind them.
use s5fs.Base.{
  ℕ, zero, suc, ◌+◌, ◌*◌, ◌^◌, ◌≤◌, ◌<◌, ◌≡◌, refl, sym, ap, subst, ◌∙◌, inl, inr, Bool, true,
  false, some, map, arith, ◌==◌, ap₂,
}
use s5fs.Layout.{bsize_ok, profile}
use s5fs.Endian.{Buf, Endian, pdp11, put16, get16, put32, get16_same}
use s5fs.Image.{File}
use s5fs.Writer.{zeros}
use s5fs.Dump.Record.{
  ts_tape, ts_inode, ts_end, c_type, c_date, c_ddate, c_volume, c_count, Dump, header, spclrec,
}
use s5fs.Restore.Tape.{Dr, head, gethead, htype, skip_records, skip_map}
use s5fs.Restore.Blocks.{Run, ended}
use s5fs.Restore.Run.{pass_over, max_inum, first_next, first_pass}
use s5fs.Dump.Run.{end_headers, map_blocks, put_map, write_map, tape_header, put_ends}
use s5fs.Dump.Flat.{Keeps, spclrec-Keeps}
use s5fs.Restore.Flags.{rec_read_lem}
use s5fs.Restore.Heads.{SameRecord}
use s5fs.Restore.Headers.{IsFlat, Keeps-IsFlat, On, On-Keeps, at, gethead-spclrec-On}
use s5fs.Dump.Leaves.{Volume}
use s5fs.Restore.Passes.{Keeps-Dumps, Dumps, pass_from, Passes1, pass_step}
use s5fs.Inode.Place.{bsize_cases}
use s5fs.Dump.Parts.{put_ends-Keeps, put_map-Keeps}

-- A map of the inodes has blocks enough for the count of a header.
pub few_blocks : (rec last : ℕ) → bsize_ok rec ≡ true → last < 2 ^ 16 → map_blocks rec last < 2 ^ 16
few_blocks rec last good small = elim (bsize_cases rec good) [
  | inl e ↦ rw e (omega arith)
  | inr (inl e) ↦ rw e (omega arith)
  | inr (inr e) ↦ rw e (omega arith)
]

one_more : (p n rec : ℕ) → p + suc n * rec ≡ p + rec + n * rec
one_more p n rec = grind arith

-- What a map's header says, and the first one.
map_fields :
    (rec typ n : ℕ)
    → typ < 2 ^ 16
    → n < 2 ^ 16
    → (let c : Buf = header pdp11 rec 0 (put16 pdp11 (put16 pdp11 zeros c_type typ) c_count n) in
        (htype c ≡ typ) × (get16 pdp11 c c_count ≡ n))
unfolding header get16 put16 zeros
map_fields rec typ n h k = (omega arith, omega arith)

abbrev first_spcl : Endian → ℕ → Buf
first_spcl o now =
    put16 o (put32 o (put32 o (put16 o zeros c_type ts_tape) c_date now) c_ddate 0) c_volume 1

tape_fields :
    (rec last now : ℕ)
    → (let c : Buf = header pdp11 rec last (first_spcl pdp11 now) in
        (htype c ≡ ts_tape) × (get16 pdp11 c c_count ≡ 0))
unfolding header get16 put16 put32 zeros
tape_fields rec last now = (refl, refl)

end_field :
    (rec last : ℕ) → htype (header pdp11 rec last (put16 pdp11 zeros c_type ts_end)) ≡ ts_end
unfolding header get16 put16 zeros
end_field rec last = refl

module _ (tape : File) (rec : ℕ) (force : Bool) (bad : ℕ) (v : Volume) (good : bsize_ok rec ≡ true)
    (geometry : v.0.prof ≡ profile rec) where
  abbrev pub here : ℕ → Dr
  here = at tape rec force bad

  abbrev pub from : ℕ → ℕ → ℕ → Run (ℕ × Dr)
  from = pass_from tape rec force bad v good geometry

  abbrev pub Comes : ℕ → ℕ → ℕ → ℕ → Type 0
  Comes = Passes1 tape rec force bad v good geometry

  abbrev pub OfVolume : Dump → Type 0
  OfVolume = Dumps tape rec force bad v good geometry

  at_least : 512 ≤ rec
  at_least = elim (bsize_cases rec good) [
    | inl e ↦ omega arith
    | inr (inl e) ↦ omega arith
    | inr (inr e) ↦ omega arith
  ]

  skip_records-here :
      (n p : ℕ) → p + n * rec ≤ tape.size → skip_records n (here p) ≡ some (here (p + n * rec))
  unfolding skip_records
  skip_records-here zero p h = ap (λ r. some (here r)) (omega arith)
  skip_records-here (suc n) p h =
      let (b, e) = rec_read_lem (here p) (omega (arith, one_more p n rec)) in
      rw (e, skip_records)
        (skip_records-here n (p + rec) (omega (arith, one_more p n rec))
          ∙ ap (λ r. some (here r)) (sym (one_more p n rec)))

  -- A header that is neither an inode's nor the end, with its map.
  pass_other :
      (fuel last p q : ℕ) (b : Buf)
      → gethead (here p) ≡ head b (here (p + rec))
      → (htype b == ts_inode) ≡ false
      → (htype b == ts_end) ≡ false
      → skip_map b (here (p + rec)) ≡ gethead (here q)
      → from (suc fuel) last p ≡ from fuel last q
  unfolding first_next pass_over
  pass_other fuel last p q b found no_inode no_end skipped =
      let passed : pass_over (suc fuel) b (here (p + rec)) ≡ ended (gethead (here q)) =
        rw (no_inode, pass_over) (ap ended skipped) in
      let same : max_inum b last ≡ last = ground (arith, no_inode) in
      ap (first_next (first_pass (suc fuel) last) last) found
      ∙ pass_step tape rec force bad v good geometry fuel last b (here (p + rec)) (gethead (here q))
          no_end passed
      ∙ ap (λ m. first_next (first_pass fuel m) m (gethead (here q))) same

  -- One turn before a place from which the end is reached.
  turn_before :
      (last p p' q m : ℕ)
      → ((fuel : ℕ) → from (suc fuel) last p ≡ from fuel last p')
      → p < p'
      → p ≤ tape.size
      → Comes last p' q m
      → Comes last p q m
  turn_before last p p' q m step lt fits rest zero l = absurd (omega arith)
  turn_before last p p' q m step lt fits rest (suc fuel) l = step fuel ∙ rest fuel (omega arith)

  skip_map-here :
      (b : Buf) (n p : ℕ)
      → get16 pdp11 b c_count ≡ n
      → p + n * rec ≤ tape.size
      → skip_map b (here p) ≡ gethead (here (p + n * rec))
  unfolding skip_map
  skip_map-here b n p count fits =
      let skipped : skip_records (get16 pdp11 b c_count) (here p) ≡ some (here (p + n * rec)) =
        ap (λ m. skip_records m (here p)) count ∙ skip_records-here n p fits in
      rw (skipped, skip_map) refl

  -- A step of pass 1 over what an operation has written.
  pub record StepsOver (d d' : Dump) : Type 0 where
    grows : d.file.size < d'.file.size
    step : (fuel last : ℕ) → from (suc fuel) last d.file.size ≡ from fuel last d'.file.size

  kinds_differ : (b : Buf) (typ m : ℕ) → htype b ≡ typ → (typ == m) ≡ false → (htype b == m) ≡ false
  kinds_differ b typ m e h = ap (λ t. t == m) e ∙ h

  pub write_map-StepsOver :
      (map : Buf) (last typ : ℕ) (d : Dump)
      → OfVolume d
      → typ < 2 ^ 16
      → (typ == ts_inode) ≡ false
      → (typ == ts_end) ≡ false
      → map_blocks rec last < 2 ^ 16
      → On tape (write_map map last typ d)
      → StepsOver d (write_map map last typ d)
  unfolding write_map
  write_map-StepsOver map last typ d dumps small no_inode no_end few on =
      let flat : IsFlat rec d = dumps.0 in
      let n : ℕ = map_blocks d.r.prof.bsize last in
      let n_eq : n ≡ map_blocks rec last = ap (λ r. map_blocks r last) flat.2 in
      let e : Dump = record d { spcl = put16 d.r.bo (put16 d.r.bo zeros c_type typ) c_count n } in
      let s : Dump = spclrec 0 e in
      let k : Keeps e s = spclrec-Keeps 0 e flat.0 in
      let (k2, size2) = put_map-Keeps n 0 map s k.flat in
      let end : Dump = put_map n 0 map s in
      let on_s : On tape s = On-Keeps tape s end k2 on in
      let s_flat : IsFlat rec s = Keeps-IsFlat rec e s k flat in
      let (b, found, same, size) =
        gethead-spclrec-On tape rec force bad 0 e flat (omega (arith, at_least)) on_s in
      let same' : SameRecord rec b
          (header pdp11 rec 0 (put16 pdp11 (put16 pdp11 zeros c_type typ) c_count n)) =
        subst
          (λ o.
            SameRecord rec b (header pdp11 rec 0 (put16 o (put16 o zeros c_type typ) c_count n)))
          flat.1 same in
      let says = map_fields rec typ n small (omega (arith, n_eq, few)) in
      let c : Buf = header pdp11 rec 0 (put16 pdp11 (put16 pdp11 zeros c_type typ) c_count n) in
      let kind : htype b ≡ typ =
        get16_same pdp11 b c c_type (λ j lo hi. same' j (omega (arith, at_least))) ∙ says.0 in
      let count : get16 pdp11 b c_count ≡ n =
        get16_same pdp11 b c c_count (λ j lo hi. same' j (omega (arith, at_least))) ∙ says.1 in
      let size' : end.file.size ≡ d.file.size + rec + n * rec =
        size2 ∙ ap₂ (λ x r. x + n * r) size s_flat.2 in
      record {
        grows = omega (arith, size, k2.longer, at_least);
        step = λ fuel m.
            pass_other fuel m d.file.size end.file.size b found
              (kinds_differ b typ ts_inode kind no_inode) (kinds_differ b typ ts_end kind no_end)
              (skip_map-here b n (d.file.size + rec) count (omega (arith, size', on.longer))
                ∙ ap (λ p. gethead (here p)) (sym size'));
      }

  pub tape_header-StepsOver :
      (now last : ℕ) (d : Dump)
      → OfVolume d
      → On tape (tape_header now last d)
      → StepsOver d (tape_header now last d)
  unfolding tape_header
  tape_header-StepsOver now last d dumps on =
      let flat : IsFlat rec d = dumps.0 in
      let e : Dump = record d { spcl = first_spcl d.r.bo now } in
      let s : Dump = spclrec last e in
      let k : Keeps e s = spclrec-Keeps last e flat.0 in
      let (b, found, same, size) =
        gethead-spclrec-On tape rec force bad last e flat (omega (arith, at_least)) on in
      let c : Buf = header pdp11 rec last (first_spcl pdp11 now) in
      let same' : SameRecord rec b c =
        subst (λ o. SameRecord rec b (header pdp11 rec last (first_spcl o now))) flat.1 same in
      let says = tape_fields rec last now in
      let kind : htype b ≡ ts_tape =
        get16_same pdp11 b c c_type (λ j lo hi. same' j (omega (arith, at_least))) ∙ says.0 in
      let count : get16 pdp11 b c_count ≡ 0 =
        get16_same pdp11 b c c_count (λ j lo hi. same' j (omega (arith, at_least))) ∙ says.1 in
      record {
        grows = omega (arith, size, at_least);
        step = λ fuel m.
            pass_other fuel m d.file.size s.file.size b found
              (kinds_differ b ts_tape ts_inode kind refl) (kinds_differ b ts_tape ts_end kind refl)
              (skip_map-here b 0 (d.file.size + rec) count (omega (arith, size, on.longer))
                ∙ ap (λ p. gethead (here p)) (omega (arith, size)));
      }

  -- The first of the last headers.
  pub end_head :
      (last : ℕ) (d : Dump)
      → OfVolume d
      → On tape (end_headers last d)
      → On tape d
        × (b : Buf) × (gethead (here d.file.size) ≡ head b (here (d.file.size + rec)))
        × (htype b ≡ ts_end)
  unfolding end_headers put_ends
  end_head last d dumps on =
      let flat : IsFlat rec d = dumps.0 in
      let e : Dump = record d { spcl = put16 d.r.bo zeros c_type ts_end } in
      let s : Dump = spclrec last e in
      let k : Keeps e s = spclrec-Keeps last e flat.0 in
      let k2 : Keeps s (put_ends 9 last s) = put_ends-Keeps 9 last s k.flat in
      let on_s : On tape s = On-Keeps tape s (put_ends 9 last s) k2 on in
      let on_e : On tape e = On-Keeps tape e s k on_s in
      let (b, found, same, size) =
        gethead-spclrec-On tape rec force bad last e flat (omega (arith, at_least)) on_s in
      let c : Buf = header pdp11 rec last (put16 pdp11 zeros c_type ts_end) in
      let same' : SameRecord rec b c =
        subst (λ o. SameRecord rec b (header pdp11 rec last (put16 o zeros c_type ts_end))) flat.1
          same in
      (
        record { longer = on_e.longer; bytes = on_e.bytes },
        b,
        found,
        get16_same pdp11 b c c_type (λ j lo hi. same' j (omega (arith, at_least)))
            ∙ end_field rec last,
      )

  pub StepsOver-Comes :
      (last q m : ℕ) (d d' : Dump)
      → StepsOver d d'
      → On tape d
      → Comes last d'.file.size q m
      → Comes last d.file.size q m
  StepsOver-Comes last q m d d' s on =
      turn_before last d.file.size d'.file.size q m (λ fuel. s.step fuel last) s.grows on.longer

  pub OfVolume-Keeps : (d d' : Dump) → OfVolume d → Keeps d d' → OfVolume d'
  OfVolume-Keeps = Keeps-Dumps tape rec force bad v good geometry
