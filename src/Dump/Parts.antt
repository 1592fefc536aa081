-- ===== src/Dump/Parts.antt =====
-- What the parts of a tape of cmd_dump.c leave of what is before them, where it has no framing.
use s5fs.Base.{ℕ, zero, suc, ◌+◌, ◌*◌, ◌≡◌, ap, ◌∙◌, false, map, arith, ap₂}
use s5fs.Endian.{Buf, put16, put32}
use s5fs.Writer.{zeros, window}
use s5fs.Dump.Record.{
  ts_tape, ts_end, ntrec, c_type, c_date, c_ddate, c_volume, c_count, Dump, taprec, spclrec,
}
use s5fs.Dump.Run.{map_blocks, put_map, write_map, tape_header, put_ends, end_headers}
use s5fs.Dump.Flat.{Keeps, Keeps-refl, Keeps-trans, size-taprec, taprec-Keeps, spclrec-Keeps}

pub put_ends-Keeps : (n last : ℕ) (d : Dump) → d.tap ≡ false → Keeps d (put_ends n last d)
unfolding put_ends
put_ends-Keeps zero last d h = Keeps-refl d h
put_ends-Keeps (suc n) last d h =
    let k : Keeps d (spclrec last d) = spclrec-Keeps last d h in
    Keeps-trans d (spclrec last d) (put_ends n last (spclrec last d)) k
      (put_ends-Keeps n last (spclrec last d) k.flat)

pub put_map-Keeps :
    (n i : ℕ) (map : Buf) (d : Dump)
    → d.tap ≡ false
    → Keeps d (put_map n i map d)
      × ((put_map n i map d).file.size ≡ d.file.size + n * d.r.prof.bsize)
unfolding put_map
put_map-Keeps zero i map d h = (Keeps-refl d h, omega arith)
put_map-Keeps (suc n) i map d h =
    let b : Buf = window map (i * d.r.prof.bsize) in
    let k : Keeps d (taprec b d) = taprec-Keeps b d h in
    let (k', e) = put_map-Keeps n (i + 1) map (taprec b d) k.flat in
    (
      Keeps-trans d (taprec b d) (put_map n (i + 1) map (taprec b d)) k k',
      e
          ∙ ap₂ (λ x r. x + n * r) (size-taprec b d h) (ap (λ r. r.prof.bsize) k.same_r)
          ∙ grind arith,
    )

-- A dump that differs in its header buffer only.
abbrev with_spcl : Buf → Dump → Dump
with_spcl b d = record d { spcl = b }

from_spcl : (b : Buf) (d d' : Dump) → Keeps (with_spcl b d) d' → Keeps d d'
from_spcl b d d' k = record {
  same_r = k.same_r;
  same_image = k.same_image;
  same_uninit = k.same_uninit;
  flat = k.flat;
  longer = k.longer;
  bytes = k.bytes;
}

pub write_map-Keeps :
    (map : Buf) (last typ : ℕ) (d : Dump) → d.tap ≡ false → Keeps d (write_map map last typ d)
unfolding write_map
write_map-Keeps map last typ d h =
    let n : ℕ = map_blocks d.r.prof.bsize last in
    let b : Buf = put16 d.r.bo (put16 d.r.bo zeros c_type typ) c_count n in
    let e : Dump = with_spcl b d in
    let k : Keeps e (spclrec 0 e) = spclrec-Keeps 0 e h in
    let (k2, _) = put_map-Keeps n 0 map (spclrec 0 e) k.flat in
    from_spcl b d (put_map n 0 map (spclrec 0 e))
      (Keeps-trans e (spclrec 0 e) (put_map n 0 map (spclrec 0 e)) k k2)

pub tape_header-Keeps : (now last : ℕ) (d : Dump) → d.tap ≡ false → Keeps d (tape_header now last d)
unfolding tape_header
tape_header-Keeps now last d h =
    let b : Buf = put32 d.r.bo (put16 d.r.bo zeros c_type ts_tape) c_date now in
    let b : Buf = put16 d.r.bo (put32 d.r.bo b c_ddate 0) c_volume 1 in
    from_spcl b d (spclrec last (with_spcl b d)) (spclrec-Keeps last (with_spcl b d) h)

pub end_headers-Keeps : (last : ℕ) (d : Dump) → d.tap ≡ false → Keeps d (end_headers last d)
unfolding end_headers
end_headers-Keeps last d h =
    let b : Buf = put16 d.r.bo zeros c_type ts_end in
    from_spcl b d (put_ends ntrec last (with_spcl b d))
      (put_ends-Keeps ntrec last (with_spcl b d) h)
