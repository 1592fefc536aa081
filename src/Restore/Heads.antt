-- ===== src/Restore/Heads.antt =====
-- gethead of cmd_restore.c on a header that spclrec of cmd_dump.c wrote, and on one that is damaged.
use s5fs.Base.{
  ℕ, zero, suc, ◌+◌, ◌-◌, ◌*◌, ◌/◌, ◌≤◌, ◌<◌, ◌≡◌, refl, ap, ◌∙◌, ◌≢◌, Bool, true, false, some,
  arith, ltb, if◌then◌else◌,
}
use s5fs.Layout.{u16}
use s5fs.Endian.{Buf, Endian, pdp11, put16, get16, get16_same}
use s5fs.Image.{File, read_at, write_at}
use s5fs.Writer.{zeros}
use s5fs.Dump.Record.{dmagic, c_magic, Dump, wput, taprec, word_sum, header, spclrec}
use s5fs.Dump.Checksum.{OneWord, word_sum-OneWord, word_sum-header}
use s5fs.Restore.Tape.{Dr, head, rec_read, hdr_cksum_ok, check_head, gethead}

-- Where the words of a record pass the check, a record in which one word, counted modulo 2 ^ 16,
-- has another value, and every other word the same, does not pass it.
pub hdr_cksum_ok-OneWord :
    (rec : ℕ) (b c : Buf) (k : ℕ)
    → k < rec / 2
    → hdr_cksum_ok rec b ≡ true
    → OneWord pdp11 b c k
    → u16 (get16 pdp11 b (2 * k)) ≢ u16 (get16 pdp11 c (2 * k))
    → hdr_cksum_ok rec c ≡ false
unfolding hdr_cksum_ok
hdr_cksum_ok-OneWord rec b c k l ok one ne =
    ground (arith, word_sum-OneWord pdp11 b c k (rec / 2) one)

hdr_cksum_ok-header :
    (rec ino : ℕ) (spcl : Buf) → 22 ≤ rec → hdr_cksum_ok rec (header pdp11 rec ino spcl) ≡ true
unfolding hdr_cksum_ok
hdr_cksum_ok-header rec ino spcl h = ground (arith, word_sum-header pdp11 rec ino spcl h)

magic-header : (rec ino : ℕ) (spcl : Buf) → get16 pdp11 (header pdp11 rec ino spcl) c_magic ≡ dmagic
unfolding header get16 put16
magic-header rec ino spcl = refl

word_sum_same :
    (e : Endian) (b c : Buf) (n : ℕ)
    → ((j : ℕ) → j < 2 * n → b j ≡ c j)
    → word_sum e b n ≡ word_sum e c n
unfolding word_sum
word_sum_same e b c zero h = refl
word_sum_same e b c (suc n) h =
    let w : get16 e b (2 * n) ≡ get16 e c (2 * n) =
      get16_same e b c (2 * n) (λ j lo hi. h j (omega arith)) in
    let r : word_sum e b n ≡ word_sum e c n = word_sum_same e b c n (λ j l. h j (omega arith)) in
    omega (arith, w, r)

-- The first `n` bytes agree.
abbrev pub SameRecord : ℕ → Buf → Buf → Type 0
SameRecord n b c = (j : ℕ) → j < n → b j ≡ c j

-- What is written behind the end of a file is read back from there.
read_at-append :
    (f : File) (n : ℕ) (b old : Buf)
    → (c : Buf) × (read_at (write_at f f.size n b) f.size n old ≡ some c) × SameRecord n c b
unfolding read_at write_at
read_at-append f n b old = (
  λ i. if ltb i n then (write_at f f.size n b).byte (f.size + i) else old i,
  ground arith,
  λ j l. let e : f.size + j - f.size ≡ j = omega arith in ground (arith, ap b e),
)

-- A tape at the place where `d` goes on.
abbrev pub tape_at : Dump → ℕ → ℕ → Bool → ℕ → Dr
tape_at d rec pos force n = record {
  file = d.file;
  pos = pos;
  rec = rec;
  force = force;
  badsum = n;
}

pub spclrec-file :
    (ino : ℕ) (d : Dump)
    → d.tap ≡ false
    → (spclrec ino d).file
      ≡ write_at d.file d.file.size d.r.prof.bsize (header d.r.bo d.r.prof.bsize ino d.spcl)
unfolding spclrec taprec wput
spclrec-file ino d h = ground (arith, h)

pub check_head-header :
    (rec ino : ℕ) (spcl b : Buf) (dr : Dr)
    → 22 ≤ rec
    → dr.rec ≡ rec
    → SameRecord rec b (header pdp11 rec ino spcl)
    → check_head b dr ≡ head b dr
unfolding check_head hdr_cksum_ok
check_head-header rec ino spcl b dr h e same =
    let c : Buf = header pdp11 rec ino spcl in
    let m : get16 pdp11 b c_magic ≡ dmagic =
      get16_same pdp11 b c c_magic (λ j lo hi. same j (omega arith)) ∙ magic-header rec ino spcl in
    let sum : word_sum pdp11 b (rec / 2) ≡ word_sum pdp11 c (rec / 2) =
      word_sum_same pdp11 b c (rec / 2) (λ j l. same j (omega arith)) in
    let sum' : word_sum pdp11 b (dr.rec / 2) ≡ word_sum pdp11 c (rec / 2) =
      ap (λ r. word_sum pdp11 b (r / 2)) e ∙ sum in
    ground (arith, m, sum', word_sum-header pdp11 rec ino spcl h)

-- In the byte order of the PDP-11, and with no framing, a header that spclrec writes is accepted by
-- gethead, with and without -f: no checksum is counted as bad, the record that is read holds the
-- bytes of the header, and the tape goes on behind it.
pub gethead-spclrec :
    (d : Dump) (ino : ℕ) (force : Bool) (n : ℕ)
    → d.r.bo ≡ pdp11
    → d.tap ≡ false
    → 22 ≤ d.r.prof.bsize
    → (b : Buf) × (gethead (tape_at (spclrec ino d) d.r.prof.bsize d.file.size force n)
        ≡ head b (tape_at (spclrec ino d) d.r.prof.bsize (d.file.size + d.r.prof.bsize) force n))
      × SameRecord d.r.prof.bsize b (header pdp11 d.r.prof.bsize ino d.spcl)
unfolding gethead rec_read
gethead-spclrec d ino force n e t h =
    let rec : ℕ = d.r.prof.bsize in
    let file : (spclrec ino d).file
        ≡ write_at d.file d.file.size rec (header pdp11 rec ino d.spcl) =
      spclrec-file ino d t
      ∙ ap (λ o. write_at d.file d.file.size rec (header o rec ino d.spcl)) e in
    let (b, found, same) = read_at-append d.file rec (header pdp11 rec ino d.spcl) zeros in
    let read : read_at (spclrec ino d).file d.file.size rec zeros ≡ some b =
      ap (λ f. read_at f d.file.size rec zeros) file ∙ found in
    (
      b,
      rw (read, gethead)
          (check_head-header rec ino d.spcl b
            (tape_at (spclrec ino d) rec (d.file.size + rec) force n) h refl same),
      same,
    )
