-- ===== src/Reader/Content.antt =====
-- What fsr_readfile reads is the file: byte by byte, through the file map.
use s5fs.Base.{
  ℕ, zero, suc, ◌+◌, ◌-◌, ◌*◌, ◌/◌, ◌%◌, ◌^◌, ◌≤◌, ◌<◌, ◌≡◌, refl, sym, ap, ◌∙◌, inl, inr, true,
  false, ◌||◌, some, arith, dec_lt, ltb, leb, ◌==◌, if◌then◌else◌, Bool-cases, min,
}
use s5fs.Layout.{u32, bsize_ok}
use s5fs.Endian.{Buf}
use s5fs.Image.{File, read_at_lem}
use s5fs.Writer.{window, splice}
use s5fs.BlockMap.{bmap}
use s5fs.Inode.{Inode, Fsr, bread}
use s5fs.Inode.Place.{bsize_cases}
use s5fs.Reader.Bytes.{read_loop, readfile}

-- The byte at a position of a file, by its map; a hole reads as 0.
abbrev pub file_byte : Fsr → File → Buf → (ℕ → ℕ) → ℕ → ℕ
file_byte r fd uninit addr p =
    let phys : ℕ = bmap r fd uninit addr (p / r.prof.bsize) in
    if phys == 0 then 0 else fd.byte (r.base + u32 phys * r.prof.bsize + p % r.prof.bsize)

-- Positions of one block.
pub same_block :
    (b p k : ℕ)
    → bsize_ok b ≡ true
    → p % b + k < b
    → ((p + k) / b ≡ p / b) × ((p + k) % b ≡ p % b + k)
same_block b p k good h = elim (bsize_cases b good) [
  | inl e ↦ let h' : p % 512 + k < 512 = rw e at h in rw e (omega arith, omega arith)
  | inr (inl e) ↦ let h' : p % 1024 + k < 1024 = rw e at h in rw e (omega arith, omega arith)
  | inr (inr e) ↦ let h' : p % 2048 + k < 2048 = rw e at h in rw e (omega arith, omega arith)
]

pub mod-less : (b p : ℕ) → bsize_ok b ≡ true → p % b < b
mod-less b p good = elim (bsize_cases b good) [
  | inl e ↦ rw e (omega arith)
  | inr (inl e) ↦ rw e (omega arith)
  | inr (inr e) ↦ rw e (omega arith)
]

quotient-le : (b p : ℕ) → bsize_ok b ≡ true → p / b ≤ p
quotient-le b p good = elim (bsize_cases b good) [
  | inl e ↦ rw e (omega arith)
  | inr (inl e) ↦ rw e (omega arith)
  | inr (inr e) ↦ rw e (omega arith)
]

-- Every block that the map names can be read.
abbrev pub AllReadable : Fsr → File → Buf → (ℕ → ℕ) → ℕ → Type 0
AllReadable r fd uninit addr end =
    (p : ℕ)
    → p < end
    → let phys : ℕ = bmap r fd uninit addr (p / r.prof.bsize) in
      r.base + u32 phys * r.prof.bsize + r.prof.bsize ≤ fd.size

-- The buffer holds the bytes of the file from `off + done` on, up to `size`, and is as before
-- elsewhere.
record Filled (r : Fsr) (fd : File) (uninit : Buf) (addr : ℕ → ℕ) (size off done : ℕ)
    (buf buf' : Buf) : Type 0 where
  read : (j : ℕ) → done ≤ j → j < size → buf' j ≡ file_byte r fd uninit addr (off + j)
  low : (j : ℕ) → j < done → buf' j ≡ buf j
  high : (j : ℕ) → size ≤ j → buf' j ≡ buf j

-- A round that writes the next `want` bytes of the file, and then the rest.
step-Filled :
    (r : Fsr) (fd : File) (uninit : Buf) (addr : ℕ → ℕ) (size off done want : ℕ)
    (buf buf' src : Buf)
    → done + want ≤ size
    → ((k : ℕ) → k < want → src k ≡ file_byte r fd uninit addr (off + done + k))
    → Filled r fd uninit addr size off (done + want) (splice buf done want src) buf'
    → Filled r fd uninit addr size off done buf buf'
unfolding splice
step-Filled r fd uninit addr size off done want buf buf' src fits same f = record {
  read = λ j lo hi. elim (dec_lt j (done + want)) [
    | no past ↦ f.read j (omega arith) hi
    | yes inside ↦
        let here : splice buf done want src j ≡ src (j - done) = ground arith in
        let place : off + done + (j - done) ≡ off + j = omega arith in
        f.low j inside
        ∙ here
        ∙ same (j - done) (omega arith)
        ∙ ap (λ p. file_byte r fd uninit addr p) place
  ];
  low = λ j lt.
      let keep : splice buf done want src j ≡ buf j = ground arith in f.low j (omega arith) ∙ keep;
  high = λ j ge. let keep : splice buf done want src j ≡ buf j = ground arith in f.high j ge ∙ keep;
}

-- The bytes of one block of the file.
block_bytes :
    (r : Fsr) (fd : File) (uninit : Buf) (addr : ℕ → ℕ) (p phys k : ℕ)
    → bsize_ok r.prof.bsize ≡ true
    → bmap r fd uninit addr (p / r.prof.bsize) ≡ phys
    → p % r.prof.bsize + k < r.prof.bsize
    → file_byte r fd uninit addr (p + k) ≡ (
        if phys == 0
        then 0
        else fd.byte (r.base + u32 phys * r.prof.bsize + (p % r.prof.bsize + k)))
block_bytes r fd uninit addr p phys k good e inside =
    let (q, m) = same_block r.prof.bsize p k good inside in rw (q, m, e) refl

-- The bytes that a round copies.
abbrev wanted : Fsr → ℕ → ℕ → ℕ → ℕ
wanted r size off done = min (r.prof.bsize - (off + done) % r.prof.bsize) (size - done)

abbrev position : Fsr → ℕ → ℕ → ℕ
position r off done = (off + done) / r.prof.bsize

read_stop :
    (fuel : ℕ) (r : Fsr) (fd : File) (uninit : Buf) (addr : ℕ → ℕ) (size off done : ℕ) (buf : Buf)
    → ltb done size ≡ false
    → read_loop (suc fuel) r fd uninit addr size off done buf ≡ (done, buf)
unfolding read_loop
read_stop fuel r fd uninit addr size off done buf stop = rw (read_loop, stop) refl

-- What a round of the loop does.
read_step :
    (fuel : ℕ) (r : Fsr) (fd : File) (uninit : Buf) (addr : ℕ → ℕ) (size off done : ℕ) (buf : Buf)
    → bsize_ok r.prof.bsize ≡ true
    → AllReadable r fd uninit addr (off + size)
    → off + size < 2 ^ 32
    → ltb done size ≡ true
    → (src : Buf) × (read_loop (suc fuel) r fd uninit addr size off done buf
        ≡ read_loop fuel r fd uninit addr size off
            (done + wanted r size off done)
            (splice buf done (wanted r size off done) src))
      × ((k : ℕ) → k < wanted r size off done → src k ≡ file_byte r fd uninit addr (off + done + k))
unfolding read_loop bread window
read_step fuel r fd uninit addr size off done buf good all small more =
    let less : done < size = ground arith in
    let lbn : u32 (position r off done) ≡ position r off done = lbn_small in
    elim (Bool-cases (bmap r fd uninit addr (position r off done) == 0)) [
      | inl hole ↦
          (λ i. 0, rw (read_loop, more, lbn, hole) refl, λ k lt. sym (bytes k lt ∙ rw hole refl))
      | inr there ↦
          let got : bread r fd (bmap r fd uninit addr (position r off done)) uninit
              ≡ some (λ i.
                if ltb i r.prof.bsize
                then fd.byte
                    (r.base + u32 (bmap r fd uninit addr (position r off done)) * r.prof.bsize + i)
                else uninit i) =
            read_at_lem fd
              (r.base + u32 (bmap r fd uninit addr (position r off done)) * r.prof.bsize)
              r.prof.bsize uninit (all (off + done) (omega arith)) in
          (
            λ k.
                if ltb ((off + done) % r.prof.bsize + k) r.prof.bsize
                then fd.byte (
                    r.base
                    + u32 (bmap r fd uninit addr (position r off done)) * r.prof.bsize
                    + ((off + done) % r.prof.bsize + k))
                else uninit ((off + done) % r.prof.bsize + k),
            rw (read_loop, more, lbn, there, lbn, got) refl,
            λ k lt.
                let here : ltb ((off + done) % r.prof.bsize + k) r.prof.bsize ≡ true =
                  ground (arith, inside k lt) in
                sym (bytes k lt ∙ rw (there, here) refl),
          )
    ]
  where
    lbn_small : u32 (position r off done) ≡ position r off done
    lbn_small =
        let less : done < size = ground arith in
        omega (arith, quotient-le r.prof.bsize (off + done) good)

    inside : (k : ℕ) → k < wanted r size off done → (off + done) % r.prof.bsize + k < r.prof.bsize
    inside k lt = omega (arith, mod-less r.prof.bsize (off + done) good)

    bytes :
        (k : ℕ)
        → k < wanted r size off done
        → file_byte r fd uninit addr (off + done + k) ≡ (
            if bmap r fd uninit addr (position r off done) == 0
            then 0
            else fd.byte (
                r.base
                + u32 (bmap r fd uninit addr (position r off done)) * r.prof.bsize
                + ((off + done) % r.prof.bsize + k)))
    bytes k lt = block_bytes r fd uninit addr (off + done) _ k good refl (inside k lt)

-- With a round for each byte that is left, the loop reads them all.
read_loop-Filled :
    (fuel : ℕ) (r : Fsr) (fd : File) (uninit : Buf) (addr : ℕ → ℕ) (size off done : ℕ) (buf : Buf)
    → bsize_ok r.prof.bsize ≡ true
    → AllReadable r fd uninit addr (off + size)
    → off + size < 2 ^ 32
    → size - done < fuel
    → done ≤ size
    → (buf' : Buf) × (read_loop fuel r fd uninit addr size off done buf ≡ (size, buf'))
      × Filled r fd uninit addr size off done buf buf'
unfolding read_loop bread
read_loop-Filled zero r fd uninit addr size off done buf good all small enough low =
    absurd (omega arith)
read_loop-Filled (suc fuel) r fd uninit addr size off done buf good all small enough low =
    elim (Bool-cases (ltb done size)) [
      | inr stop ↦
          let end : done ≡ size = ground arith in
          (
            buf,
            read_stop fuel r fd uninit addr size off done buf stop ∙ ap (λ d. (d, buf)) end,
            record {
              read = λ j lo hi. absurd (omega arith);
              low = λ j lt. refl;
              high = λ j ge. refl;
            },
          )
      | inl more ↦
          let less : done < size = ground arith in
          let (src, e, same) =
            read_step fuel r fd uninit addr size off done buf good all small more in
          let (buf', e', f) =
            read_loop-Filled fuel r fd uninit addr size off (done + wanted r size off done)
              (splice buf done (wanted r size off done) src) good all small
              (omega (arith, mod-less r.prof.bsize (off + done) good)) (omega arith) in
          (
            buf',
            e ∙ e',
            step-Filled r fd uninit addr size off done (wanted r size off done) buf buf' src
                (omega arith) same f,
          )
    ]

-- How many bytes fsr_readfile asks the loop for.
abbrev asked : Inode → ℕ → ℕ → ℕ
asked i size off = if ltb i.size (off + size) then i.size - off else size

readfile_past :
    (r : Fsr) (fd : File) (uninit : Buf) (i : Inode) (buf : Buf) (size off : ℕ)
    → (leb (2 ^ 31) i.size || leb i.size off) ≡ true
    → readfile r fd uninit i buf size off ≡ (0, buf)
unfolding readfile
readfile_past r fd uninit i buf size off past = rw past refl

readfile_inside :
    (r : Fsr) (fd : File) (uninit : Buf) (i : Inode) (buf : Buf) (size off : ℕ)
    → (leb (2 ^ 31) i.size || leb i.size off) ≡ false
    → readfile r fd uninit i buf size off
      ≡ read_loop (asked i size off + 1) r fd uninit i.addr (asked i size off) off 0 buf
unfolding readfile
readfile_inside r fd uninit i buf size off inside = rw inside refl

readfile-asked :
    (r : Fsr) (fd : File) (uninit : Buf) (i : Inode) (buf buf' : Buf) (size off n : ℕ)
    → (leb (2 ^ 31) i.size || leb i.size off) ≡ false
    → asked i size off ≡ n
    → read_loop (n + 1) r fd uninit i.addr n off 0 buf ≡ (n, buf')
    → readfile r fd uninit i buf size off ≡ (n, buf')
readfile-asked r fd uninit i buf buf' size off n inside e done =
    readfile_inside r fd uninit i buf size off inside
    ∙ ap (λ k. read_loop (k + 1) r fd uninit i.addr k off 0 buf) e
    ∙ done

-- How many bytes fsr_readfile reads: up to the end of the file.
abbrev pub read_count : Inode → ℕ → ℕ → ℕ
read_count i size off = if ltb off i.size then min size (i.size - off) else 0

-- On a handle with one of the three block sizes, of a file whose size is not negative and whose
-- blocks up to it can all be read, fsr_readfile returns the number of bytes asked for or, where that
-- is less, of those left before the end. The buffer then holds these bytes of the file, and 0 for
-- the bytes of a hole; behind them it is as it was.
pub readfile-file_byte :
    (r : Fsr) (fd : File) (uninit : Buf) (i : Inode) (buf : Buf) (size off : ℕ)
    → bsize_ok r.prof.bsize ≡ true
    → i.size < 2 ^ 31
    → AllReadable r fd uninit i.addr i.size
    → (buf' : Buf) × (readfile r fd uninit i buf size off ≡ (read_count i size off, buf'))
      × ((j : ℕ) → j < read_count i size off → buf' j ≡ file_byte r fd uninit i.addr (off + j))
      × ((j : ℕ) → read_count i size off ≤ j → buf' j ≡ buf j)
readfile-file_byte r fd uninit i buf size off good small all =
    elim (Bool-cases (leb (2 ^ 31) i.size || leb i.size off)) [
      | inl past ↦
          let end : 0 ≡ read_count i size off = ground arith in
          (
            buf,
            readfile_past r fd uninit i buf size off past ∙ ap (λ n. (n, buf)) end,
            λ j lt. absurd (omega arith),
            λ j ge. refl,
          )
      | inr inside ↦
          let n : asked i size off ≡ read_count i size off = ground arith in
          let fits : off + read_count i size off ≤ i.size = ground arith in
          let loop =
            read_loop-Filled (read_count i size off + 1) r fd uninit i.addr (read_count i size off)
              off 0 buf good (λ p lt. all p (omega arith)) (omega arith) (omega arith)
              (omega arith) in
          (
            loop.0,
            readfile-asked r fd uninit i buf loop.0 size off (read_count i size off) inside n
                loop.1,
            λ j lt. loop.2.read j (omega arith) lt,
            λ j ge. loop.2.high j ge,
          )
    ]
