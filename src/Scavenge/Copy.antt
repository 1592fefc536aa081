-- ===== src/Scavenge/Copy.antt =====
-- What carve of cmd_scavenge.c writes: the bytes of consecutive blocks.
use s5fs.Base.{
  ℕ, zero, suc, ◌+◌, ◌-◌, ◌*◌, ◌/◌, ◌%◌, ◌≤◌, ◌<◌, ◌≡◌, refl, sym, ap, subst, ◌∙◌, ◌⊎◌, inl, inr,
  Bool, true, false, ◌&&◌, Option, none, some, arith, dec_lt, ltb, Bool-cases, Option-cases, min,
  ap₂,
}
use s5fs.Layout.{u32, bsize_ok}
use s5fs.Endian.{Buf}
use s5fs.Image.{File, read_at, write_at}
use s5fs.Inode.{bread}
use s5fs.Scavenge.Used.{Scav}
use s5fs.Scavenge.Scan.{carve_loop, empty_file, carve}
use s5fs.Reader.Content.{same_block, mod-less}
use s5fs.Inode.Place.{bsize_cases}

-- Where the byte `j` of a run of blocks from `bno` on stands in the image.
abbrev pub place : Scav → ℕ → ℕ → ℕ
place s bno j =
    s.r.base + u32 (u32 (bno + j / s.r.prof.bsize)) * s.r.prof.bsize + j % s.r.prof.bsize

-- The block that comes next.
abbrev pub next_block : Scav → ℕ → File → ℕ
next_block s bno out = u32 (bno + out.size / s.r.prof.bsize)

-- A copy of the first bytes of the run, whole blocks of it or all of them.
pub record IsCopy (s : Scav) (bno len : ℕ) (out : File) : Type 0 where
  pub fits : out.size ≤ len
  pub whole : (out.size % s.r.prof.bsize ≡ 0) ⊎ (out.size ≡ len)
  pub same : (j : ℕ) → j < out.size → out.byte j ≡ s.image.byte (place s bno j)

-- Why a copy ends: all is there, or the next block is off the volume or cannot be read.
abbrev pub Complete : Scav → ℕ → ℕ → File → Type 0
Complete s bno len out =
    (out.size ≡ len)
    ⊎ (s.r.fsize ≤ next_block s bno out)
    ⊎ (bread s.r s.image (next_block s bno out) s.uninit ≡ none)

bread_bytes :
    (s : Scav) (n : ℕ) (b : Buf)
    → bread s.r s.image n s.uninit ≡ some b
    → (i : ℕ) → i < s.r.prof.bsize
    → b i ≡ s.image.byte (s.r.base + u32 n * s.r.prof.bsize + i)
unfolding bread read_at
bread_bytes s n b e i l =
    let at : Option Buf → ℕ = λ o. elim o [ none ↦ 0 | some f ↦ f i ] in ground (arith, ap at e)

add_block : (b n : ℕ) → bsize_ok b ≡ true → n % b ≡ 0 → (n + b) % b ≡ 0
add_block b n good m = elim (bsize_cases b good) [
  | inl e ↦ let m' : n % 512 ≡ 0 = rw e at m in rw e (omega arith)
  | inr (inl e) ↦ let m' : n % 1024 ≡ 0 = rw e at m in rw e (omega arith)
  | inr (inr e) ↦ let m' : n % 2048 ≡ 0 = rw e at m in rw e (omega arith)
]

-- A whole block more, or what was left.
add_whole :
    (b n len : ℕ)
    → bsize_ok b ≡ true
    → n % b ≡ 0
    → n < len
    → ((n + min (len - n) b) % b ≡ 0) ⊎ (n + min (len - n) b ≡ len)
add_whole b n len good m l = elim (dec_lt (len - n) b) [
  | yes p ↦ inr (omega arith)
  | no p ↦ let e : min (len - n) b ≡ b = omega arith in inl (rw e (add_block b n good m))
]

size-append : (f : File) (n : ℕ) (b : Buf) → (write_at f f.size n b).size ≡ f.size + n
unfolding write_at
size-append f n b = omega arith

write-IsCopy :
    (s : Scav) (bno len : ℕ) (out : File) (b : Buf)
    → bsize_ok s.r.prof.bsize ≡ true
    → IsCopy s bno len out
    → out.size < len
    → bread s.r s.image (next_block s bno out) s.uninit ≡ some b
    → IsCopy s bno len (write_at out out.size (min (len - out.size) s.r.prof.bsize) b)
unfolding write_at
write-IsCopy s bno len out b good c more e =
    let bs : ℕ = s.r.prof.bsize in
    let aligned : out.size % bs ≡ 0 = elim (c.whole) [ inl h ↦ h | inr h ↦ absurd (omega arith) ] in
    let want : ℕ = min (len - out.size) bs in
    let size : (write_at out out.size want b).size ≡ out.size + want = size-append out want b in
    record {
      fits = omega (arith, size);
      whole =
          subst (λ n. (n % bs ≡ 0) ⊎ (n ≡ len)) (sym size)
            (add_whole bs out.size len good aligned more);
      same = λ j l. elim (dec_lt j out.size) [
        | yes old ↦
            let keep : (write_at out out.size want b).byte j ≡ out.byte j = ground arith in
            keep ∙ c.same j old
        | no new ↦
            let k : ℕ = j - out.size in
            let at : out.size + k ≡ j = omega arith in
            let (q, m) = same_block bs out.size k good (omega (arith, size, aligned)) in
            let wrote : (write_at out out.size want b).byte j ≡ b k = ground (arith, size) in
            let q' : j / bs ≡ out.size / bs = ap (λ x. x / bs) (sym at) ∙ q in
            let m' : j % bs ≡ k = ap (λ x. x % bs) (sym at) ∙ m ∙ omega (arith, aligned) in
            wrote
            ∙ bread_bytes s (next_block s bno out) b e k (omega (arith, size))
            ∙ ap₂ (λ x y. s.image.byte (s.r.base + u32 (u32 (bno + x)) * bs + y)) (sym q') (sym m')
      ];
    }

abbrev go_on : Scav → ℕ → ℕ → File → Bool
go_on s bno len out = ltb out.size len && ltb (next_block s bno out) s.r.fsize

carve_stop :
    (n : ℕ) (s : Scav) (bno len : ℕ) (out : File)
    → go_on s bno len out ≡ false
    → carve_loop (suc n) s bno len out ≡ out
unfolding carve_loop
carve_stop n s bno len out h = rw (carve_loop, h) refl

carve_unreadable :
    (n : ℕ) (s : Scav) (bno len : ℕ) (out : File)
    → go_on s bno len out ≡ true
    → bread s.r s.image (next_block s bno out) s.uninit ≡ none
    → carve_loop (suc n) s bno len out ≡ out
unfolding carve_loop
carve_unreadable n s bno len out h e = rw (carve_loop, h, e) refl

carve_step :
    (n : ℕ) (s : Scav) (bno len : ℕ) (out : File) (b : Buf)
    → go_on s bno len out ≡ true
    → bread s.r s.image (next_block s bno out) s.uninit ≡ some b
    → carve_loop (suc n) s bno len out
      ≡ carve_loop n s bno len (write_at out out.size (min (len - out.size) s.r.prof.bsize) b)
unfolding carve_loop
carve_step n s bno len out b h e = rw (carve_loop, h, e) refl

abbrev Carves : Scav → ℕ → ℕ → File → Type 0
Carves s bno len out = IsCopy s bno len out × Complete s bno len out

-- With a round for each byte that is left, the loop of carve ends by itself.
carve_loop-Carves :
    (n : ℕ) (s : Scav) (bno len : ℕ) (out : File)
    → bsize_ok s.r.prof.bsize ≡ true
    → IsCopy s bno len out
    → len - out.size ≤ n
    → Carves s bno len (carve_loop n s bno len out)
unfolding carve_loop
carve_loop-Carves zero s bno len out good c f = (c, inl (omega (arith, c.fits)))
carve_loop-Carves (suc n) s bno len out good c f = elim (Bool-cases (go_on s bno len out)) [
  | inr stop ↦
      let all : (out.size ≡ len) ⊎ (s.r.fsize ≤ next_block s bno out) = elim (dec_lt out.size len) [
        | no p ↦ inl (omega (arith, c.fits))
        | yes p ↦ inr (ground (arith, stop))
      ] in
      subst (Carves s bno len) (sym (carve_stop n s bno len out stop))
        (c, elim all [ inl p ↦ inl p | inr p ↦ inr (inl p) ])
  | inl go ↦ elim (Option-cases (bread s.r s.image (next_block s bno out) s.uninit)) [
    | inl bad ↦
        subst (Carves s bno len) (sym (carve_unreadable n s bno len out go bad)) (c, inr (inr bad))
    | inr (b, e) ↦
        let more : out.size < len = ground (arith, go) in
        let want : ℕ = min (len - out.size) s.r.prof.bsize in
        let size = size-append out want b in
        subst (Carves s bno len) (sym (carve_step n s bno len out b go e)) (
          carve_loop-Carves n s bno len (write_at out out.size want b) good
            (write-IsCopy s bno len out b good c more e)
            (omega (arith, size, mod-less s.r.prof.bsize 0 good)))
  ]
]

-- On a handle with one of the three block sizes, what carve writes is a copy of the first bytes of
-- the blocks from `bno` on, byte by byte, never more than `len` of them, and a number of whole
-- blocks or `len`; and it is short only where the next block is off the volume or cannot be read.
pub carve-IsCopy :
    (s : Scav) (bno len : ℕ)
    → bsize_ok s.r.prof.bsize ≡ true
    → IsCopy s bno len (carve s bno len) × Complete s bno len (carve s bno len)
unfolding carve
carve-IsCopy s bno len good =
    carve_loop-Carves len s bno len empty_file good
      (record { fits = omega arith; whole = inl (omega arith); same = λ j l. absurd (omega arith) })
      (omega arith)
