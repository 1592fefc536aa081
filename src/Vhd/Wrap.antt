-- ===== src/Vhd/Wrap.antt =====
-- A file that was wrapped is recognised, described and unwrapped.
use s5fs.Base.{
  ℕ, ◌+◌, ◌-◌, ◌*◌, ◌/◌, ◌%◌, ◌^◌, ◌≤◌, ◌<◌, ◌≡◌, refl, ap, ◌∙◌, true, none, some, arith, ltb,
  if◌then◌else◌,
}
use s5fs.Endian.{Buf}
use s5fs.Image.{File, read_at, write_at}
use s5fs.Vhd.Geometry.{Chs, vhd_chs}
use s5fs.Vhd.Words.{be64_loop, be64, be64_loop-byte, Holds64, rd64-Holds64, put_text, be32, rd32}
use s5fs.Vhd.Footer.{
  vhd_cookie, vhd_epoch, head_fields, disk_fields, vhd_footer, starts, footer_of, read_footer,
  append_footer, do_wrap, strip_footer, do_unwrap, Info, chs_at, footer_info, do_info,
}

-- A file with the 512 bytes of a footer behind the bytes of `f`.
record IsWrapped (now : ℕ) (f w : File) : Type 0 where
  size : w.size ≡ f.size + 512
  same : (j : ℕ) → j < f.size → w.byte j ≡ f.byte j
  foot : (i : ℕ) → i < 512 → w.byte (f.size + i) ≡ vhd_footer now f.size i

appended-IsWrapped :
    (now : ℕ) (f : File) → IsWrapped now f (write_at f f.size 512 (vhd_footer now f.size))
unfolding write_at
appended-IsWrapped now f = record {
  size = omega arith;
  same = λ j h. ground arith;
  foot = λ i h.
      let e : f.size + i - f.size ≡ i = omega arith in ground (arith, ap (vhd_footer now f.size) e);
}

abbrev Same512 : Buf → Buf → Type 0
Same512 b c = (i : ℕ) → i < 512 → b i ≡ c i

starts-cookie : (now n : ℕ) (b : Buf) → Same512 b (vhd_footer now n) → starts b 0 vhd_cookie ≡ true
unfolding starts vhd_footer head_fields disk_fields be64 be64_loop put_text
starts-cookie now n b h = ground (
  arith,
  h 0 (omega arith),
  h 1 (omega arith),
  h 2 (omega arith),
  h 3 (omega arith),
  h 4 (omega arith),
  h 5 (omega arith),
  h 6 (omega arith),
  h 7 (omega arith),
)

read_footer-IsWrapped :
    (now : ℕ) (f w : File)
    → IsWrapped now f w
    → (b : Buf) × (read_footer w ≡ some b) × Same512 b (vhd_footer now f.size)
unfolding read_footer read_at footer_of
read_footer-IsWrapped now f w h =
    let b : Buf = λ i. if ltb i 512 then w.byte (w.size - 512 + i) else 0 in
    let e : w.size - 512 ≡ f.size = omega (arith, h.size) in
    let same : Same512 b (vhd_footer now f.size) =
      λ i l. ground (arith, ap (λ k. w.byte (k + i)) e, h.foot i l) in
    (b, ground (arith, h.size, starts-cookie now f.size b same), same)

do_wrap-IsWrapped :
    (now : ℕ) (f : File)
    → read_footer f ≡ none
    → (w : File) × (do_wrap now f ≡ some w) × IsWrapped now f w
unfolding do_wrap append_footer
do_wrap-IsWrapped now f h = (
  write_at f f.size 512 (vhd_footer now f.size),
  ap (append_footer now f) h,
  appended-IsWrapped now f,
)

-- What do_info finds in the footer of `n` bytes.
abbrev pub vhd_info : ℕ → ℕ → Info
vhd_info now n = record {
  kind = 2;
  bytes = n;
  geometry = vhd_chs (n / 512);
  created = (now + 2 ^ 64 - vhd_epoch) % 2 ^ 32 + vhd_epoch;
}

Holds64-disk_fields :
    (f : Buf) (c : Chs) (n v : ℕ) → Holds64 f 48 n → Holds64 (be32 (disk_fields f c) 64 v) 48 n
unfolding disk_fields
Holds64-disk_fields f c n v h i l = ground (arith, h i l)

Holds64-vhd_footer : (now n : ℕ) (b : Buf) → Same512 b (vhd_footer now n) → Holds64 b 48 n
unfolding vhd_footer head_fields be64
Holds64-vhd_footer now n b same i h =
    let at : Holds64 (head_fields now n) 48 n = λ i l. be64_loop-byte 8 _ 48 n i l in
    same (48 + i) (omega arith)
    ∙ Holds64-disk_fields (head_fields now n) (vhd_chs (n / 512)) n _ at i h

be32_back :
    (v : ℕ)
    → v / 2 ^ 24 % 256 * 2 ^ 24 + v / 2 ^ 16 % 256 * 2 ^ 16 + v / 2 ^ 8 % 256 * 2 ^ 8 + v % 256
      ≡ v % 2 ^ 32
be32_back v = omega arith

rd32_same : (b c : Buf) (o : ℕ) → o + 4 ≤ 512 → Same512 b c → rd32 b o ≡ rd32 c o
rd32_same b c o l h = omega (
  arith,
  h o (omega arith),
  h (o + 1) (omega arith),
  h (o + 2) (omega arith),
  h (o + 3) (omega arith),
)

kind-vhd_footer : (now n : ℕ) → rd32 (vhd_footer now n) 60 ≡ 2
unfolding vhd_footer disk_fields
kind-vhd_footer now n = refl

created-vhd_footer : (now n : ℕ) → rd32 (vhd_footer now n) 24 ≡ (now + 2 ^ 64 - vhd_epoch) % 2 ^ 32
unfolding vhd_footer disk_fields head_fields be64 be64_loop put_text
created-vhd_footer now n = be32_back (now + 2 ^ 64 - vhd_epoch)

same_chs :
    (c d : Chs) → c.cylinders ≡ d.cylinders → c.heads ≡ d.heads → c.sectors ≡ d.sectors → c ≡ d
same_chs c d p q r = cc

chs_at-disk_fields :
    (b f : Buf) (c : Chs) (v : ℕ)
    → c.cylinders < 2 ^ 16
    → c.heads < 256
    → c.sectors < 256
    → Same512 b (be32 (disk_fields f c) 64 v)
    → chs_at b ≡ c
unfolding disk_fields
chs_at-disk_fields b f c v hc hh hs same =
    same_chs (chs_at b) c (omega (arith, same 56 (omega arith), same 57 (omega arith)))
      (omega (arith, same 58 (omega arith))) (omega (arith, same 59 (omega arith)))

chs_at-vhd_footer :
    (now n : ℕ) (b : Buf) → Same512 b (vhd_footer now n) → chs_at b ≡ vhd_chs (n / 512)
unfolding vhd_footer vhd_chs
chs_at-vhd_footer now n b same =
    chs_at-disk_fields b (head_fields now n) (vhd_chs (n / 512)) _ (omega arith) (omega arith)
      (omega arith) same

same_info :
    (a b : Info)
    → a.kind ≡ b.kind
    → a.bytes ≡ b.bytes
    → a.geometry ≡ b.geometry
    → a.created ≡ b.created
    → a ≡ b
same_info a b p q r s = cc

do_info-IsWrapped :
    (now : ℕ) (f w : File)
    → IsWrapped now f w
    → f.size < 2 ^ 64
    → do_info w ≡ some (vhd_info now f.size)
unfolding do_info footer_info
do_info-IsWrapped now f w is l =
    let (b, found, same) = read_footer-IsWrapped now f w is in
    let n = f.size in
    ap footer_info found
    ∙ ap some (
        same_info _ (vhd_info now n)
          (rd32_same b (vhd_footer now n) 60 (omega arith) same ∙ kind-vhd_footer now n)
          (rd64-Holds64 b 48 n (Holds64-vhd_footer now n b same) l) (chs_at-vhd_footer now n b same)
          (ap (λ k. k + vhd_epoch)
            (rd32_same b (vhd_footer now n) 24 (omega arith) same ∙ created-vhd_footer now n)))

-- A file of less than 2 ^ 64 bytes that has no footer is wrapped. The file that comes out is
-- refused by a second wrap; info finds in it a fixed disk of the size of the file, with the
-- geometry that vhd_chs gives for its sectors, and the time of the wrap modulo 2 ^ 32; and unwrap
-- gives a file of the same size and with the same bytes as before.
pub do_unwrap-do_wrap :
    (now later : ℕ) (f : File)
    → read_footer f ≡ none
    → f.size < 2 ^ 64
    → (w : File) × (do_wrap now f ≡ some w)
      × (do_wrap later w ≡ none)
      × (do_info w ≡ some (vhd_info now f.size))
      × (g : File) × (do_unwrap w ≡ some g)
      × (g.size ≡ f.size)
      × ((j : ℕ) → j < f.size → g.byte j ≡ f.byte j)
unfolding do_wrap append_footer do_unwrap strip_footer
do_unwrap-do_wrap now later f h l =
    let (w, made, is) = do_wrap-IsWrapped now f h in
    let (b, found, same) = read_footer-IsWrapped now f w is in
    (
      w,
      made,
      ap (append_footer later w) found,
      do_info-IsWrapped now f w is l,
      record { size = w.size - 512; byte = w.byte },
      ap (strip_footer w) found,
      omega (arith, is.size),
      is.same,
    )
