-- ===== src/Vhd/Geometry.antt =====
-- vhd_chs of cmd_vhd.c: cylinders, heads and sectors of a disk.
use s5fs.Base.{
  ℕ, ◌+◌, ◌*◌, ◌/◌, ◌%◌, ◌^◌, ◌≤◌, ◌<◌, ◌≡◌, refl, sym, ap, subst, ◌∙◌, ◌||◌, arith, dec_lt, ltb,
  leb, if◌then◌else◌,
}
use s5fs.Image.{times_mono}

-- `*C`, `*H` and `*S`.
pub record Chs : Type 0 where
  pub cylinders : ℕ
  pub heads : ℕ
  pub sectors : ℕ

-- The local variables of vhd_chs.
pub record Trial : Type 0 where
  pub spt : ℕ
  pub heads : ℕ
  pub cth : ℕ

unfoldable pub capped : ℕ → ℕ
capped total = if ltb (65535 * 16 * 255) total then 65535 * 16 * 255 else total

-- `spt = ...; heads = 16; cth = total / spt;`
abbrev pub sixteen : ℕ → ℕ → Trial
sixteen total n = record { spt = n; heads = 16; cth = total / n }

unfoldable pub first_try : ℕ → Trial
first_try total =
    let n : ℕ = ((total / 17 + 1023) / 1024) % 2 ^ 32 in
    record { spt = 17; heads = if ltb n 4 then 4 else n; cth = total / 17 }

unfoldable pub second_try : ℕ → Trial → Trial
second_try total t = if leb (t.heads * 1024) t.cth || ltb 16 t.heads then sixteen total 31 else t

unfoldable pub third_try : ℕ → Trial → Trial
third_try total t = if leb (t.heads * 1024) t.cth then sixteen total 63 else t

unfoldable pub geometry : ℕ → Trial
geometry total =
    if leb (65535 * 16 * 63) total
    then sixteen total 255
    else third_try total (second_try total (first_try total))

abbrev pub narrowed : Trial → Chs
narrowed t = record {
  cylinders = t.cth / t.heads % 2 ^ 16;
  heads = t.heads % 2 ^ 8;
  sectors = t.spt % 2 ^ 8;
}

unfoldable pub vhd_chs : ℕ → Chs
vhd_chs total = narrowed (geometry (capped total))

-- What each branch of the search leaves.
record IsGood (total : ℕ) (t : Trial) : Type 0 where
  pub cth_eq : t.cth ≡ total / t.spt
  pub heads_lo : 0 < t.heads
  pub heads_hi : t.heads ≤ 16
  pub spt_lo : 0 < t.spt
  pub spt_hi : t.spt < 256
  pub narrow : t.cth < t.heads * 65536

-- The largest geometry of at most `total` sectors with these heads and sectors.
pub record Fits (total : ℕ) (c : Chs) : Type 0 where
  pub heads_lo : 0 < c.heads
  pub heads_hi : c.heads ≤ 16
  pub sectors_lo : 0 < c.sectors
  pub inside : c.cylinders * c.heads * c.sectors ≤ total
  pub tight : total < (c.cylinders + 1) * c.heads * c.sectors

sixteen-IsGood :
    (total spt : ℕ) → 0 < spt → spt < 256 → total / spt < 1048576 → IsGood total (sixteen total spt)
sixteen-IsGood total n lo hi q = record {
  cth_eq = refl;
  heads_lo = omega arith;
  heads_hi = omega arith;
  spt_lo = lo;
  spt_hi = hi;
  narrow = omega arith;
}

geometry-IsGood : (total : ℕ) → total ≤ 65535 * 16 * 255 → IsGood total (geometry total)
unfolding geometry third_try second_try first_try
geometry-IsGood total h = record {
  cth_eq = ground arith;
  heads_lo = ground arith;
  heads_hi = ground arith;
  spt_lo = ground arith;
  spt_hi = ground arith;
  narrow = ground arith;
}

-- Two divisions in a row leave the quotient by the product.
below : (t n h : ℕ) → 0 < n → 0 < h → t / n / h * h * n ≤ t
below t n h hn hh =
    let a : t / n / h * h ≤ t / n = omega arith in
    let b : t / n / h * h * n ≤ t / n * n = times_mono (t / n / h * h) (t / n) n a in omega arith

above : (t n h : ℕ) → 0 < n → 0 < h → t < (t / n / h + 1) * h * n
above t n h hn hh =
    let a : t / n + 1 ≤ (t / n / h + 1) * h = ground arith in
    let b : (t / n + 1) * n ≤ (t / n / h + 1) * h * n =
      times_mono (t / n + 1) ((t / n / h + 1) * h) n a in
    ground arith

capped_low : (total : ℕ) → capped total ≤ 65535 * 16 * 255
unfolding capped
capped_low total = ground arith

quotient_low : (c h : ℕ) → 0 < h → c < h * 65536 → c / h < 65536
quotient_low c h p l = elim (dec_lt (c / h) 65536) [
  | yes q ↦ q
  | no q ↦
      let a : 65536 * h ≤ c / h * h = times_mono 65536 (c / h) h (omega arith) in
      let b : c / h * h ≤ c = omega arith in omega arith
]

times3 : {a b c x y z : ℕ} → a ≡ x → b ≡ y → c ≡ z → a * b * c ≡ x * y * z
times3 p q r = cc

narrowed-Fits : (n : ℕ) (t : Trial) → IsGood n t → Fits n (narrowed t)
narrowed-Fits n t good =
    let q : t.cth / t.heads < 65536 = quotient_low t.cth t.heads good.heads_lo good.narrow in
    let cyl : t.cth / t.heads % 2 ^ 16 ≡ n / t.spt / t.heads =
      omega arith ∙ ap (λ c. c / t.heads) good.cth_eq in
    let hd : t.heads % 2 ^ 8 ≡ t.heads = omega (arith, good.heads_hi) in
    let sp : t.spt % 2 ^ 8 ≡ t.spt = omega (arith, good.spt_hi) in
    record {
      heads_lo = omega (arith, good.heads_lo, good.heads_hi);
      heads_hi = omega (arith, good.heads_lo, good.heads_hi);
      sectors_lo = omega (arith, good.spt_lo, good.spt_hi);
      inside =
          subst (λ x. x ≤ n) (sym (times3 cyl hd sp))
            (below n t.spt t.heads good.spt_lo good.heads_lo);
      tight =
          subst (λ x. n < x) (sym (times3 (ap (λ c. c + 1) cyl) hd sp))
            (above n t.spt t.heads good.spt_lo good.heads_lo);
    }

-- For a disk of `total` sectors, cut to the largest that a geometry can name (65535 * 16 * 255),
-- vhd_chs answers between 1 and 16 heads and at least one sector per track; the sectors that the
-- geometry counts are no more than the disk has, and one cylinder more would be more than it has.
pub vhd_chs-Fits : (total : ℕ) → Fits (capped total) (vhd_chs total)
unfolding vhd_chs
vhd_chs-Fits total =
    narrowed-Fits (capped total) (geometry (capped total))
      (geometry-IsGood (capped total) (capped_low total))
