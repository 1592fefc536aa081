-- ===== src/Scavenge/Kinds.antt =====
-- What classify and the tally of cmd_scavenge.c make of the blocks.
use s5fs.Base.{
  ℕ, zero, suc, ◌+◌, ◌*◌, ◌≤◌, ◌<◌, ◌≡◌, refl, sym, subst, ◌∙◌, ◌≢◌, ◌⊎◌, inl, inr, Bool, true,
  false, ◌&&◌, ◌||◌, none, some, arith, ℕ_discrete, ltb, leb, ◌==◌, if◌then◌else◌, Bool-cases,
  Option-cases,
}
use s5fs.Endian.{Buf, Endian, pdp11, le, be, get16}
use s5fs.Scavenge.Scan.{
  Sig, sig_aout, sig_ar, sig_tar, sig_text, sig_dir, sig_zero, sig_other, Census, count_byte,
  census, is_ustar, is_dir_block, by_bytes, classify,
}
use s5fs.Scavenge.Run.{Report, same_sig, scan_one, scan_blocks}
use s5fs.Scavenge.Used.{Scav}
use s5fs.Inode.{bread}

-- The block with a name "." in its slot 0, as a directory's first block has it.
pub classify-dot : (e : Endian) (bsize : ℕ) (b : Buf) → b 2 ≡ b'.' → classify e bsize b ≢ sig_dir
unfolding classify by_bytes get16
classify-dot pdp11 bsize b h = ground arith
classify-dot le bsize b h = ground arith
classify-dot be bsize b h = ground arith

-- The first `n` bytes are all 0.
unfoldable pub all_zero : ℕ → Buf → Bool
all_zero zero b = true
all_zero (suc n) b = b n == 0 && all_zero n b

zero_bytes-le : (n : ℕ) (b : Buf) → (census n b).zero_bytes ≤ n
unfolding census count_byte
zero_bytes-le zero b = omega arith
zero_bytes-le (suc n) b = ground (arith, zero_bytes-le n b)

zero_bytes-all_zero : (n : ℕ) (b : Buf) → ((census n b).zero_bytes == n) ≡ all_zero n b
unfolding census count_byte all_zero
zero_bytes-all_zero zero b = refl
zero_bytes-all_zero (suc n) b = ground (arith, zero_bytes-all_zero n b, zero_bytes-le n b)

all_zero-at : (n : ℕ) (b : Buf) (i : ℕ) → all_zero n b ≡ true → i < n → b i ≡ 0
unfolding all_zero
all_zero-at zero b i h lt = absurd (omega arith)
all_zero-at (suc n) b i h lt = elim (ℕ_discrete i n) [
  | yes e ↦ subst (λ j. b j ≡ 0) (sym e) (ground (arith, h))
  | no ne ↦ all_zero-at n b i (ground (arith, h)) (omega (arith, ne))
]

get16_zero : (e : Endian) (b : Buf) → b 0 ≡ 0 → b 1 ≡ 0 → get16 e b 0 ≡ 0
unfolding get16
get16_zero pdp11 b h k = omega (arith, h, k)
get16_zero le b h k = omega (arith, h, k)
get16_zero be b h k = omega (arith, h, k)

-- By its count of bytes, a block is of this kind where they are all 0.
by_bytes-zero :
    (bsize : ℕ) (b : Buf) → same_sig (by_bytes bsize (census bsize b)) sig_zero ≡ all_zero bsize b
unfolding by_bytes same_sig
by_bytes-zero bsize b =
    let k : Census = census bsize b in
    let counts : (k.zero_bytes == bsize) ≡ all_zero bsize b = zero_bytes-all_zero bsize b in
    elim (Bool-cases (all_zero bsize b)) [
      | inl z ↦ rw (counts ∙ z) (sym z)
      | inr z ↦
          rw (counts ∙ z)
            (elim (Bool-cases (leb 16 k.printable && ltb (k.others * 20) k.printable)) [
              | inl text ↦ rw text (sym z)
              | inr other ↦ rw other (sym z)
            ])
    ]

-- The choices of classify before the count: none of them is this kind.
after_choices :
    (c1 c2 c3 c4 : Bool) (r : Sig)
    → (same_sig r sig_zero ≡ false) ⊎ ((c1 ≡ false) × (c2 ≡ false) × (c3 ≡ false) × (c4 ≡ false))
    → same_sig
        (if c1
          then sig_aout
          else if c2
          then sig_ar
          else if c3
          then sig_tar
          else if c4
          then sig_dir
          else r)
        sig_zero
      ≡ same_sig r sig_zero
unfolding same_sig
after_choices false false false false r h = refl
after_choices true c2 c3 c4 r (inl e) = sym e
after_choices false true c3 c4 r (inl e) = sym e
after_choices false false true c4 r (inl e) = sym e
after_choices false false false true r (inl e) = sym e
after_choices true c2 c3 c4 r (inr h) = absurd (ground (arith, h))
after_choices false true c3 c4 r (inr h) = absurd (ground (arith, h))
after_choices false false true c4 r (inr h) = absurd (ground (arith, h))
after_choices false false false true r (inr h) = absurd (ground (arith, h))

-- classify gives this kind to a block whose bytes are all 0, and to no other: no block of the other
-- kinds that go before has only such bytes.
pub same_sig-all_zero :
    (e : Endian) (bsize : ℕ) (b : Buf)
    → 512 ≤ bsize
    → same_sig (classify e bsize b) sig_zero ≡ all_zero bsize b
unfolding classify
same_sig-all_zero e bsize b large =
    let w : ℕ = get16 e b 0 in
    after_choices (w == 0o407 || (w == 0o410 || w == 0o411)) (w == 0o177545)
      (leb 512 bsize && is_ustar b) (is_dir_block e b) (by_bytes bsize (census bsize b))
      (elim (Bool-cases (all_zero bsize b)) [
        | inr z ↦ inl (by_bytes-zero bsize b ∙ z)
        | inl z ↦
            let at : (i : ℕ) → i < 512 → b i ≡ 0 =
              λ i lt. all_zero-at bsize b i z (omega (arith, large)) in
            let word : get16 e b 0 ≡ 0 = get16_zero e b (at 0 (omega arith)) (at 1 (omega arith)) in
            inr (
              ground (arith, word),
              ground (arith, word),
              ground (arith, at 257 (omega arith)),
              ground (arith, at 4 (omega arith)),
            )
      ])
    ∙ by_bytes-zero bsize b

-- 1 for a block that is not in use, can be read and holds only zeros.
unfoldable pub zero_block : Scav → ℕ → ℕ
zero_block s bno =
    if s.used bno == 0
    then elim (bread s.r s.image bno s.uninit) [
      | none ↦ 0
      | some b ↦ if all_zero s.r.prof.bsize b then 1 else 0
    ]
    else 0

-- How many of these there are among `n` blocks from `bno` on.
unfoldable pub blanks : Scav → ℕ → ℕ → ℕ
blanks s zero bno = 0
blanks s (suc n) bno = zero_block s bno + blanks s n (bno + 1)

same_sig_comm : (g : Sig) → same_sig sig_zero g ≡ same_sig g sig_zero
unfolding same_sig
same_sig_comm sig_aout = refl
same_sig_comm sig_ar = refl
same_sig_comm sig_tar = refl
same_sig_comm sig_text = refl
same_sig_comm sig_dir = refl
same_sig_comm sig_zero = refl
same_sig_comm sig_other = refl

scan_one-zero_block :
    (x : Bool) (s : Scav) (bno : ℕ) (t : Report)
    → 512 ≤ s.r.prof.bsize
    → (scan_one x s bno t).kinds sig_zero ≡ t.kinds sig_zero + zero_block s bno
unfolding scan_one zero_block
scan_one-zero_block x s bno t large = elim (Bool-cases (s.used bno == 0)) [
  | inr u ↦ rw u (omega arith)
  | inl u ↦ elim (Option-cases (bread s.r s.image bno s.uninit)) [
    | inl e ↦ rw (u, e) (omega arith)
    | inr (b, e) ↦
        let kind : same_sig sig_zero (classify s.r.bo s.r.prof.bsize b)
            ≡ all_zero s.r.prof.bsize b =
          same_sig_comm (classify s.r.bo s.r.prof.bsize b)
          ∙ same_sig-all_zero s.r.bo s.r.prof.bsize b large in
        rw (u, e, kind) (ground arith)
  ]
]

-- With blocks of 512 bytes or more, the scan counts as zero blocks exactly the blocks that are not
-- in use, can be read and hold nothing but zeros.
pub scan_blocks-blanks :
    (x : Bool) (s : Scav) (n bno : ℕ) (t : Report)
    → 512 ≤ s.r.prof.bsize
    → (scan_blocks x s n bno t).kinds sig_zero ≡ t.kinds sig_zero + blanks s n bno
unfolding scan_blocks blanks
scan_blocks-blanks x s zero bno t large = omega arith
scan_blocks-blanks x s (suc n) bno t large = omega (
  arith,
  scan_blocks-blanks x s n (bno + 1) (scan_one x s bno t) large,
  scan_one-zero_block x s bno t large,
)
