-- ===== src/Dump/Checksum.antt =====
-- The checksum of a header: what spclrec of cmd_dump.c puts into the record.
use s5fs.Base.{
  ℕ, zero, suc, ◌+◌, ◌-◌, ◌*◌, ◌/◌, ◌^◌, ◌≤◌, ◌<◌, ◌≡◌, refl, sym, ap, ◌∙◌, ◌≢◌, inl, inr, arith,
  dec_lt, ℕ_discrete, ltb, if◌then◌else◌,
}
use s5fs.Layout.{u16}
use s5fs.Endian.{Buf, Endian, put16, get16, Outside, get16-put16, get16_same, put16-Outside}
use s5fs.Dump.Record.{dmagic, dcheck, c_inum, c_magic, c_checksum, word_sum, unsummed, header}

-- The words agree, but for the one with the index `k`.
pub record OneWord (e : Endian) (b c : Buf) (k : ℕ) : Type 0 where
  pub others : (i : ℕ) → i ≢ k → get16 e b (2 * i) ≡ get16 e c (2 * i)

-- The word `k`, if it is one of the first `n`.
abbrev pub word_within : Endian → Buf → ℕ → ℕ → ℕ
word_within e b k n = if ltb k n then get16 e b (2 * k) else 0

-- The sums differ by that word.
pub word_sum-OneWord :
    (e : Endian) (b c : Buf) (k n : ℕ)
    → OneWord e b c k
    → u16 (word_sum e b n + word_within e c k n) ≡ u16 (word_sum e c n + word_within e b k n)
unfolding word_sum
word_sum-OneWord e b c k zero h = ground arith
word_sum-OneWord e b c k (suc n) h = elim (ℕ_discrete n k) [
  | yes p ↦ ground (
    arith,
    word_sum-OneWord e b c k n h,
    ap (λ j. get16 e b (2 * j)) p,
    ap (λ j. get16 e c (2 * j)) p,
  )
  | no p ↦ ground (arith, word_sum-OneWord e b c k n h, h.others n p)
]

-- The bytes of two words.
apart : (i k j : ℕ) → i ≢ k → 2 * i ≤ j → j < 2 * i + 2 → Outside j (2 * k) 2
apart i k j ne lo hi = elim (dec_lt i k) [ yes p ↦ inl (omega arith) | no p ↦ inr (omega arith) ]

word_sum_small : (e : Endian) (b : Buf) (n : ℕ) → word_sum e b n < 2 ^ 32
unfolding word_sum
word_sum_small e b zero = omega arith
word_sum_small e b (suc n) = omega arith

sum_up :
    (s t v : ℕ)
    → s < 2 ^ 32
    → v ≡ u16 (dcheck + 2 ^ 32 - s)
    → u16 (s + v) ≡ u16 t
    → u16 t ≡ u16 dcheck
sum_up s t v l e h = omega arith

put16-OneWord : (e : Endian) (b : Buf) (k v : ℕ) → OneWord e b (put16 e b (2 * k) v) k
put16-OneWord e b k v = record {
  others = λ i ne.
      get16_same e b (put16 e b (2 * k) v) (2 * i)
        (λ j lo hi. sym (put16-Outside e b (2 * k) v j (apart i k j ne lo hi)));
}

-- The words of a header that spclrec writes sum to the constant.
pub word_sum-header :
    (e : Endian) (bsize ino : ℕ) (spcl : Buf)
    → 22 ≤ bsize
    → u16 (word_sum e (header e bsize ino spcl) (bsize / 2)) ≡ u16 dcheck
unfolding header
word_sum-header e bsize ino spcl h =
    let b : Buf = unsummed e ino spcl in
    let n : ℕ = bsize / 2 in
    let v : ℕ = u16 (dcheck + 2 ^ 32 - word_sum e b n) in
    let c : Buf = put16 e b c_checksum v in
    let zero_word : get16 e b c_checksum ≡ 0 =
      get16-put16 e (put16 e (put16 e spcl c_inum ino) c_magic dmagic) c_checksum 0 in
    let word : get16 e c c_checksum ≡ v = get16-put16 e b c_checksum v ∙ omega arith in
    let s : u16 (word_sum e b n + word_within e c 10 n)
        ≡ u16 (word_sum e c n + word_within e b 10 n) =
      word_sum-OneWord e b c 10 n (put16-OneWord e b 10 v) in
    let here : word_within e c 10 n ≡ v = ground (arith, word) in
    let gone : word_within e b 10 n ≡ 0 = ground (arith, zero_word) in
    sum_up (word_sum e b n) (word_sum e c n) v (word_sum_small e b n) refl (
      ap (λ w. u16 (word_sum e b n + w)) (sym here)
      ∙ s
      ∙ ap (λ w. u16 (word_sum e c n + w)) gone
      ∙ ap u16 (omega arith))
