-- ===== src/Vhd/Words.antt =====
-- The big-endian words of cmd_vhd.c: be16, be32, be64, rd32 and rd64. A cast is `% 2 ^ w`.
use s5fs.Base.{
  ℕ, zero, suc, ◌+◌, ◌-◌, ◌*◌, ◌/◌, ◌%◌, ◌^◌, ◌<◌, ◌≡◌, refl, ap, List, [], ◌∷◌, arith, ℕ_discrete,
}
use s5fs.Endian.{Buf, set_byte}

-- be64 writes the first `n` of the 8 bytes from `o` on.
unfoldable pub be64_loop : ℕ → Buf → ℕ → ℕ → Buf
be64_loop zero b o v = b
be64_loop (suc i) b o v = set_byte (be64_loop i b o v) (o + i) (v / 2 ^ (56 - 8 * i))

unfoldable pub be64 : Buf → ℕ → ℕ → Buf
be64 b o v = be64_loop 8 b o v

unfoldable pub rd64_loop : ℕ → Buf → ℕ → ℕ
rd64_loop zero b o = 0
rd64_loop (suc i) b o = (rd64_loop i b o * 256) % 2 ^ 64 + b (o + i)

unfoldable pub rd64 : Buf → ℕ → ℕ
rd64 b o = rd64_loop 8 b o

pub be64_loop-byte :
    (n : ℕ) (b : Buf) (o v i : ℕ) → i < n → be64_loop n b o v (o + i) ≡ v / 2 ^ (56 - 8 * i) % 256
unfolding be64_loop
be64_loop-byte zero b o v i h = omega arith
be64_loop-byte (suc n) b o v i h = elim (ℕ_discrete i n) [
  | yes p ↦ ground (arith, ap (λ k. v / 2 ^ (56 - 8 * k) % 256) p)
  | no p ↦ ground (arith, be64_loop-byte n b o v i (omega arith))
]

-- The buffer holds the 8 bytes of `v` from `o` on.
abbrev pub Holds64 : Buf → ℕ → ℕ → Type 0
Holds64 b o v = (i : ℕ) → i < 8 → b (o + i) ≡ v / 2 ^ (56 - 8 * i) % 256

-- One turn of the loop of rd64, as the quotient of what is read.
push : (q b x y : ℕ) → q ≡ x → b ≡ y % 256 → x ≡ y / 256 → y < 2 ^ 64 → (q * 256) % 2 ^ 64 + b ≡ y
push q b x y h e d l = omega arith

pub rd64-Holds64 : (b : Buf) (o v : ℕ) → Holds64 b o v → v < 2 ^ 64 → rd64 b o ≡ v
unfolding rd64 rd64_loop
rd64-Holds64 b o v at h =
    let a1 : rd64_loop 1 b o ≡ v / 2 ^ 56 =
      push 0 (b (o + 0)) 0 (v / 2 ^ 56) refl (at 0 (omega arith)) (omega arith) (omega arith) in
    let a2 : rd64_loop 2 b o ≡ v / 2 ^ 48 =
      push (rd64_loop 1 b o) (b (o + 1)) (v / 2 ^ 56) (v / 2 ^ 48) a1 (at 1 (omega arith))
        (omega arith) (omega arith) in
    let a3 : rd64_loop 3 b o ≡ v / 2 ^ 40 =
      push (rd64_loop 2 b o) (b (o + 2)) (v / 2 ^ 48) (v / 2 ^ 40) a2 (at 2 (omega arith))
        (omega arith) (omega arith) in
    let a4 : rd64_loop 4 b o ≡ v / 2 ^ 32 =
      push (rd64_loop 3 b o) (b (o + 3)) (v / 2 ^ 40) (v / 2 ^ 32) a3 (at 3 (omega arith))
        (omega arith) (omega arith) in
    let a5 : rd64_loop 5 b o ≡ v / 2 ^ 24 =
      push (rd64_loop 4 b o) (b (o + 4)) (v / 2 ^ 32) (v / 2 ^ 24) a4 (at 4 (omega arith))
        (omega arith) (omega arith) in
    let a6 : rd64_loop 6 b o ≡ v / 2 ^ 16 =
      push (rd64_loop 5 b o) (b (o + 5)) (v / 2 ^ 24) (v / 2 ^ 16) a5 (at 5 (omega arith))
        (omega arith) (omega arith) in
    let a7 : rd64_loop 7 b o ≡ v / 2 ^ 8 =
      push (rd64_loop 6 b o) (b (o + 6)) (v / 2 ^ 16) (v / 2 ^ 8) a6 (at 6 (omega arith))
        (omega arith) (omega arith) in
    push (rd64_loop 7 b o) (b (o + 7)) (v / 2 ^ 8) v a7 (omega (arith, at 7 (omega arith)))
      (omega arith) h

-- `memcpy(b + o, text, strlen(text))`
unfoldable pub put_text : Buf → ℕ → List ℕ → Buf
put_text b o [] = b
put_text b o (x ∷ xs) = put_text (set_byte b o x) (o + 1) xs

-- be16, be32 and rd32.
abbrev pub be16 : Buf → ℕ → ℕ → Buf
be16 b o v = set_byte (set_byte b o (v / 256)) (o + 1) v

abbrev pub be32 : Buf → ℕ → ℕ → Buf
be32 b o v =
    set_byte
      (set_byte (set_byte (set_byte b o (v / 2 ^ 24)) (o + 1) (v / 2 ^ 16)) (o + 2) (v / 2 ^ 8))
      (o + 3) v

abbrev pub rd32 : Buf → ℕ → ℕ
rd32 b o = b o * 2 ^ 24 + b (o + 1) * 2 ^ 16 + b (o + 2) * 2 ^ 8 + b (o + 3)
