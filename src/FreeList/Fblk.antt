-- ===== src/FreeList/Fblk.antt =====
-- A loop of put32 calls, and the encoding of a free-list block.
use s5fs.Base.{ℕ, zero, suc, ◌+◌, ◌*◌, ◌%◌, ◌^◌, ◌≤◌, ◌<◌, ◌≡◌, refl, ◌∙◌, ℕ_discrete, arith}
use s5fs.Endian.{
  Buf, Endian, put16, get16, get32, Outside, SameBytes, get16-put16, get16_same, get32-put32,
  put32-Outside, get32_same,
}
use s5fs.Layout.{nicfree, fb_nfree, fb_free, clamp_nfree}
use s5fs.Writer.{put_longs, fblk_nfree, fblk_free, zeros}

pub put_longs-Outside :
    (e : Endian) (b : Buf) (o : ℕ) (f : ℕ → ℕ) (n j : ℕ)
    → Outside j o (4 * n)
    → put_longs e b o f n j ≡ b j
unfolding put_longs
put_longs-Outside e b o f zero j h = refl
put_longs-Outside e b o f (suc n) j h =
    put32-Outside e (put_longs e b o f n) (o + 4 * n) (f n) j (omega arith)
    ∙ put_longs-Outside e b o f n j (omega arith)

pub get32-put_longs :
    (e : Endian) (b : Buf) (o : ℕ) (f : ℕ → ℕ) (n i : ℕ)
    → i < n
    → get32 e (put_longs e b o f n) (o + 4 * i) ≡ f i % 2 ^ 32
unfolding put_longs
get32-put_longs e b o f zero i h = absurd (omega arith)
get32-put_longs e b o f (suc n) i h = elim (ℕ_discrete i n) [
  | yes p ↦ rw p (get32-put32 e (put_longs e b o f n) (o + 4 * n) (f n))
  | no p ↦
      get32_same e _ (put_longs e b o f n) (o + 4 * i)
        (λ j lo hi. put32-Outside e (put_longs e b o f n) (o + 4 * n) (f n) j (omega arith))
      ∙ get32-put_longs e b o f n i (omega arith)
]

-- The block that s5fs_put_fblk writes for a count and an array of addresses.
abbrev pub fblk : Endian → ℕ → (ℕ → ℕ) → Buf
fblk e n f = put_longs e (put16 e zeros fb_nfree n) fb_free f nicfree

pub fblk_nfree-fblk : (e : Endian) (n : ℕ) (f : ℕ → ℕ) → n ≤ nicfree → fblk_nfree e (fblk e n f) ≡ n
unfolding fblk_nfree clamp_nfree
fblk_nfree-fblk e n f h = rw stored (ground arith)
  where
    stored : get16 e (fblk e n f) 0 ≡ n
    stored =
        get16_same e (fblk e n f) (put16 e zeros fb_nfree n) 0 (λ j lo hi.
          put_longs-Outside e (put16 e zeros fb_nfree n) fb_free f nicfree j (omega arith))
        ∙ omega (arith, get16-put16 e zeros 0 n)

pub fblk_free-fblk :
    (e : Endian) (n : ℕ) (f : ℕ → ℕ) (i : ℕ)
    → i < nicfree
    → f i < 2 ^ 32
    → fblk_free e (fblk e n f) i ≡ f i
unfolding fblk_free
fblk_free-fblk e n f i h small =
    omega (arith, get32-put_longs e (put16 e zeros fb_nfree n) fb_free f nicfree i h)

-- Both read the first 202 bytes of a block alone.
pub fblk_nfree_same :
    (e : Endian) (b c : Buf) → SameBytes b c 0 202 → fblk_nfree e b ≡ fblk_nfree e c
unfolding fblk_nfree
fblk_nfree_same e b c h = rw (get16_same e b c 0 (λ j lo hi. h j lo (omega arith)))

pub fblk_free_same :
    (e : Endian) (b c : Buf) (i : ℕ)
    → SameBytes b c 0 202
    → i < nicfree
    → fblk_free e b i ≡ fblk_free e c i
unfolding fblk_free
fblk_free_same e b c i h small =
    get32_same e b c (fb_free + 4 * i) (λ j lo hi. h j (omega arith) (omega arith))

pub fblk_nfree-le : (e : Endian) (b : Buf) → fblk_nfree e b ≤ nicfree
unfolding fblk_nfree clamp_nfree
fblk_nfree-le e b = ground arith
