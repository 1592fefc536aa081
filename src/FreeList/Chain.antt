-- ===== src/FreeList/Chain.antt =====
-- The list of blocks that a cache of addresses and the chain blocks behind it stand for.
use s5fs.Base.{
  refl, ◌+◌, ℕ, ◌-◌, ◌^◌, ◌≤◌, ◌<◌, ◌≡◌, ◌∙◌, List, [], ◌∷◌, All, ◌==◌, if◌then◌else◌, Bool-cases,
  inl, inr, ℕ_discrete, false, arith,
}
use s5fs.Endian.{Buf, Endian, SameBytes}
use s5fs.Layout.{nicfree}
use s5fs.Writer.{fblk_nfree, fblk_free}
use s5fs.FreeList.Fblk.{fblk_nfree_same, fblk_free_same, fblk_nfree-le}

module _ (e : Endian) where
  -- The cache that follows when the last of `n` entries, `x`, is handed out: at the first entry
  -- of the array, the one that block `x` holds.
  abbrev pub next_nfree : (ℕ → Buf) → ℕ → ℕ → ℕ
  next_nfree blk n x = if n == 1 then fblk_nfree e (blk x) else n - 1

  abbrev pub next_free : (ℕ → Buf) → ℕ → (ℕ → ℕ) → ℕ → ℕ → ℕ
  next_free blk n f x = if n == 1 then fblk_free e (blk x) else f

  -- `n` entries of `f`, over a disk with contents `blk`, stand for the blocks in the order in
  -- which they will be handed out. The list ends at an address 0.
  abbrev pub Chain : (ℕ → Buf) → ℕ → (ℕ → ℕ) → List ℕ → Type 0
  Chain blk n f [] = (n ≡ 1) × (f 0 ≡ 0)
  Chain blk n f (x ∷ xs) =
      (0 < n)
      × (n ≤ nicfree)
      × (f (n - 1) ≡ x)
      × (0 < x)
      × (x < 2 ^ 32)
      × Chain blk (next_nfree blk n x) (next_free blk n f x) xs

  pub Chain-size :
      (blk : ℕ → Buf) (n : ℕ) (f : ℕ → ℕ) (xs : List ℕ) → Chain blk n f xs → (0 < n) × (n ≤ nicfree)
  Chain-size blk n f [] c = omega arith
  Chain-size blk n f (x ∷ xs) c = (c.0, c.1)

  pub All-refl : (blk : ℕ → Buf) (xs : List ℕ) → All (λ x. SameBytes (blk x) (blk x) 0 202) xs
  All-refl blk [] = tt
  All-refl blk (x ∷ xs) = (λ j lo hi. refl, All-refl blk xs)

  -- Only the entries of the cache and the blocks in the list matter.
  pub Chain-same :
      (blk blk' : ℕ → Buf) (n : ℕ) (f g : ℕ → ℕ) (xs : List ℕ)
      → All (λ x. SameBytes (blk' x) (blk x) 0 202) xs
      → ((i : ℕ) → i < n → g i ≡ f i)
      → Chain blk n f xs
      → Chain blk' n g xs
  Chain-same blk blk' n f g [] same eq c = (c.0, eq 0 (omega arith) ∙ c.1)
  Chain-same blk blk' n f g (x ∷ xs) same eq c = (
    c.0,
    c.1,
    eq (n - 1) (omega arith) ∙ c.2,
    c.3,
    c.4,
    elim (Bool-cases (n == 1)) [
      | inl one ↦
          let rest : Chain blk (fblk_nfree e (blk x)) (fblk_free e (blk x)) xs = rw one at c.5 in
          rw (one, fblk_nfree_same e (blk' x) (blk x) same.0)
            (Chain-same blk blk' (fblk_nfree e (blk x)) (fblk_free e (blk x)) (fblk_free e (blk' x))
              xs same.1
              (λ i lt.
                fblk_free_same e (blk' x) (blk x) i same.0 (omega (arith, fblk_nfree-le e (blk x))))
              rest)
      | inr more ↦
          let rest : Chain blk (n - 1) f xs = rw more at c.5 in
          rw more (Chain-same blk blk' (n - 1) f g xs same.1 (λ i lt. eq i (omega arith)) rest)
    ],
  )

  -- Every entry of the cache is an address of 32 bits.
  pub Chain-small :
      (blk : ℕ → Buf) (n : ℕ) (f : ℕ → ℕ) (xs : List ℕ) (i : ℕ)
      → Chain blk n f xs
      → i < n
      → f i < 2 ^ 32
  Chain-small blk n f [] i c lt = let z : i ≡ 0 = omega arith in rw (z, c.1) (omega arith)
  Chain-small blk n f (x ∷ xs) i c lt = elim (ℕ_discrete i (n - 1)) [
    | yes p ↦ rw (p, c.2) c.4
    | no p ↦
        let more : (n == 1) ≡ false = ground arith in
        let rest : Chain blk (n - 1) f xs = rw more at c.5 in
        Chain-small blk (n - 1) f xs i rest (omega arith)
  ]

  -- One more entry in a cache that is not full.
  pub Chain-push :
      (blk : ℕ → Buf) (n : ℕ) (f : ℕ → ℕ) (x : ℕ) (xs : List ℕ)
      → 0 < n
      → n < nicfree
      → 0 < x
      → x < 2 ^ 32
      → Chain blk n f xs
      → Chain blk (n + 1) (λ i. if i == n then x else f i) (x ∷ xs)
  Chain-push blk n f x xs lo hi pos small c =
      let more : (n + 1 == 1) ≡ false = ground arith in
      let top : n + 1 - 1 ≡ n = omega arith in
      (
        omega arith,
        omega arith,
        ground arith,
        pos,
        small,
        rw (more, top)
            (Chain-same blk blk n f (λ i. if i == n then x else f i) xs (All-refl blk xs)
              (λ i lt. ground arith) c),
      )
