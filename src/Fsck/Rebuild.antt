-- ===== src/Fsck/Rebuild.antt =====
-- The repair of the free list is the writer's: rep_bfree does what s5fs_bfree does.
use s5fs.Base.{
  All-mono, ℕ, zero, suc, ◌+◌, ◌-◌, ◌%◌, ◌≤◌, ◌<◌, ◌≡◌, refl, sym, ap, subst, ◌∙◌, ◌≢◌, inl, inr,
  Bool, true, false, none, List, [], ◌∷◌, arith, ℕ_discrete, ◌==◌, if◌then◌else◌, Bool-cases, All,
  Fresh,
}
use s5fs.Writer.{wtblk, zeros, S5Fs, put_fblk, bfree}
use s5fs.Fsck.Agrees.{IsReadable}
use s5fs.Fsck.Check.{Ck, refs, ck_wtblk}
use s5fs.Fsck.Salvage.{Salvage, rep_bfree, rebuild, salvage}
use s5fs.FreeList.Volume.{IsVolume}
use s5fs.FreeList.Stack.{bfree-cons}

-- The writer's handle with the same image, limits and cache. The fields that s5fs_bfree does not
-- look at are empty.
abbrev pub as_handle : Ck × Salvage → S5Fs
as_handle (c, s) = record {
  fd = c.fd;
  uninit = zeros;
  base = c.base;
  sysv = false;
  error = none;
  bo = c.bo;
  prof = c.prof;
  s_isize = c.isize;
  s_fsize = c.fsize;
  s_nfree = s.nf;
  s_free = s.fr;
  s_ninode = 0;
  s_inode = zeros;
  s_tfree = s.tf;
  s_tinode = 0;
  s_m = 0;
  s_n = 0;
  s_time = 0;
  ino = 0;
  adr = zeros;
}

-- The checker's rep_bfree and the writer's s5fs_bfree are the same operation: on the same image,
-- limits and cache they leave the same image, the same cache and the same count of free blocks,
-- whatever the block, also where the cache is full and goes to the disk.
pub rep_bfree-bfree :
    (bno : ℕ) (s : Ck × Salvage) → as_handle (rep_bfree bno s) ≡ bfree bno (as_handle s)
unfolding rep_bfree bfree put_fblk ck_wtblk wtblk
rep_bfree-bfree bno (c, s) = ground arith

-- The repair changes the image and nothing else of the checker's state.
pub record SameCk (c c' : Ck) : Type 0 where
  pub bo : c'.bo ≡ c.bo
  pub base : c'.base ≡ c.base
  pub prof : c'.prof ≡ c.prof
  pub isize : c'.isize ≡ c.isize
  pub fsize : c'.fsize ≡ c.fsize
  pub use_map : c'.use_map ≡ c.use_map
  pub errors : c'.errors ≡ c.errors

rep_bfree-SameCk : (bno : ℕ) (s : Ck × Salvage) → SameCk s.0 (rep_bfree bno s).0
unfolding rep_bfree ck_wtblk
rep_bfree-SameCk bno s = record {
  bo = ground arith;
  base = ground arith;
  prof = ground arith;
  isize = ground arith;
  fsize = ground arith;
  use_map = ground arith;
  errors = ground arith;
}

SameCk-trans : {a b c : Ck} → SameCk a b → SameCk b c → SameCk a c
SameCk-trans p q = record {
  bo = q.bo ∙ p.bo;
  base = q.base ∙ p.base;
  prof = q.prof ∙ p.prof;
  isize = q.isize ∙ p.isize;
  fsize = q.fsize ∙ p.fsize;
  use_map = q.use_map ∙ p.use_map;
  errors = q.errors ∙ p.errors;
}

pub SameCk-refl : (c : Ck) → SameCk c c
SameCk-refl c = record {
  bo = refl;
  base = refl;
  prof = refl;
  isize = refl;
  fsize = refl;
  use_map = refl;
  errors = refl;
}

-- The numbers from `lo` on, `n` of them, without a reference, in ascending order, in front of `xs`.
abbrev unused : (ℕ → ℕ) → ℕ → ℕ → List ℕ → List ℕ
unused u zero lo xs = xs
unused u (suc n) lo xs = unused u n lo (if u (lo + n) % 128 == 0 then (lo + n) ∷ xs else xs)

unused-Fresh :
    (u : ℕ → ℕ) (n lo i : ℕ) (xs : List ℕ)
    → Fresh i xs
    → (lo ≤ i → i < lo + n → u i % 128 ≢ 0)
    → Fresh i (unused u n lo xs)
unused-Fresh u zero lo i xs fresh h = fresh
unused-Fresh u (suc n) lo i xs fresh h =
    unused-Fresh u n lo i (if u (lo + n) % 128 == 0 then (lo + n) ∷ xs else xs)
      (elim (Bool-cases (u (lo + n) % 128 == 0)) [
        | inl e ↦ rw e (λ p. h (omega arith) (omega arith) (ground arith), fresh)
        | inr e ↦ rw e fresh
      ])
      (λ low lt. h low (omega arith))

Fresh-tail : (b : Bool) (i x : ℕ) (xs : List ℕ) → Fresh i (if b then x ∷ xs else xs) → Fresh i xs
Fresh-tail true i x xs h = h.1
Fresh-tail false i x xs h = h

unused-keeps : (u : ℕ → ℕ) (n lo i : ℕ) (xs : List ℕ) → Fresh i (unused u n lo xs) → Fresh i xs
unused-keeps u zero lo i xs h = h
unused-keeps u (suc n) lo i xs h =
    Fresh-tail (u (lo + n) % 128 == 0) i (lo + n) xs
      (unused-keeps u n lo i (if u (lo + n) % 128 == 0 then (lo + n) ∷ xs else xs) h)

zero_test : {x : ℕ} → x ≡ 0 → (x == 0) ≡ true
zero_test e = ground (arith, e)

unused-lists :
    (u : ℕ → ℕ) (n lo i : ℕ) (xs : List ℕ)
    → Fresh i (unused u n lo xs)
    → lo ≤ i
    → i < lo + n
    → u i % 128 ≢ 0
unused-lists u zero lo i xs h low lt e = absurd (omega arith)
unused-lists u (suc n) lo i xs h low lt e = elim (ℕ_discrete i (lo + n)) [
  | no ne ↦ unused-lists u n lo i _ h low (omega arith) e
  | yes p ↦
      let zero_refs : (u (lo + n) % 128 == 0) ≡ true = rw p at (zero_test e) in
      let head : Fresh i ((lo + n) ∷ xs) =
        subst (λ b. Fresh i (if b then (lo + n) ∷ xs else xs)) zero_refs
          (unused-keeps u n lo i (if u (lo + n) % 128 == 0 then (lo + n) ∷ xs else xs) h) in
      head.0 p
]

above-Fresh : (k : ℕ) (xs : List ℕ) → All (λ x. k < x) xs → Fresh k xs
above-Fresh k xs h = All-mono xs (λ x lt e. omega arith) h

-- A round of the repair that finds a block without references.
rebuild-push :
    (x : ℕ) (s : Ck × Salvage) (xs : List ℕ)
    → IsVolume (as_handle s) xs
    → s.0.isize ≤ x
    → x < s.0.fsize
    → All (λ y. x < y) xs
    → IsVolume (as_handle (rep_bfree x s)) (x ∷ xs)
rebuild-push x s xs v lo hi above =
    subst (λ fs. IsVolume fs (x ∷ xs)) (sym (rep_bfree-bfree x s))
      (bfree-cons (as_handle s) x xs v (lo, hi) (above-Fresh x xs above)).0

rebuild_free :
    (n lo : ℕ) (s : Ck × Salvage)
    → (refs s.0 (lo + n) == 0) ≡ true
    → rebuild (suc n) lo s ≡ rebuild n lo (rep_bfree (lo + n) s)
unfolding rebuild
rebuild_free n lo s e = rw e refl

rebuild_used :
    (n lo : ℕ) (s : Ck × Salvage)
    → (refs s.0 (lo + n) == 0) ≡ false
    → rebuild (suc n) lo s ≡ rebuild n lo s
unfolding rebuild
rebuild_used n lo s e = rw e refl

unused_if :
    (u : ℕ → ℕ) (n lo : ℕ) (xs : List ℕ) (b : Bool)
    → (u (lo + n) % 128 == 0) ≡ b
    → unused u (suc n) lo xs ≡ unused u n lo (if b then (lo + n) ∷ xs else xs)
unused_if u n lo xs b e = ap (λ k. unused u n lo (if k then (lo + n) ∷ xs else xs)) e

-- What `n` rounds of the repair down to block `lo` come to, in front of `xs`.
record Rebuilt (u : ℕ → ℕ) (n lo : ℕ) (s s' : Ck × Salvage) (xs : List ℕ) : Type 0 where
  volume : IsVolume (as_handle s') (unused u n lo xs)
  same : SameCk s.0 s'.0

rebuild-Rebuilt :
    (u : ℕ → ℕ) (n lo : ℕ) (s : Ck × Salvage) (xs : List ℕ)
    → s.0.use_map ≡ u
    → IsVolume (as_handle s) xs
    → s.0.isize ≤ lo
    → lo + n ≤ s.0.fsize
    → All (λ y. lo + n ≤ y) xs
    → Rebuilt u n lo s (rebuild n lo s) xs
unfolding rebuild
rebuild-Rebuilt u zero lo s xs m v low hi above = record { volume = v; same = SameCk-refl s.0 }
rebuild-Rebuilt u (suc n) lo s xs m v low hi above = elim (Bool-cases (refs s.0 (lo + n) == 0)) [
  | inl e ↦
      let same = rep_bfree-SameCk (lo + n) s in
      let rest =
        rebuild-Rebuilt u n lo (rep_bfree (lo + n) s) ((lo + n) ∷ xs) (same.use_map ∙ m)
          (rebuild-push (lo + n) s xs v (omega arith) (omega arith)
            (All-mono xs (λ y h. omega arith) above))
          (omega (arith, same.isize)) (omega (arith, same.fsize))
          (omega arith, All-mono xs (λ y h. omega arith) above) in
      rw (rebuild_free n lo s e) record {
        volume =
            rw (unused_if u n lo xs true (ap (λ f. f (lo + n) % 128 == 0) (sym m) ∙ e)) rest.volume;
        same = SameCk-trans same rest.same;
      }
  | inr e ↦
      let rest =
        rebuild-Rebuilt u n lo s xs m v low (omega arith)
          (All-mono xs (λ y h. omega arith) above) in
      rw (rebuild_used n lo s e) record {
        volume =
            rw (unused_if u n lo xs false (ap (λ f. f (lo + n) % 128 == 0) (sym m) ∙ e))
              rest.volume;
        same = rest.same;
      }
]

start_IsVolume :
    (uninit : ℕ → ℕ) (c : Ck)
    → IsReadable c
    → IsVolume (as_handle (rep_bfree 0 (c, record { fr = uninit; nf = 0; tf = 0 }))) []
unfolding rep_bfree
start_IsVolume uninit c r = record {
  mounted = r;
  chain = (ground arith, ground arith);
  range = tt;
  distinct = tt;
  counted = ground arith;
}

-- What a repair of the free list leaves: a consistent volume, as the writer sees it, whose free list
-- is `xs`, and whose free blocks are the data blocks without a reference.
pub record IsSalvaged (c : Ck) (s : Ck × Salvage) (xs : List ℕ) : Type 0 where
  pub volume : IsVolume (as_handle s) xs
  pub same : SameCk c s.0
  pub free : (i : ℕ) → c.isize ≤ i → i < c.fsize → Fresh i xs → refs c i ≢ 0
  pub used : (i : ℕ) → refs c i ≢ 0 → Fresh i xs

-- On an image that holds the whole volume, with the i-list inside it, whatever its free list was and whatever the array of
-- addresses held, the repair builds a free list under which the volume is consistent, as the writer
-- takes it, and which holds each data block without a reference once and no other block. It changes
-- nothing of the checker's state but the image.
pub salvage-IsSalvaged :
    (uninit : ℕ → ℕ) (c : Ck)
    → IsReadable c
    → c.isize ≤ c.fsize
    → (xs : List ℕ) × IsSalvaged c (salvage uninit c) xs
unfolding salvage
salvage-IsSalvaged uninit c r inside =
    let start = rep_bfree-SameCk 0 (c, record { fr = uninit; nf = 0; tf = 0 }) in
    let built =
      rebuild-Rebuilt c.use_map (c.fsize - c.isize) c.isize
        (rep_bfree 0 (c, record { fr = uninit; nf = 0; tf = 0 })) [] start.use_map
        (start_IsVolume uninit c r) (omega (arith, start.isize))
        (omega (arith, start.fsize, inside)) tt in
    (
      unused c.use_map (c.fsize - c.isize) c.isize [],
      record {
        volume = built.volume;
        same = SameCk-trans start built.same;
        free = λ i low hi fresh.
            unused-lists c.use_map (c.fsize - c.isize) c.isize i [] fresh low (omega arith);
        used = λ i ne. unused-Fresh c.use_map (c.fsize - c.isize) c.isize i [] tt (λ p q. ne);
      },
    )
