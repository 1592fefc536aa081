-- ===== src/BlockMap/Tree.antt =====
-- A tree of indirect blocks in the file: what it takes for it to give the block numbers that
-- s5fs_build_ind was called with.
use s5fs.Base.{
  ℕ, zero, suc, ◌+◌, ◌-◌, ◌*◌, ◌/◌, ◌^◌, ◌≤◌, ◌<◌, ◌≡◌, refl, sym, ap, subst, ◌∙◌, ◌≢◌, ◌⊎◌, inl,
  inr, false, Option, none, some, List, ◌∷◌, arith, ltb, ◌==◌, if◌then◌else◌, Fresh, min, lt→ltb,
}
use s5fs.Endian.{Buf, get32, get32_same}
use s5fs.Image.{File, read_at, block, times_mono, read_at_lem}
use s5fs.Writer.{fail, rdblk, S5Fs, Op, ◌>>=◌, get_fblk, alloc}
use s5fs.BlockMap.{per_entry, ind_index, descend}
use s5fs.Inode.{Fsr, bread}
use s5fs.Inode.RoundTrip.{reader_of}
use s5fs.FreeList.Volume.{IsVolume, blocks}

-- How many blocks s5fs_build_ind takes for the entries from `e` on, and for a tree.
unfoldable pub needs : (ℕ → ℕ) → ℕ → ℕ → ℕ → ℕ → ℕ
needs child per count zero e = 0
needs child per count (suc k) e =
    if ltb (e * per) count
    then child (min (count - e * per) per) + needs child per count k (e + 1)
    else 0

unfoldable pub need : ℕ → ℕ → ℕ → ℕ
need n zero count = 0
need n (suc l) count = 1 + needs (need n l) (per_entry n l) count n 0

pub reader_of-alloc :
    (fs fs' : S5Fs) (x : ℕ) → alloc fs ≡ some (x, fs') → reader_of fs' ≡ reader_of fs
unfolding alloc get_fblk rdblk fail
reader_of-alloc fs fs' x e = ground (arith, e)

pub bind :
    {A B : Type 0} (m : Op A) (k : A → Op B) (a : A) (fs fs' : S5Fs)
    → m fs ≡ some (a, fs')
    → (m >>= k) fs ≡ k a fs'
bind {B} m k a fs fs' e =
    ap (λ o. elim o as (λ x. Option (B × S5Fs)) [ none ↦ none | some (c, g) ↦ k c g ]) e

-- An index below the capacity of a tree goes through the entry that covers it.
abbrev pub Passage : ℕ → ℕ → ℕ → ℕ → Type 0
Passage n l m j =
    j < per_entry n (suc l)
    → (ind_index n (m * per_entry n (suc l) + j) (suc l) ≡ j / per_entry n l)
      × (j / per_entry n l < n)
      × (j / per_entry n l * per_entry n l ≤ j)
      × (j < j / per_entry n l * per_entry n l + per_entry n l)
      × (m * per_entry n (suc l) + j
          ≡ (m * n + j / per_entry n l) * per_entry n l + (j - j / per_entry n l * per_entry n l))

abbrev pub IsFan : ℕ → Type 0
IsFan n = (n ≡ 128) ⊎ ((n ≡ 256) ⊎ (n ≡ 512))

pub three : (P : ℕ → Type 0) (n : ℕ) → P 128 → P 256 → P 512 → IsFan n → P n
three P n a b c (inl e) = subst P (sym e) a
three P n a b c (inr (inl e)) = subst P (sym e) b
three P n a b c (inr (inr e)) = subst P (sym e) c

pub path : (n l m j : ℕ) → IsFan n → l < 3 → Passage n l m j
unfolding ind_index per_entry
path n zero m j fan h =
    three (λ n. Passage n 0 m j) n
      (λ lt. (omega arith, omega arith, omega arith, omega arith, omega arith))
      (λ lt. (omega arith, omega arith, omega arith, omega arith, omega arith))
      (λ lt. (omega arith, omega arith, omega arith, omega arith, omega arith)) fan
path n (suc zero) m j fan h =
    three (λ n. Passage n 1 m j) n
      (λ lt. (omega arith, omega arith, omega arith, omega arith, omega arith))
      (λ lt. (omega arith, omega arith, omega arith, omega arith, omega arith))
      (λ lt. (omega arith, omega arith, omega arith, omega arith, omega arith)) fan
path n (suc (suc zero)) m j fan h =
    three (λ n. Passage n 2 m j) n
      (λ lt. (omega arith, omega arith, omega arith, omega arith, omega arith))
      (λ lt. (omega arith, omega arith, omega arith, omega arith, omega arith))
      (λ lt. (omega arith, omega arith, omega arith, omega arith, omega arith)) fan
path n (suc (suc (suc l))) m j fan h = absurd (omega arith)

pub per_pos : (n l : ℕ) → IsFan n → l < 4 → 0 < per_entry n l
unfolding per_entry
per_pos n zero fan h = omega arith
per_pos n (suc zero) fan h =
    three (λ n. 0 < per_entry n 1) n (omega arith) (omega arith) (omega arith) fan
per_pos n (suc (suc zero)) fan h =
    three (λ n. 0 < per_entry n 2) n (omega arith) (omega arith) (omega arith) fan
per_pos n (suc (suc (suc zero))) fan h =
    three (λ n. 0 < per_entry n 3) n (omega arith) (omega arith) (omega arith) fan
per_pos n (suc (suc (suc (suc l)))) fan h = absurd (omega arith)

module _ (r : Fsr) (uninit : Buf) where
  abbrev pub held : File → ℕ → Buf
  held f = block f r.base r.prof.bsize

  -- The file holds the whole volume.
  abbrev pub Whole : File → Type 0
  Whole f = r.base + r.fsize * r.prof.bsize ≤ f.size

  -- The block is in the one list and no more in the other.
  abbrev pub Taken : List ℕ → List ℕ → ℕ → Type 0
  Taken xs ys y = (Fresh y xs → ⊥) × Fresh y ys

  abbrev pub Agrees : List ℕ → List ℕ → File → File → Type 0
  Agrees xs ys fd f = (y i : ℕ) → Taken xs ys y → i < r.prof.bsize → held f y i ≡ held fd y i

  -- In each file that agrees on the blocks taken, the tree at `b` gives the numbers of `da`.
  abbrev pub Tree : ℕ → List ℕ → List ℕ → File → ℕ → (ℕ → ℕ) → ℕ → Type 0
  Tree l xs ys fd b da count =
      (f : File)
      → Whole f
      → Agrees xs ys fd f
      → (m j : ℕ) → j < count
      → descend r f uninit (m * per_entry r.prof.nindir l + j) l b ≡ da j

  -- An operation that takes blocks from the free list, and writes to those at most.
  pub record Step (fs fs' : S5Fs) (xs ys : List ℕ) : Type 0 where
    pub volume : IsVolume fs' ys
    pub reader : reader_of fs' ≡ r
    pub kept : (y : ℕ) → Fresh y xs → Fresh y ys
    pub other : (y i : ℕ) → Fresh y xs → i < r.prof.bsize → held fs'.fd y i ≡ held fs.fd y i

  pub Step-refl : (fs : S5Fs) (xs : List ℕ) → IsVolume fs xs → reader_of fs ≡ r → Step fs fs xs xs
  Step-refl fs xs v e = record { volume = v; reader = e; kept = λ y h. h; other = λ y i h l. refl }

  pub Step-trans :
      (a b c : S5Fs) (xs ys zs : List ℕ) → Step a b xs ys → Step b c ys zs → Step a c xs zs
  Step-trans a b c xs ys zs s t = record {
    volume = t.volume;
    reader = t.reader;
    kept = λ y h. t.kept y (s.kept y h);
    other = λ y i h l. t.other y i (s.kept y h) l ∙ s.other y i h l;
  }

  -- A tree stays while others are built behind it.
  pub Tree-Step :
      (l : ℕ) (xs ys zs : List ℕ) (fs fs' : S5Fs) (b : ℕ) (da : ℕ → ℕ) (count : ℕ)
      → Tree l xs ys fs.fd b da count
      → Step fs fs' ys zs
      → Tree l xs zs fs'.fd b da count
  Tree-Step l xs ys zs fs fs' b da count t s f whole same =
      t f whole (λ y i taken h. same y i (taken.0, s.kept y taken.1) h ∙ s.other y i taken.1 h)

  -- A longer list than the one that the tree began with.
  pub Tree-more :
      (l : ℕ) (ws xs ys : List ℕ) (fd : File) (b : ℕ) (da : ℕ → ℕ) (count : ℕ)
      → ((y : ℕ) → Fresh y ws → Fresh y xs)
      → Tree l xs ys fd b da count
      → Tree l ws ys fd b da count
  Tree-more l ws xs ys fd b da count kept t f whole same =
      t f whole (λ y i taken h. same y i ((λ fresh. taken.0 (kept y fresh)), taken.1) h)

  pub held-eq : (fs : S5Fs) → reader_of fs ≡ r → held fs.fd ≡ blocks fs
  held-eq fs e = ap (λ q. block fs.fd q.base q.prof.bsize) (sym e)

  -- A step of the walk down, at a block with the bytes of `blk`.
  pub descend_into :
      (f : File) (x idx l k : ℕ) (blk : Buf)
      → Whole f
      → 4 * r.prof.nindir ≡ r.prof.bsize
      → x < r.fsize
      → 0 < x
      → x < 2 ^ 32
      → ((i : ℕ) → i < r.prof.bsize → held f x i ≡ blk i)
      → ind_index r.prof.nindir idx (suc l) ≡ k
      → k < r.prof.nindir
      → descend r f uninit idx (suc l) x ≡ descend r f uninit idx l (get32 r.bo blk (4 * k))
  unfolding descend bread
  descend_into f x idx l k blk whole wide inside pos narrow same digit small =
      let bsize : ℕ = r.prof.bsize in
      let off : ℕ = r.base + x * bsize in
      let buf : Buf = λ i. if ltb i bsize then f.byte (off + i) else uninit i in
      let fits : off + bsize ≤ f.size =
        omega (arith, whole, times_mono (x + 1) r.fsize bsize (omega arith)) in
      let read : bread r f x uninit ≡ some buf =
        ap (λ y. read_at f (r.base + y * bsize) bsize uninit) (omega (arith, narrow))
        ∙ read_at_lem f off bsize uninit fits in
      let present : (x == 0) ≡ false = ground arith in
      let entry : get32 r.bo buf (4 * ind_index r.prof.nindir idx (suc l))
          ≡ get32 r.bo blk (4 * k) =
        ap (λ d. get32 r.bo buf (4 * d)) digit
        ∙ get32_same r.bo buf blk (4 * k)
            (λ i lo hi. rw (lt→ltb i bsize (omega arith)) (same i (omega arith))) in
      rw (present, descend) (rw read (ap (descend r f uninit idx l) entry))

  -- A block over trees.
  pub root_tree :
      (l : ℕ) (da : ℕ → ℕ) (count : ℕ) (xs ys : List ℕ) (fd fd' : File) (x : ℕ) (blk : Buf)
      → IsFan r.prof.nindir
      → 4 * r.prof.nindir ≡ r.prof.bsize
      → l < 3
      → count ≤ per_entry r.prof.nindir (suc l)
      → x < r.fsize
      → 0 < x
      → x < 2 ^ 32
      → Fresh x xs
      → Fresh x ys
      → ((i : ℕ) → i < r.prof.bsize → held fd' x i ≡ blk i)
      → ((y i : ℕ) → y ≢ x → i < r.prof.bsize → held fd' y i ≡ held fd y i)
      → ((c : ℕ)
          → c < r.prof.nindir
          → c * per_entry r.prof.nindir l < count
          → Tree l xs ys fd
              (get32 r.bo blk (4 * c))
              (λ j. da (c * per_entry r.prof.nindir l + j))
              (min (count - c * per_entry r.prof.nindir l) (per_entry r.prof.nindir l)))
      → Tree (suc l) (x ∷ xs) ys fd' x da count
  root_tree l da count xs ys fd fd' x blk fan wide h within inside pos narrow new_x new_y at_x
        others entries f whole same m j lt =
      let n : ℕ = r.prof.nindir in
      let per : ℕ = per_entry n l in
      let c : ℕ = j / per in
      let (digit, small, low, high, index) = path n l m j fan h (omega arith) in
      let own : (i : ℕ) → i < r.prof.bsize → held f x i ≡ blk i =
        λ i ib. same x i ((λ fresh. fresh.0 refl), new_y) ib ∙ at_x i ib in
      let rest : Agrees xs ys fd f = λ y i taken ib.
        same y i ((λ fresh. taken.0 fresh.1), taken.1) ib
        ∙ others y i (λ e. taken.0 (subst (λ z. Fresh z xs) (sym e) new_x)) ib in
      descend_into f x (m * per_entry n (suc l) + j) l c blk whole wide inside pos narrow own digit
        small
      ∙ ap (λ idx. descend r f uninit idx l (get32 r.bo blk (4 * c))) index
      ∙ entries c small (omega arith) f whole rest (m * n + c) (j - c * per) (omega arith)
      ∙ ap da (omega arith)
