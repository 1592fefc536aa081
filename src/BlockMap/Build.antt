-- ===== src/BlockMap/Build.antt =====
-- s5fs_build_ind builds a tree of indirect blocks that gives the numbers it was called with.
use s5fs.Base.{
  ℕ, zero, suc, ◌+◌, ◌-◌, ◌*◌, ◌^◌, ◌≤◌, ◌<◌, ◌≡◌, refl, sym, ap, subst, ◌∙◌, ◌≢◌, inl, inr, true,
  false, some, List, [], ◌∷◌, arith, ℕ_discrete, ltb, Bool-cases, length, Fresh, min,
}
use s5fs.Endian.{Buf, Endian, put32, get32, get32-put32, get32_same, put32-Outside}
use s5fs.Writer.{wtblk, zeros, S5Fs, Op, pure, do_op, ◌>>=◌, ◌>>◌, alloc}
use s5fs.BlockMap.{per_entry, descend, fill_entries, build_ind}
use s5fs.Inode.{Fsr}
use s5fs.Inode.RoundTrip.{reader_of}
use s5fs.FreeList.Volume.{IsVolume, blocks, written, wtblk_lem, written_self, written_other}
use s5fs.FreeList.Stack.{alloc-cons, wtblk-IsVolume}
use s5fs.BlockMap.Tree.{
  needs, need, bind, reader_of-alloc, IsFan, root_tree, per_pos, held-eq, held, Tree, Step,
  Step-refl, Step-trans, Tree-Step, Tree-more,
}
use s5fs.Image.{times_mono}

module _ (r : Fsr) (uninit : Buf) where
  -- What comes of a call: the block, the handle, and the free list that is left.
  pub record Built (l : ℕ) (da : ℕ → ℕ) (count : ℕ) (fs : S5Fs) (xs : List ℕ) : Type 0 where
    pub b : ℕ
    pub fs' : S5Fs
    pub ys : List ℕ
    pub run : build_ind l da count fs ≡ some (b, fs')
    pub step : Step r uninit fs fs' xs ys
    pub left : length ys + need r.prof.nindir l count ≡ length xs
    pub small : b < 2 ^ 32
    pub tree : Tree r uninit l xs ys fs'.fd b da count

  abbrev pub Builds : ℕ → Type 0
  Builds l =
      (da : ℕ → ℕ) (count : ℕ) (fs : S5Fs) (xs : List ℕ)
      → IsVolume fs xs
      → reader_of fs ≡ r
      → 0 < count
      → count ≤ per_entry r.prof.nindir l
      → need r.prof.nindir l count ≤ length xs
      → ((j : ℕ) → j < count → da j < 2 ^ 32)
      → Built l da count fs xs

  -- The entries from `e` on, `k` of them.
  record Filled (l : ℕ) (da : ℕ → ℕ) (count k e : ℕ) (blk : Buf) (fs : S5Fs) (xs : List ℕ)
      : Type 0 where
    blk' : Buf
    fs' : S5Fs
    ys : List ℕ
    run :
        fill_entries (build_ind l) r.bo (per_entry r.prof.nindir l) da count k e blk fs
        ≡ some (blk', fs')
    step : Step r uninit fs fs' xs ys
    left :
        length ys + needs (need r.prof.nindir l) (per_entry r.prof.nindir l) count k e ≡ length xs
    entries :
        (c : ℕ)
        → e ≤ c
        → c < e + k
        → c * per_entry r.prof.nindir l < count
        → Tree r uninit l xs ys fs'.fd
            (get32 r.bo blk' (4 * c))
            (λ j. da (c * per_entry r.prof.nindir l + j))
            (min (count - c * per_entry r.prof.nindir l) (per_entry r.prof.nindir l))
    low : (c : ℕ) → c < e → get32 r.bo blk' (4 * c) ≡ get32 r.bo blk (4 * c)

  apart :
      (bo : Endian) (blk : Buf) (c e b : ℕ)
      → c < e
      → get32 bo (put32 bo blk (4 * e) b) (4 * c) ≡ get32 bo blk (4 * c)
  apart bo blk c e b lt =
      get32_same bo (put32 bo blk (4 * e) b) blk (4 * c)
        (λ j lo hi. put32-Outside bo blk (4 * e) b j (inl (omega arith)))

  more_run :
      (l : ℕ) (da : ℕ → ℕ) (count k e : ℕ) (blk : Buf) (fs : S5Fs) (xs : List ℕ)
      (ch : Built l
        (λ j. da (e * per_entry r.prof.nindir l + j))
        (min (count - e * per_entry r.prof.nindir l) (per_entry r.prof.nindir l))
        fs
        xs)
      (rest : Filled l da count k (e + 1) (put32 r.bo blk (4 * e) ch.b) ch.fs' ch.ys)
      → ltb (e * per_entry r.prof.nindir l) count ≡ true
      → fill_entries (build_ind l) r.bo (per_entry r.prof.nindir l) da count (suc k) e blk fs
        ≡ some (rest.blk', rest.fs')
  unfolding fill_entries
  more_run l da count k e blk fs xs ch rest more =
      let per : ℕ = per_entry r.prof.nindir l in
      let child : Op ℕ = build_ind l (λ j. da (e * per + j)) (min (count - e * per) per) in
      let next : ℕ → Op Buf =
        λ b. fill_entries (build_ind l) r.bo per da count k (e + 1) (put32 r.bo blk (4 * e) b) in
      let turn : fill_entries (build_ind l) r.bo per da count (suc k) e blk fs
          ≡ (child >>= next) fs =
        rw (more, fill_entries) refl in
      turn ∙ bind child next ch.b fs ch.fs' ch.run ∙ rest.run

  fill :
      (l : ℕ) (da : ℕ → ℕ) (count k e : ℕ) (blk : Buf) (fs : S5Fs) (xs : List ℕ)
      → Builds l
      → 0 < per_entry r.prof.nindir l
      → IsVolume fs xs
      → reader_of fs ≡ r
      → needs (need r.prof.nindir l) (per_entry r.prof.nindir l) count k e ≤ length xs
      → ((j : ℕ) → j < count → da j < 2 ^ 32)
      → Filled l da count k e blk fs xs
  unfolding fill_entries needs
  fill l da count zero e blk fs xs build pos v same enough small = record {
    blk' = blk;
    fs' = fs;
    ys = xs;
    run = refl;
    step = Step-refl r uninit fs xs v same;
    left = omega arith;
    entries = λ c lo hi. absurd (omega arith);
    low = λ c lt. refl;
  }
  fill l da count (suc k) e blk fs xs build pos v same enough small =
      let per : ℕ = per_entry r.prof.nindir l in
      elim (Bool-cases (ltb (e * per) count)) [
        | inl more ↦
            let c0 : ℕ = min (count - e * per) per in
            let in_range : e * per < count = ground (arith, more) in
            let cost : needs (need r.prof.nindir l) per count (suc k) e
                ≡ need r.prof.nindir l c0 + needs (need r.prof.nindir l) per count k (e + 1) =
              rw (more, needs) refl in
            let ch : Built l (λ j. da (e * per + j)) c0 fs xs =
              build (λ j. da (e * per + j)) c0 fs xs v same (omega arith) (omega arith)
                (omega (arith, cost, enough)) (λ j lt. small (e * per + j) (omega arith)) in
            let rest : Filled l da count k (e + 1) (put32 r.bo blk (4 * e) ch.b) ch.fs' ch.ys =
              fill l da count k (e + 1) (put32 r.bo blk (4 * e) ch.b) ch.fs' ch.ys build pos
                ch.step.volume ch.step.reader (omega (arith, cost, enough, ch.left)) small in
            record {
              blk' = rest.blk';
              fs' = rest.fs';
              ys = rest.ys;
              run = more_run l da count k e blk fs xs ch rest more;
              step = Step-trans r uninit fs ch.fs' rest.fs' xs ch.ys rest.ys ch.step rest.step;
              left = omega (arith, cost, ch.left, rest.left);
              entries = λ c lo hi lt. elim (ℕ_discrete c e) [
                | yes at_e ↦
                    let first : get32 r.bo rest.blk' (4 * e) ≡ ch.b =
                      rest.low e (omega arith)
                      ∙ get32-put32 r.bo blk (4 * e) ch.b
                      ∙ omega (arith, ch.small) in
                    subst
                      (λ d.
                        Tree r uninit l xs rest.ys rest.fs'.fd (get32 r.bo rest.blk' (4 * d))
                          (λ j. da (d * per + j)) (min (count - d * per) per))
                      (sym at_e)
                      (subst
                        (λ b. Tree r uninit l xs rest.ys rest.fs'.fd b (λ j. da (e * per + j)) c0)
                        (sym first)
                        (Tree-Step r uninit l xs ch.ys rest.ys ch.fs' rest.fs' ch.b
                          (λ j. da (e * per + j)) c0 ch.tree rest.step))
                | no past ↦
                    Tree-more r uninit l xs ch.ys rest.ys rest.fs'.fd (get32 r.bo rest.blk' (4 * c))
                      (λ j. da (c * per + j)) (min (count - c * per) per) ch.step.kept
                      (rest.entries c (omega (arith, past)) (omega arith) lt)
              ];
              low = λ c lt. rest.low c (omega arith) ∙ apart r.bo blk c e ch.b lt;
            }
        | inr stop ↦ record {
          blk' = blk;
          fs' = fs;
          ys = xs;
          run = rw (stop, fill_entries) refl;
          step = Step-refl r uninit fs xs v same;
          left = rw (stop, needs) (omega arith);
          entries = λ c lo hi lt. absurd (omega (arith, times_mono e c per lo, leq stop));
          low = λ c lt. refl;
        }
      ]
    where
      leq : {a b : ℕ} → ltb a b ≡ false → b ≤ a
      leq h = ground (arith, h)

  -- A tree of a level more.
  module _ (fan : IsFan r.prof.nindir) (wide : 4 * r.prof.nindir ≡ r.prof.bsize) where
    build_next : (l : ℕ) → l < 3 → Builds l → Builds (suc l)
    unfolding build_ind need
    build_next l h build da count fs [] v same pos within enough small =
        absurd (omega (arith, enough))
    build_next l h build da count fs (x ∷ xs) v same pos within enough small =
        let n : ℕ = r.prof.nindir in
        let (fs1, got, v1, same_fd, limits) = alloc-cons fs x xs v in
        let same1 : reader_of fs1 ≡ r = reader_of-alloc fs fs1 x got ∙ same in
        let f : Filled l da count n 0 zeros fs1 xs =
          fill l da count n 0 zeros fs1 xs build (per_pos r.prof.nindir l fan (omega arith)) v1
            same1 (omega (arith, enough)) small in
        let fs2 : S5Fs = f.fs' in
        let fs3 : S5Fs = written fs2 x f.blk' in
        let size2 : fs2.s_fsize ≡ fs.s_fsize = ap (λ q. q.fsize) (f.step.reader ∙ sym same) in
        let inside : x < fs2.s_fsize = omega (arith, size2, (v.range.0).1) in
        let fresh : Fresh x f.ys = f.step.kept x v.distinct.0 in
        let wrote : wtblk x f.blk' fs2 ≡ fs3 =
          wtblk_lem fs2 x f.blk' f.step.volume.mounted inside in
        let wide2 : fs2.prof.bsize ≡ r.prof.bsize = ap (λ q. q.prof.bsize) f.step.reader in
        let below : x < r.fsize = omega (arith, inside, ap (λ q. q.fsize) f.step.reader) in
        let narrow : x < 2 ^ 32 = omega (arith, inside, f.step.volume.mounted.small) in
        let positive : 0 < x = omega (arith, (v.range.0).0, v.mounted.low) in
        let held3 : held r uninit fs3.fd ≡ blocks fs3 = held-eq r uninit fs3 f.step.reader in
        let held2 : held r uninit fs2.fd ≡ blocks fs2 = held-eq r uninit fs2 f.step.reader in
        let others : (y i : ℕ)
            → y ≢ x
            → i < r.prof.bsize
            → held r uninit fs3.fd y i ≡ held r uninit fs2.fd y i =
          λ y i ne ib.
            ap (λ d. d y i) held3
            ∙ written_other fs2 x f.blk' y i ne (omega (arith, ib, wide2))
            ∙ sym (ap (λ d. d y i) held2) in
        let full : ℕ → Buf → Op ℕ = λ b blk. do_op (wtblk b blk) >> pure b in
        let go : Fsr → ℕ → Op ℕ = λ q b.
          fill_entries (build_ind l) q.bo (per_entry q.prof.nindir l) da count q.prof.nindir 0 zeros
          >>= full b in
        let filled : Op Buf = fill_entries (build_ind l) r.bo (per_entry n l) da count n 0 zeros in
        let ran : build_ind (suc l) da count fs ≡ some (x, fs3) =
          bind alloc (go (reader_of fs)) x fs fs1 got
          ∙ ap (λ q. go q x fs1) same
          ∙ bind filled (full x) f.blk' fs1 fs2 f.run
          ∙ ap (λ q. some (x, q)) wrote in
        record {
          b = x;
          fs' = fs3;
          ys = f.ys;
          run = ran;
          step = record {
            volume =
                subst (λ q. IsVolume q f.ys) wrote
                  (wtblk-IsVolume fs2 x f.blk' f.ys f.step.volume inside fresh);
            reader = f.step.reader;
            kept = λ y h. f.step.kept y h.1;
            other = λ y i h ib.
                others y i h.0 ib ∙ f.step.other y i h.1 ib ∙ ap (λ d. held r uninit d y i) same_fd;
          };
          left = omega (arith, f.left);
          small = narrow;
          tree =
              root_tree r uninit l da count xs f.ys fs2.fd fs3.fd x f.blk' fan wide h within below
                positive narrow v.distinct.0 fresh
                (λ i ib.
                  ap (λ d. d x i) held3 ∙ written_self fs2 x f.blk' i (omega (arith, ib, wide2)))
                others (λ c lt. f.entries c (omega arith) (omega arith));
        }

    build_one : Builds zero
    unfolding build_ind need per_entry descend
    build_one da count fs xs v same pos within enough small =
        let one : count ≡ 1 = omega (arith, pos, within) in
        record {
          b = da 0;
          fs' = fs;
          ys = xs;
          run = refl;
          step = Step-refl r uninit fs xs v same;
          left = omega arith;
          small = small 0 pos;
          tree = λ f whole agrees m j lt. ap da (omega (arith, one));
        }

    -- s5fs_build_ind at each level, with blocks enough on the free list.
    pub builds : (l : ℕ) → l < 4 → Builds l
    builds zero h = build_one
    builds (suc l) h = build_next l (omega arith) (builds l (omega arith))
