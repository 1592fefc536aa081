-- ===== src/BlockMap/Levels.antt =====
-- s5fs_setblocks lays down the map that bmap reads.
use s5fs.Base.{
  ℕ, zero, suc, ◌+◌, ◌-◌, ◌*◌, ◌^◌, ◌≤◌, ◌<◌, ◌≡◌, refl, ap, ◌∙◌, inl, inr, Bool, true, false, some,
  List, arith, ltb, ◌==◌, if◌then◌else◌, Bool-cases, length, min, lt→ltb,
}
use s5fs.Layout.{level_cap}
use s5fs.Endian.{Buf}
use s5fs.Image.{File}
use s5fs.Writer.{S5Fs, Op, pure, ◌>>=◌}
use s5fs.BlockMap.{per_entry, descend, build_ind, lbn_route, bmap, set_addr, map_level, map_levels}
use s5fs.Inode.{Inode, Fsr}
use s5fs.Inode.RoundTrip.{reader_of}
use s5fs.FreeList.Volume.{IsVolume}
use s5fs.BlockMap.Tree.{
  need, bind, IsFan, three, per_pos, Whole, Agrees, Step, Step-refl, Step-trans, Tree-Step,
}
use s5fs.BlockMap.Build.{Built, builds}

-- How many blocks the levels from `level` on take for `rest` numbers, and how many they can map.
unfoldable pub need_levels : ℕ → ℕ → ℕ → ℕ → ℕ
need_levels n zero level rest = 0
need_levels n (suc k) level rest =
    if rest == 0
    then 0
    else need n level (min rest (level_cap n level))
      + need_levels n k (level + 1) (rest - min rest (level_cap n level))

unfoldable pub room : ℕ → ℕ → ℕ → ℕ
room n zero level = 0
room n (suc k) level = level_cap n level + room n k (level + 1)

-- The levels from `level` on, as fsr_lbn_route goes through them.
unfoldable pub lookup : Fsr → File → Buf → (ℕ → ℕ) → ℕ → ℕ → ℕ → ℕ
lookup r f uninit addr zero level q = 0
lookup r f uninit addr (suc k) level q =
    if ltb q (level_cap r.prof.nindir level)
    then descend r f uninit q level (addr (r.prof.laddr + level - 1))
    else lookup r f uninit addr k (level + 1) (q - level_cap r.prof.nindir level)

pub level_cap-per_entry : (n l : ℕ) → IsFan n → 0 < l → l < 4 → level_cap n l ≡ per_entry n l
unfolding level_cap per_entry
level_cap-per_entry n zero fan lo hi = absurd (omega arith)
level_cap-per_entry n (suc zero) fan lo hi =
    three (λ n. level_cap n 1 ≡ per_entry n 1) n refl refl refl fan
level_cap-per_entry n (suc (suc zero)) fan lo hi =
    three (λ n. level_cap n 2 ≡ per_entry n 2) n refl refl refl fan
level_cap-per_entry n (suc (suc (suc zero))) fan lo hi =
    three (λ n. level_cap n 3 ≡ per_entry n 3) n refl refl refl fan
level_cap-per_entry n (suc (suc (suc (suc l)))) fan lo hi = absurd (omega arith)

pub bmap-direct :
    (r : Fsr) (f : File) (uninit : Buf) (addr : ℕ → ℕ) (lbn : ℕ)
    → lbn < r.prof.laddr
    → bmap r f uninit addr lbn ≡ addr lbn
unfolding bmap lbn_route descend
bmap-direct r f uninit addr lbn lt = rw (lt→ltb lbn r.prof.laddr lt, bmap) refl

pub bmap-lookup :
    (r : Fsr) (f : File) (uninit : Buf) (addr : ℕ → ℕ) (lbn : ℕ)
    → r.prof.laddr ≤ lbn
    → bmap r f uninit addr lbn ≡ lookup r f uninit addr 3 1 (lbn - r.prof.laddr)
unfolding bmap lbn_route lookup
bmap-lookup r f uninit addr lbn past =
    let n : ℕ = r.prof.nindir in
    let l1 : ℕ = lbn - r.prof.laddr in
    let l2 : ℕ = l1 - level_cap n 1 in
    let l3 : ℕ = l2 - level_cap n 2 in
    let direct : ltb lbn r.prof.laddr ≡ false = ground (arith, past) in
    elim (Bool-cases (ltb l1 (level_cap n 1))) [
      | inl e1 ↦
          rw (direct, bmap) (rw e1 (ap (λ s. descend r f uninit l1 1 (addr s)) (omega arith)))
      | inr e1 ↦ elim (Bool-cases (ltb l2 (level_cap n 2))) [
        | inl e2 ↦
            rw (direct, bmap)
              (rw e1 (rw e2 (ap (λ s. descend r f uninit l2 2 (addr s)) (omega arith))))
        | inr e2 ↦ elim (Bool-cases (ltb l3 (level_cap n 3))) [
          | inl e3 ↦
              rw (direct, bmap)
                (rw e1 (rw e2 (rw e3 (ap (λ s. descend r f uninit l3 3 (addr s)) (omega arith)))))
          | inr e3 ↦ rw (direct, bmap) (rw e1 (rw e2 (rw e3 refl)))
        ]
      ]
    ]

level_run :
    (r : Fsr) (level : ℕ) (da : ℕ → ℕ) (rest b : ℕ) (i : Inode) (fs fs' : S5Fs)
    → reader_of fs ≡ r
    → build_ind level da (min rest (level_cap r.prof.nindir level)) fs ≡ some (b, fs')
    → map_level level (fs.prof.laddr + level - 1) da rest i fs
      ≡ some
          ((min rest (level_cap r.prof.nindir level), set_addr i (r.prof.laddr + level - 1) b), fs')
unfolding map_level
level_run r level da rest b i fs fs' same built =
    let next : Fsr → ℕ → Op (ℕ × Inode) = λ q b.
      pure (min rest (level_cap q.prof.nindir level), set_addr i (q.prof.laddr + level - 1) b) in
    let go : Fsr → Op (ℕ × Inode) =
      λ q. build_ind level da (min rest (level_cap q.prof.nindir level)) >>= next q in
    ap (λ q. go q fs) same
    ∙ bind (build_ind level da (min rest (level_cap r.prof.nindir level))) (next r) b fs fs' built

levels_run :
    (r : Fsr) (k level : ℕ) (da : ℕ → ℕ) (rest b : ℕ) (i : Inode) (fs fs' : S5Fs)
    → reader_of fs ≡ r
    → (rest == 0) ≡ false
    → build_ind level da (min rest (level_cap r.prof.nindir level)) fs ≡ some (b, fs')
    → (let c : ℕ = min rest (level_cap r.prof.nindir level) in
        map_levels (suc k) level da rest i fs
        ≡ map_levels k
            (level + 1)
            (λ q. da (c + q))
            (rest - c)
            (set_addr i (r.prof.laddr + level - 1) b)
            fs')
unfolding map_levels
levels_run r k level da rest b i fs fs' same more built =
    let next : ℕ × Inode → Op (Bool × Inode) =
      λ p. map_levels k (level + 1) (λ q. da (p.0 + q)) (rest - p.0) p.1 in
    let turn : map_levels (suc k) level da rest i fs
        ≡ (map_level level (fs.prof.laddr + level - 1) da rest i >>= next) fs =
      rw (more, map_levels) refl in
    turn
    ∙ bind (map_level level (fs.prof.laddr + level - 1) da rest i) next
        (min rest (level_cap r.prof.nindir level), set_addr i (r.prof.laddr + level - 1) b) fs fs'
        (level_run r level da rest b i fs fs' same built)

module _ (r : Fsr) (uninit : Buf) (fan : IsFan r.prof.nindir)
    (wide : 4 * r.prof.nindir ≡ r.prof.bsize) where
  -- What comes of the levels from `level` on.
  pub record Leveled (k level : ℕ) (da : ℕ → ℕ) (rest : ℕ) (i : Inode) (fs : S5Fs) (xs : List ℕ)
      : Type 0 where
    pub i' : Inode
    pub fs' : S5Fs
    pub ys : List ℕ
    pub run : map_levels k level da rest i fs ≡ some ((true, i'), fs')
    pub step : Step r uninit fs fs' xs ys
    pub left : length ys + need_levels r.prof.nindir k level rest ≡ length xs
    pub low : (s : ℕ) → s < r.prof.laddr + level - 1 → i'.addr s ≡ i.addr s
    pub found :
        (f : File)
        → Whole r uninit f
        → Agrees r uninit xs ys fs'.fd f
        → (q : ℕ) → q < rest
        → lookup r f uninit i'.addr k level q ≡ da q

  from_zero : (per q : ℕ) → q ≡ 0 * per + q
  from_zero per q = omega arith

  other_slot : (i : Inode) (slot s b : ℕ) → s < slot → (set_addr i slot b).addr s ≡ i.addr s
  other_slot i slot s b lt = ground arith

  own_slot : (i : Inode) (slot b : ℕ) → (set_addr i slot b).addr slot ≡ b
  own_slot i slot b = ground arith

  pub leveled :
      (k level : ℕ) (da : ℕ → ℕ) (rest : ℕ) (i : Inode) (fs : S5Fs) (xs : List ℕ)
      → 0 < level
      → level + k ≡ 4
      → IsVolume fs xs
      → reader_of fs ≡ r
      → rest ≤ room r.prof.nindir k level
      → need_levels r.prof.nindir k level rest ≤ length xs
      → ((j : ℕ) → j < rest → da j < 2 ^ 32)
      → Leveled k level da rest i fs xs
  unfolding map_levels room need_levels lookup
  leveled zero level da rest i fs xs lo hi v same fits enough small =
      let nothing : (rest == 0) ≡ true = ground (arith, fits) in
      record {
        i' = i;
        fs' = fs;
        ys = xs;
        run = rw (nothing, map_levels) refl;
        step = Step-refl r uninit fs xs v same;
        left = omega arith;
        low = λ s l. refl;
        found = λ f whole agrees q lt. absurd (omega (arith, fits, lt));
      }
  leveled (suc k) level da rest i fs xs lo hi v same fits enough small =
      elim (Bool-cases (rest == 0)) [
        | inl nothing ↦ record {
          i' = i;
          fs' = fs;
          ys = xs;
          run = rw (nothing, map_levels) refl;
          step = Step-refl r uninit fs xs v same;
          left = rw (nothing, need_levels) (omega arith);
          low = λ s l. refl;
          found = λ f whole agrees q lt. absurd (ground (arith, nothing, lt));
        }
        | inr more ↦
            let n : ℕ = r.prof.nindir in
            let cap : ℕ = level_cap n level in
            let capacity : cap ≡ per_entry n level =
              level_cap-per_entry n level fan lo (omega (arith, hi)) in
            let c : ℕ = min rest cap in
            let positive : 0 < rest = ground (arith, more) in
            let cap_pos : 0 < cap =
              omega (arith, capacity, per_pos n level fan (omega (arith, hi))) in
            let cost : need_levels n (suc k) level rest
                ≡ need n level c + need_levels n k (level + 1) (rest - c) =
              rw (more, need_levels) refl in
            let ch : Built r uninit level da c fs xs =
              builds r uninit fan wide level (omega (arith, hi)) da c fs xs v same (omega arith)
                (omega (arith, capacity)) (omega (arith, cost, enough))
                (λ j lt. small j (omega arith)) in
            let slot : ℕ = r.prof.laddr + level - 1 in
            let i1 : Inode = set_addr i slot ch.b in
            let next : Leveled k (level + 1) (λ q. da (c + q)) (rest - c) i1 ch.fs' ch.ys =
              leveled k (level + 1) (λ q. da (c + q)) (rest - c) i1 ch.fs' ch.ys (omega arith)
                (omega (arith, hi)) ch.step.volume ch.step.reader (omega (arith, fits))
                (omega (arith, cost, enough, ch.left)) (λ j lt. small (c + j) (omega arith)) in
            record {
              i' = next.i';
              fs' = next.fs';
              ys = next.ys;
              run = levels_run r k level da rest ch.b i fs ch.fs' same more ch.run ∙ next.run;
              step = Step-trans r uninit fs ch.fs' next.fs' xs ch.ys next.ys ch.step next.step;
              left = omega (arith, cost, ch.left, next.left);
              low = λ s l. next.low s (omega arith) ∙ other_slot i slot s ch.b (omega arith);
              found = λ f whole agrees q lt. elim (Bool-cases (ltb q cap)) [
                | inl here ↦
                    let at_slot : next.i'.addr slot ≡ ch.b =
                      next.low slot (omega arith) ∙ own_slot i slot ch.b in
                    let in_range : q < cap = ground (arith, here) in
                    rw (here, lookup)
                      (ap (descend r f uninit q level) at_slot
                        ∙ ap (λ idx. descend r f uninit idx level ch.b)
                            (from_zero (per_entry n level) q)
                        ∙ Tree-Step r uninit level xs ch.ys next.ys ch.fs' next.fs' ch.b da c
                            ch.tree next.step f whole agrees 0 q (omega arith))
                | inr past ↦
                    let behind : cap ≤ q = ground (arith, past) in
                    rw (past, lookup)
                      (next.found f whole
                          (λ y j taken ib.
                            agrees y j ((λ fresh. taken.0 (ch.step.kept y fresh)), taken.1) ib)
                          (q - cap) (omega arith)
                        ∙ ap da (omega arith))
              ];
            }
      ]
