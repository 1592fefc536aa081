-- ===== src/Reader/Walk.antt =====
-- fsr_walkset_init and fsr_walk_enter: each inode is entered once.
use s5fs.Base.{
  ℕ, ◌-◌, ◌*◌, ◌≤◌, ◌<◌, ◌≡◌, ◌⊎◌, inl, inr, Bool, true, false, ◌||◌, List, [], ◌∷◌, arith, ltb,
  ◌==◌, if◌then◌else◌, Bool-cases, All, Distinct, All-mono,
}
use s5fs.Layout.{iliststart, u32}
use s5fs.Inode.{Fsr}

-- fsr_walkset; the allocation succeeds.
pub record WalkSet : Type 0 where
  pub seen : ℕ → Bool
  pub n : ℕ

unfoldable pub walkset_init : Fsr → WalkSet
walkset_init r = record {
  seen = λ i. false;
  n = if ltb iliststart r.isize then u32 ((r.isize - iliststart) * r.prof.inopb) else 0;
}

unfoldable pub walk_enter : WalkSet → ℕ → Bool × WalkSet
walk_enter w ino =
    if ino == 0 || ltb w.n ino
    then (false, w)
    else if w.seen ino
    then (false, w)
    else (true, record w { seen = λ i. i == ino || w.seen i })

-- The visits that a walk asks for, in order: which of them are let in, and the set behind them.
unfoldable pub enter_all : WalkSet → List ℕ → List ℕ × WalkSet
enter_all w [] = ([], w)
enter_all w (i ∷ is) =
    let (first, w') = walk_enter w i in
    let (rest, w'') = enter_all w' is in (if first then i ∷ rest else rest, w'')

abbrev marked : WalkSet → ℕ → WalkSet
marked w i = record w { seen = λ q. q == i || w.seen q }

-- The inode may be entered.
abbrev pub IsOpen : WalkSet → ℕ → Type 0
IsOpen w i = (0 < i) × (i ≤ w.n) × (w.seen i ≡ false)

walk_enter_cases :
    (w : WalkSet) (i : ℕ)
    → (walk_enter w i ≡ (false, w)) ⊎ ((walk_enter w i ≡ (true, marked w i)) × IsOpen w i)
unfolding walk_enter
walk_enter_cases w i = elim (Bool-cases (i == 0 || ltb w.n i)) [
  | inl out ↦ inl (rw out)
  | inr in_range ↦ elim (Bool-cases (w.seen i)) [
    | inl old ↦ inl (rw (in_range, old))
    | inr new ↦ inr (rw (in_range, new), (ground arith, ground arith, new))
  ]
]

-- Whatever a walk asks for, the inodes that are let in are all different, and each of them is above
-- 0, at most `n`, and had not been entered before.
pub enter_all-Distinct :
    (is : List ℕ) (w : WalkSet) → Distinct (enter_all w is).0 × All (IsOpen w) (enter_all w is).0
unfolding enter_all
enter_all-Distinct [] w = (tt, tt)
enter_all-Distinct (i ∷ is) w = elim (walk_enter_cases w i) [
  | inl out ↦ rw out (enter_all-Distinct is w)
  | inr (let_in, open_i) ↦
      let (distinct, all) = enter_all-Distinct is (marked w i) in
      rw let_in (
        (All-mono (enter_all (marked w i) is).0 (λ q o. ground (arith, o.2)) all, distinct),
        (
          open_i,
          All-mono (enter_all (marked w i) is).0 (λ q o. (o.0, o.1, ground (arith, o.2))) all,
        ),
      )
]
