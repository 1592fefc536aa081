-- ===== src/Mkfs/Interleave.antt =====
-- The rotational interleave of s5fs_freelist is a permutation of the offsets 1 to `fn`, and its
-- inner loops end.
use s5fs.Base.{
  ℕ, zero, suc, ◌+◌, ◌-◌, ◌%◌, ◌≤◌, ◌<◌, ◌≡◌, refl, subst, ◌≢◌, ◌⊎◌, inl, inr, Bool, true, false,
  ◌||◌, arith, dec_lt, ℕ_discrete, leb, ◌==◌, if◌then◌else◌, Bool-cases,
}
use s5fs.Mkfs.FreeList.{next_clear, permute, round_up}
use s5fs.Mkfs.Groups.{IsOrder}

mod_small : (x n : ℕ) → x < n → x % n ≡ x
mod_small x n h = grind arith

mod_wrap : (x n : ℕ) → 0 < n → x ≡ n → x % n ≡ 0
mod_wrap x n p h = grind arith

mod_next : (d n : ℕ) → d % n + 1 < n → (d + 1) % n ≡ d % n + 1
mod_next d n h = grind arith

mod_last : (d n : ℕ) → 0 < n → d % n + 1 ≡ n → (d + 1) % n ≡ 0
mod_last d n p h = grind arith

-- Within so many steps, `round_up` comes to a multiple.
Near : ℕ → ℕ → ℕ → Type 0
Near k fn d = ((d % fn ≡ 0) × (0 < k)) ⊎ ((0 < d % fn) × (fn < k + d % fn))

-- The next multiple of `fn`.
pub record IsNext (fn d d' : ℕ) : Type 0 where
  pub multiple : d' % fn ≡ 0
  pub low : d ≤ d'
  pub high : d' < d + fn

round_up-Near :
    (fn k d : ℕ)
    → 0 < fn
    → Near k fn d
    → (round_up k fn d % fn ≡ 0) × (d ≤ round_up k fn d) × (round_up k fn d < d + k)
unfolding round_up Near
round_up-Near fn zero d pos h = absurd (nothing h)
  where
    nothing : ((d % fn ≡ 0) × (0 < 0)) ⊎ ((0 < d % fn) × (fn < 0 + d % fn)) → ⊥
    nothing (inl (a, b)) = omega arith
    nothing (inr (a, b)) = omega arith
round_up-Near fn (suc k) d pos h = elim (ℕ_discrete (d % fn) 0) [
  | yes z ↦ let t : (d % fn == 0) ≡ true = ground arith in rw t (z, omega arith, omega arith)
  | no nz ↦
      let t : (d % fn == 0) ≡ false = ground arith in
      let rest = round_up-Near fn k (d + 1) pos (nearer nz h) in
      rw t (rest.0, omega (arith, rest.1), omega (arith, rest.2))
]
  where
    nearer : d % fn ≢ 0 → Near (suc k) fn d → Near k fn (d + 1)
    nearer nz (inl (a, b)) = absurd (nz a)
    nearer nz (inr (a, b)) = elim (dec_lt (d % fn + 1) fn) [
      | yes lt ↦ let e = mod_next d fn lt in inr (omega (arith, e), omega (arith, e))
      | no ge ↦ let e = mod_last d fn pos (omega arith) in inl (e, omega arith)
    ]

pub round_up-IsNext : (fn d : ℕ) → 0 < fn → IsNext fn d (round_up fn fn d)
unfolding Near
round_up-IsNext fn d pos =
    let r = round_up-Near fn fn d pos near in record { multiple = r.0; low = r.1; high = r.2 }
  where
    near : ((d % fn ≡ 0) × (0 < fn)) ⊎ ((0 < d % fn) × (fn < fn + d % fn))
    near = elim (ℕ_discrete (d % fn) 0) [
      | yes z ↦ inl (z, pos)
      | no nz ↦ inr (omega arith, omega arith)
    ]

pub round_up_exact : (fn k d : ℕ) → 0 < k → d % fn ≡ 0 → round_up k fn d ≡ d
unfolding round_up
round_up_exact fn zero d pos z = absurd (omega arith)
round_up_exact fn (suc k) d pos z = let t : (d % fn == 0) ≡ true = ground (arith, z) in rw t refl

-- The steps from `i` on to `q`, round the end of the group.
abbrev steps : ℕ → ℕ → ℕ → ℕ
steps fn i q = if leb i q then q - i else fn + q - i

next_clear_lem :
    (k fn : ℕ) (flg : ℕ → Bool) (i q : ℕ)
    → i < fn
    → q < fn
    → flg q ≡ false
    → steps fn i q < k
    → (next_clear k flg fn i < fn) × (flg (next_clear k flg fn i) ≡ false)
unfolding next_clear
next_clear_lem zero fn flg i q lt qlt c h = absurd (omega arith)
next_clear_lem (suc k) fn flg i q lt qlt c h = elim (Bool-cases (flg i)) [
  | inr f ↦ rw f (lt, f)
  | inl t ↦
      let ne = apart t in
      rw t (elim (dec_lt (i + 1) fn) [
        | yes more ↦
            let e : (i + 1) % fn ≡ i + 1 = mod_small (i + 1) fn more in
            rw e (next_clear_lem k fn flg (i + 1) q more qlt c (ground (arith, h, ne)))
        | no last ↦
            let e : (i + 1) % fn ≡ 0 = mod_wrap (i + 1) fn (omega arith) (omega arith) in
            rw e (next_clear_lem k fn flg 0 q (omega arith) qlt c (ground (arith, h, ne)))
      ])
]
  where
    apart : flg i ≡ true → i ≢ q
    apart t e = cc

-- The offsets from `lo` on, `n` of them, that have not been given out.
abbrev left : (ℕ → Bool) → ℕ → ℕ → ℕ
left flg zero lo = 0
left flg (suc n) lo = (if flg lo then 0 else 1) + left flg n (lo + 1)

abbrev give : ℕ → (ℕ → Bool) → ℕ → Bool
give i flg q = q == i || flg q

left_same :
    (flg flg' : ℕ → Bool) (n lo : ℕ)
    → ((q : ℕ) → lo ≤ q → flg' q ≡ flg q)
    → left flg' n lo ≡ left flg n lo
left_same flg flg' zero lo h = refl
left_same flg flg' (suc n) lo h =
    rw (h lo (omega arith), left_same flg flg' n (lo + 1) (λ q up. h q (omega arith))) refl

left-give :
    (flg : ℕ → Bool) (i n lo : ℕ)
    → flg i ≡ false
    → lo ≤ i
    → i < lo + n
    → left (give i flg) n lo + 1 ≡ left flg n lo
left-give flg i zero lo c low high = absurd (omega arith)
left-give flg i (suc n) lo c low high = elim (ℕ_discrete lo i) [
  | yes p ↦
      let rest = left_same flg (give i flg) n (lo + 1) (λ q up. ground arith) in
      ground (arith, p, c, rest)
  | no p ↦ ground (arith, p, left-give flg i n (lo + 1) c (omega arith) (omega arith))
]

none_left : (flg : ℕ → Bool) (n lo q : ℕ) → left flg n lo ≡ 0 → lo ≤ q → q < lo + n → flg q ≡ true
none_left flg zero lo q z low high = absurd (omega arith)
none_left flg (suc n) lo q z low high = elim (Bool-cases (flg lo)) [
  | inl t ↦ elim (ℕ_discrete lo q) [
    | yes p ↦ rw p at t
    | no p ↦ none_left flg n (lo + 1) q (ground arith) (omega arith) (omega arith)
  ]
  | inr f ↦ absurd (ground arith)
]

one_left :
    (flg : ℕ → Bool) (n lo : ℕ)
    → 0 < left flg n lo
    → (q : ℕ) × (lo ≤ q) × (q < lo + n) × (flg q ≡ false)
one_left flg zero lo pos = absurd (omega arith)
one_left flg (suc n) lo pos = elim (Bool-cases (flg lo)) [
  | inr f ↦ (lo, omega arith, omega arith, f)
  | inl t ↦
      let (q, a, b, c) = one_left flg n (lo + 1) (ground arith) in (q, omega arith, omega arith, c)
]

-- The state of the loop behind `j` rounds: which offsets have been given out, and where they are.
record Given (fn j : ℕ) (flg : ℕ → Bool) (adr : ℕ → ℕ) : Type 0 where
  low : (t : ℕ) → t < j → 0 < adr t
  high : (t : ℕ) → t < j → adr t ≤ fn
  once : (t u : ℕ) → t < u → u < j → adr t ≢ adr u
  flagged : (t : ℕ) → t < j → flg (adr t - 1) ≡ true
  placed : (q : ℕ) → q < fn → flg q ≡ true → (t : ℕ) × (t < j) × (adr t ≡ q + 1)
  count : left flg fn 0 + j ≡ fn

Given-next :
    (fn j i : ℕ) (flg : ℕ → Bool) (adr : ℕ → ℕ)
    → Given fn j flg adr
    → i < fn
    → flg i ≡ false
    → Given fn (j + 1) (give i flg) (λ q. if q == j then i + 1 else adr q)
Given-next fn j i flg adr g lt c = record {
  low = λ t h. ground (arith, g.low t);
  high = λ t h. ground (arith, g.high t);
  once = λ t u h k. elim (ℕ_discrete u j) [
    | yes p ↦ ground (arith, p, unused t)
    | no p ↦ ground (arith, p, g.once t u h)
  ];
  flagged = λ t h. elim (ℕ_discrete t j) [
    | yes p ↦ let at : (t == j) ≡ true = ground arith in rw at (ground arith)
    | no p ↦
        let at : (t == j) ≡ false = ground arith in
        rw at (ground (arith, g.flagged t (omega arith)))
  ];
  placed = λ q h e. elim (ℕ_discrete q i) [
    | yes p ↦ (j, omega arith, ground (arith, p))
    | no p ↦
        let (t, a, b) = g.placed q h (ground (arith, p, e)) in (t, omega arith, ground (arith, b))
  ];
  count = omega (arith, left-give flg i fn 0 c (omega arith) (omega arith), g.count);
}
  where
    unused : (t : ℕ) → t < j → adr t ≢ i + 1
    unused t h e =
        let at : adr t - 1 ≡ i = omega (arith, e) in
        let flagged : flg i ≡ true = rw at at (g.flagged t h) in cc

-- The loop from round `j` on.
permute-Given :
    (fn fm k : ℕ) (flg : ℕ → Bool) (i j : ℕ) (adr : ℕ → ℕ)
    → 0 < fn
    → i < fn
    → j + k ≡ fn
    → Given fn j flg adr
    → (flg' : ℕ → Bool) × Given fn fn flg' (permute fn fm k flg i j adr)
unfolding permute
permute-Given fn fm zero flg i j adr pos lt e g =
    let at : j ≡ fn = omega arith in (flg, subst (λ n. Given fn n flg adr) at g)
permute-Given fn fm (suc k) flg i j adr pos lt e g =
    let (q, a, b, c) = one_left flg fn 0 (omega (arith, g.count)) in
    let found = next_clear_lem fn fn flg i q lt (omega arith) c (ground arith) in
    permute-Given fn fm k (give (next_clear fn flg fn i) flg) ((next_clear fn flg fn i + fm) % fn)
      (j + 1) _ pos (omega arith) (omega arith)
      (Given-next fn j (next_clear fn flg fn i) flg adr g found.0 found.1)

all_left : (n lo : ℕ) → left (λ q. false) n lo ≡ n
all_left zero lo = refl
all_left (suc n) lo = omega (arith, all_left n (lo + 1))

-- For a group of one block or more, whatever the gap, the rotational interleave gives each offset
-- from 1 to the size of the group once.
pub permute-IsOrder :
    (fn fm : ℕ) (adr : ℕ → ℕ) → 0 < fn → IsOrder fn (permute fn fm fn (λ q. false) 0 0 adr)
permute-IsOrder fn fm adr pos =
    let (flg, g) = permute-Given fn fm fn (λ q. false) 0 0 adr pos pos (omega arith) start in
    record {
      low = g.low;
      high = g.high;
      once = g.once;
      every = λ v a b.
          let all =
            none_left flg fn 0 (v - 1) (omega (arith, g.count)) (omega arith) (omega arith) in
          let (t, lt, at) = g.placed (v - 1) (omega arith) all in (t, lt, omega arith);
    }
  where
    start : Given fn 0 (λ q. false) adr
    start = record {
      low = λ t h. absurd (omega arith);
      high = λ t h. absurd (omega arith);
      once = λ t u h k. absurd (omega arith);
      flagged = λ t h. absurd (omega arith);
      placed = λ q h e. cc;
      count = omega (arith, all_left fn 0);
    }
