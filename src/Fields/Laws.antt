-- ===== src/Fields/Laws.antt =====
-- A field of a table reads back, and offsets outside the table are as before.
use s5fs.Base.{
  ℕ, zero, suc, ◌+◌, ◌*◌, ◌≤◌, ◌<◌, ◌≡◌, refl, sym, subst, ◌∙◌, inl, inr, true, some, List, [], ◌∷◌,
  arith, ℕ_discrete, ◌==◌, Bool-cases,
}
use s5fs.Endian.{
  get32_same, put32-Outside, get32-put32, get24_same, put24-Outside, get24-put24, get16_same,
  put16-Outside, get16-put16, Buf, Endian, Outside, SameBytes,
}
use s5fs.Fields.{
  find, put_field, same_width, all_apart, put_fields, put_array, Width, short, triple, long, bytes,
  mask, put, get, Field,
}

get-put : (w : Width) (e : Endian) (b : Buf) (o v : ℕ) → get w e (put w e b o v) o ≡ mask w v
get-put short = get16-put16
get-put triple = get24-put24
get-put long = get32-put32

put-Outside :
    (w : Width) (e : Endian) (b : Buf) (o v j : ℕ) → Outside j o (bytes w) → put w e b o v j ≡ b j
put-Outside short = put16-Outside
put-Outside triple = put24-Outside
put-Outside long = put32-Outside

pub get_same :
    (w : Width) (e : Endian) (b c : Buf) (o : ℕ)
    → SameBytes b c o (bytes w)
    → get w e b o ≡ get w e c o
get_same short = get16_same
get_same triple = get24_same
get_same long = get32_same

bytes_pos : (w : Width) → 0 < bytes w
bytes_pos short = omega arith
bytes_pos triple = omega arith
bytes_pos long = omega arith

put_array-Outside :
    (w : Width) (e : Endian) (b : Buf) (o : ℕ) (f : ℕ → ℕ) (n j : ℕ)
    → Outside j o (bytes w * n)
    → put_array w e b o f n j ≡ b j
unfolding put_array
put_array-Outside w e b o f zero j h = refl
put_array-Outside w e b o f (suc n) j h =
    put-Outside w e (put_array w e b o f n) (o + bytes w * n) (f n) j (omega arith)
    ∙ put_array-Outside w e b o f n j (omega arith)

get-put_array :
    (w : Width) (e : Endian) (b : Buf) (o : ℕ) (f : ℕ → ℕ) (n i : ℕ)
    → i < n
    → get w e (put_array w e b o f n) (o + bytes w * i) ≡ mask w (f i)
unfolding put_array
get-put_array w e b o f zero i h = absurd (omega arith)
get-put_array w e b o f (suc n) i h = elim (ℕ_discrete i n) [
  | yes p ↦ rw p (get-put w e (put_array w e b o f n) (o + bytes w * n) (f n))
  | no p ↦
      let below : bytes w * (i + 1) ≤ bytes w * n = grind arith in
      get_same w e _ (put_array w e b o f n) (o + bytes w * i) (λ j lo hi.
        put-Outside w e (put_array w e b o f n) (o + bytes w * n) (f n) j (omega (arith, below)))
      ∙ get-put_array w e b o f n i (omega arith)
]

-- Bytes apart from every field are as before.
put_fields_outside :
    (e : Endian) (ps : List Field) (b : Buf) (o n j : ℕ)
    → all_apart ps o n ≡ true
    → o ≤ j
    → j < o + n
    → put_fields e b ps j ≡ b j
unfolding put_fields put_field
put_fields_outside e [] b o n j h lo hi = refl
put_fields_outside e (p ∷ ps) b o n j h lo hi =
    put_fields_outside e ps (put_field e b p) o n j (ground arith) lo hi
    ∙ put_array-Outside p.width e b p.at p.values p.count j (ground arith)

pub get-put_fields_ne :
    (w : Width) (e : Endian) (ps : List Field) (b : Buf) (o : ℕ)
    → all_apart ps o (bytes w) ≡ true
    → get w e (put_fields e b ps) o ≡ get w e b o
get-put_fields_ne w e ps b o h =
    get_same w e _ b o (λ j lo hi. put_fields_outside e ps b o (bytes w) j h lo hi)

same_width_eq : (v w : Width) → same_width v w ≡ true → v ≡ w
same_width_eq short short h = refl
same_width_eq triple triple h = refl
same_width_eq long long h = refl
same_width_eq v w h = cc

get-put_fields_head :
    (e : Endian) (ps : List Field) (b : Buf) (q : Field) (i : ℕ)
    → all_apart ps q.at (bytes q.width * q.count) ≡ true
    → i < q.count
    → get q.width e (put_fields e (put_field e b q) ps) (q.at + bytes q.width * i)
      ≡ mask q.width (q.values i)
unfolding put_field
get-put_fields_head e ps b q i h lt =
    let inside : bytes q.width * (i + 1) ≤ bytes q.width * q.count = grind arith in
    get_same q.width e _ (put_field e b q) (q.at + bytes q.width * i) (λ j lo hi.
      put_fields_outside e ps (put_field e b q) q.at (bytes q.width * q.count) j h (omega arith)
        (omega (arith, inside)))
    ∙ get-put_array q.width e b q.at q.values q.count i lt

-- A field that the table holds last at its place reads back.
pub get-put_fields :
    (w : Width) (e : Endian) (ps : List Field) (b : Buf) (o i : ℕ) (p : Field)
    → find ps w o ≡ some p
    → i < p.count
    → get w e (put_fields e b ps) (o + bytes w * i) ≡ mask w (p.values i)
unfolding put_fields
get-put_fields w e [] b o i p h lt = cc
get-put_fields w e (q ∷ ps) b o i p h lt = elim (Bool-cases (q.at == o)) [
  | inr miss ↦ get-put_fields w e ps (put_field e b q) o i p (ground arith) lt
  | inl at_o ↦ elim (Bool-cases (same_width q.width w)) [
    | inr miss ↦ get-put_fields w e ps (put_field e b q) o i p (ground arith) lt
    | inl wide ↦ elim (Bool-cases (all_apart ps o (bytes w * q.count))) [
      | inr miss ↦ get-put_fields w e ps (put_field e b q) o i p (ground arith) lt
      | inl apart ↦
          let is_q : some q ≡ some p = rw (at_o, wide, apart) at h in
          let eq : q ≡ p = cc in
          let eq_o : q.at ≡ o = ground arith in
          let eq_w : q.width ≡ w = same_width_eq q.width w wide in
          rw (← eq, ← eq_o, ← eq_w)
            (get-put_fields_head e ps b q i (rw (eq_o, eq_w) apart)
              (subst (λ r. i < r.count) (sym eq) lt))
    ]
  ]
]
