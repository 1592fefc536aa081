-- ===== src/Device/Lookup.antt =====
-- The table of devices as a map from names, upper case or lower.
use s5fs.Base.{
  ℕ, ◌≡◌, refl, ap, ◌∙◌, inl, inr, Bool, true, false, ◌&&◌, some, List, [], ◌∷◌, arith, ◌==◌,
  if◌then◌else◌, Bool-cases, lower, same_caseless,
}
use s5fs.Device.Table.{DiskDev}
use s5fs.Device.Config.{merge}
use s5fs.Device.Select.{device_find}

both_left : (a b : Bool) → (a && b) ≡ true → a ≡ true
both_left true b h = refl
both_left false b h = h

both_right : (a b : Bool) → (a && b) ≡ true → b ≡ true
both_right true b h = h
both_right false b h = cc

test-eq : (x y : ℕ) → (x == y) ≡ true → x ≡ y
test-eq x y h = ground arith

caseless_refl : (a : List ℕ) → same_caseless a a ≡ true
unfolding same_caseless
caseless_refl [] = refl
caseless_refl (x ∷ xs) = ground (arith, caseless_refl xs)

-- Two names that are the same as a third are the same as each other.
caseless_same : (a b c : List ℕ) → same_caseless b c ≡ true → same_caseless a b ≡ same_caseless a c
unfolding same_caseless
caseless_same [] [] [] h = refl
caseless_same [] [] (z ∷ zs) h = cc
caseless_same [] (y ∷ ys) [] h = cc
caseless_same [] (y ∷ ys) (z ∷ zs) h = refl
caseless_same (x ∷ xs) [] [] h = refl
caseless_same (x ∷ xs) [] (z ∷ zs) h = cc
caseless_same (x ∷ xs) (y ∷ ys) [] h = cc
caseless_same (x ∷ xs) (y ∷ ys) (z ∷ zs) h =
    let eq : lower y ≡ lower z =
      test-eq (lower y) (lower z) (both_left (lower y == lower z) (same_caseless ys zs) h) in
    let rest = caseless_same xs ys zs (both_right (lower y == lower z) (same_caseless ys zs) h) in
    ap (λ k. lower x == k && same_caseless xs ys) eq ∙ ap (λ b. lower x == lower z && b) rest

caseless_left : (a b c : List ℕ) → same_caseless a b ≡ true → same_caseless a c ≡ same_caseless b c
unfolding same_caseless
caseless_left [] [] [] h = refl
caseless_left [] [] (z ∷ zs) h = refl
caseless_left [] (y ∷ ys) [] h = cc
caseless_left [] (y ∷ ys) (z ∷ zs) h = cc
caseless_left (x ∷ xs) [] [] h = cc
caseless_left (x ∷ xs) [] (z ∷ zs) h = cc
caseless_left (x ∷ xs) (y ∷ ys) [] h = refl
caseless_left (x ∷ xs) (y ∷ ys) (z ∷ zs) h =
    let eq : lower x ≡ lower y =
      test-eq (lower x) (lower y) (both_left (lower x == lower y) (same_caseless xs ys) h) in
    let rest = caseless_left xs ys zs (both_right (lower x == lower y) (same_caseless xs ys) h) in
    ap (λ k. k == lower z && same_caseless xs zs) eq ∙ ap (λ b. lower y == lower z && b) rest

-- A device that is merged into the table is found under its name, upper case or lower, in place of
-- any device of this name; under every other name the table answers as before.
pub device_find-merge :
    (d : DiskDev) (table : List DiskDev) (name : List ℕ)
    → device_find (merge d table) name
      ≡ (if same_caseless name d.name then some d else device_find table name)
unfolding device_find merge
device_find-merge d [] name = refl
device_find-merge d (t ∷ ts) name = elim (Bool-cases (same_caseless t.name d.name)) [
  | inl e ↦
      rw (merge, e)
        (elim (Bool-cases (same_caseless name d.name)) [
          | inl n ↦ rw n refl
          | inr n ↦
              let other : same_caseless name t.name ≡ false =
                caseless_same name t.name d.name e ∙ n in
              rw (n, other) refl
        ])
  | inr e ↦
      rw (merge, e)
        (elim (Bool-cases (same_caseless name t.name)) [
          | inl n ↦
              let other : same_caseless name d.name ≡ false =
                caseless_left name t.name d.name n ∙ e in
              rw (n, other) refl
          | inr n ↦ rw n (device_find-merge d ts name)
        ])
]
