-- ===== src/Device/Sound.antt =====
-- What a user's file can put into the table of devices.
-- A partition is `a` to `h`, and its end has 32 bits.
use s5fs.Base.{
  ℕ, ◌+◌, ◌*◌, ◌^◌, ◌≤◌, ◌<◌, ◌≡◌, ◌≢◌, inl, inr, Bool, true, false, not, ◌||◌, Option, none, some,
  List, [], ◌∷◌, arith, ◌==◌, if◌then◌else◌, Bool-cases, Option-cases, All, codes, same_caseless,
  split_at, first_word, strtoul, words, ◌⊎◌,
}
use s5fs.Device.Table.{Release, rank, Part, DiskDev, builtin}
use s5fs.Device.Config.{
  load_user, merge, commit, Loader, set_key, section, read_line, read_lines, trim, read_parts,
  is_empty, parts_of, scan_part, part_ok, release_parse,
}
use s5fs.Device.Select.{ensure_loaded, device_find, device_partition}

abbrev pub IsPart : Part → Type 0
IsPart p = (b'a' ≤ p.letter) × (p.letter ≤ b'h') × (p.start + p.len < 2 ^ 32)

abbrev pub AllParts : Option (List Part) → Type 0
AllParts none = Unit
AllParts (some ps) = All IsPart ps

-- A device has a size, and its partitions are in order.
abbrev pub IsDevice : DiskDev → Type 0
IsDevice d = (d.blocks ≢ 0) × AllParts d.parts

read_parts-IsPart : (toks : List (List ℕ)) → All IsPart (read_parts toks)
unfolding read_parts part_ok
read_parts-IsPart [] = tt
read_parts-IsPart (tok ∷ toks) = elim (Option-cases (scan_part tok)) [
  | inl e ↦ rw (read_parts, e) (read_parts-IsPart toks)
  | inr ((c, st, ln), e) ↦
      rw (read_parts, e)
        (elim (Bool-cases (part_ok c st ln)) [
          | inl good ↦ rw good (ground (arith, good), read_parts-IsPart toks)
          | inr bad ↦ rw bad (read_parts-IsPart toks)
        ])
]

parts_of-AllParts : (ps : List Part) → All IsPart ps → AllParts (parts_of ps)
parts_of-AllParts [] h = tt
parts_of-AllParts (p ∷ ps) h = h

-- The devices whose partitions are in order, so that a conditional between two of them is one.
abbrev Ordered : DiskDev → Type 0
Ordered d = AllParts d.parts

either : (b : Bool) (x y : DiskDev) → Ordered x → Ordered y → Ordered (if b then x else y)
either true x y p q = p
either false x y p q = q

set_key-Ordered : (key val : List ℕ) (d : DiskDev) → Ordered d → Ordered (set_key key val d)
unfolding set_key
set_key-Ordered key val d h =
    either (same_caseless key (codes "blocks")) _ _
      (either _ d (record d { blocks = (strtoul val).value }) h h)
      (either (same_caseless key (codes "desc")) (record d { desc = some val }) _ h
        (either (same_caseless key (codes "since") || same_caseless key (codes "until")) _ _
          (either (rank r == 0) d _ h (
            either (same_caseless key (codes "since")) (record d { since = r })
              (record d { until = r }) h h))
          (either (same_caseless key (codes "partitions"))
            (record d { parts = parts_of (read_parts toks) }) d
            (parts_of-AllParts (read_parts toks) (read_parts-IsPart toks)) h)))
  where
    r : Release
    r = release_parse (first_word val)

    toks : List (List ℕ)
    toks = words (λ c. c == 32 || (c == 9 || c == b',')) [] val

merge-IsDevice :
    (d : DiskDev) (table : List DiskDev)
    → IsDevice d
    → All IsDevice table
    → All IsDevice (merge d table)
unfolding merge
merge-IsDevice d [] h a = (h, tt)
merge-IsDevice d (t ∷ ts) h a = elim (Bool-cases (same_caseless t.name d.name)) [
  | inl e ↦ rw (All, merge, e) (h, a.1)
  | inr e ↦ rw (All, merge, e) (a.0, merge-IsDevice d ts h a.1)
]

-- What the loader holds: a table of devices in order, and a device that may lack its size.
record IsLoader (l : Loader) : Type 0 where
  cur : Ordered l.cur
  table : All IsDevice l.table

commit-IsLoader : (l : Loader) → IsLoader l → IsLoader (commit l)
unfolding commit
commit-IsLoader l h = elim (Bool-cases (not l.have)) [
  | inl e ↦ rw e h
  | inr e ↦ rw e (elim (Bool-cases (l.cur.blocks == 0)) [
    | inl z ↦ rw z (record { cur = h.cur; table = h.table })
    | inr z ↦ rw z (record {
      cur = h.cur;
      table = merge-IsDevice _ l.table ((λ e. ground arith), h.cur) h.table;
    })
  ])
]

section-IsLoader : (p : List ℕ) (l : Loader) → IsLoader l → IsLoader (section p l)
unfolding section
section-IsLoader p l h = elim (Option-cases (split_at b']' p)) [
  | inl e ↦ rw (section, e) (record { cur = tt; table = (commit-IsLoader l h).table })
  | inr ((inner, _), e) ↦
      rw (section, e)
        (elim (Bool-cases (is_empty (trim inner))) [
          | inl z ↦ rw z (record { cur = tt; table = (commit-IsLoader l h).table })
          | inr z ↦ rw z (record { cur = tt; table = (commit-IsLoader l h).table })
        ])
]

read_line-IsLoader : (line : List ℕ) (l : Loader) → IsLoader l → IsLoader (read_line line l)
unfolding read_line
read_line-IsLoader line l h = by_text (trim line)
  where
    pick : (b : Bool) {x : Loader} → IsLoader x → IsLoader (if b then x else l)
    pick true p = p
    pick false p = h

    key_line :
        (o : Option (List ℕ × List ℕ))
        → IsLoader (elim o as (λ _. Loader) [
          | none ↦ l
          | some (key, val) ↦
              if l.have then record l { cur = set_key (trim key) (trim val) l.cur } else l
        ])
    key_line none = h
    key_line (some (key, val)) =
        pick (l.have)
          (record { cur = set_key-Ordered (trim key) (trim val) l.cur h.cur; table = h.table })

    choose :
        (a b : Bool) (x y : Loader)
        → IsLoader x
        → IsLoader y
        → IsLoader (if a then l else if b then x else y)
    choose true b x y p q = h
    choose false true x y p q = p
    choose false false x y p q = q

    by_text :
        (t : List ℕ)
        → IsLoader (elim t as (λ _. Loader) [
          | [] ↦ l
          | c ∷ p ↦
              if c == b'#' || c == b';'
              then l
              else if c == b'['
              then section p l
              else elim (split_at b'=' (c ∷ p)) [
                | none ↦ l
                | some (key, val) ↦
                    if l.have then record l { cur = set_key (trim key) (trim val) l.cur } else l
              ]
        ])
    by_text [] = h
    by_text (c ∷ p) =
        choose (c == b'#' || c == b';') (c == b'[') (section p l) _ (section-IsLoader p l h)
          (key_line (split_at b'=' (c ∷ p)))

read_lines-IsLoader : (ss : List (List ℕ)) (l : Loader) → IsLoader l → IsLoader (read_lines ss l)
unfolding read_lines
read_lines-IsLoader [] l h = commit-IsLoader l h
read_lines-IsLoader (s ∷ ss) l h = read_lines-IsLoader ss (read_line s l) (read_line-IsLoader s l h)

builtin-IsDevice : All IsDevice builtin
builtin-IsDevice = ground arith

-- Whatever the user's file holds, every device of the table has a size that is not 0, and each of
-- its partitions has a letter from `a` to `h` and an end of 32 bits.
pub ensure_loaded-IsDevice : (file : Option (List (List ℕ))) → All IsDevice (ensure_loaded file)
unfolding ensure_loaded load_user
ensure_loaded-IsDevice none = builtin-IsDevice
ensure_loaded-IsDevice (some lines) =
    (read_lines-IsLoader lines _ (record { cur = tt; table = builtin-IsDevice })).table

abbrev DeviceOf : Option DiskDev → Type 0
DeviceOf none = Unit
DeviceOf (some d) = IsDevice d

abbrev EndsOf : Option (ℕ × ℕ) → Type 0
EndsOf none = Unit
EndsOf (some (s, l)) = s + l < 2 ^ 32

-- What is selected of a table where the caller writes out no offset: without a letter the whole
-- image; with one the partition of the device of this name; and a failure only with a letter.
abbrev pub Selects : List DiskDev → Option (List ℕ) → ℕ → Option (ℕ × ℕ) → Type 0
Selects table name letter none = letter ≢ 0
Selects table name letter (some (base, len)) =
    ((letter ≡ 0) × (base ≡ 0) × (len ≡ 0))
    ⊎ ((letter ≢ 0)
        × (nm : List ℕ) × (d : DiskDev) × (start : ℕ) × (name ≡ some nm)
        × (device_find table nm ≡ some d)
        × (device_partition d letter ≡ some (start, len))
        × (base ≡ 512 * start)
        × (base + 512 * len < 2 ^ 41))
