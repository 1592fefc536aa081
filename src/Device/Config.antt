-- ===== src/Device/Config.antt =====
-- The user's device file: release_parse, trim, merge, commit and load_user of device.c.
--
-- A line is what one call of fgets gives. `malloc`, `realloc` and `strdup` succeed; the messages are
-- left out.
use s5fs.Base.{
  ℕ, ◌+◌, Bool, true, false, not, ◌&&◌, ◌||◌, Option, none, some, List, [], ◌∷◌, ltb, leb, ◌==◌,
  if◌then◌else◌, codes, Number, same_caseless, has_prefix, split_at, skip_space, drop_space,
  first_word, strtoul, strtoul_10, words,
}
use s5fs.Device.Table.{Release, rel_none, rel_v7, rel_28, rel_29, rel_210, rank, Part, DiskDev}

unfoldable pub release_parse : List ℕ → Release
release_parse s =
    if same_caseless s (codes "v7") || same_caseless s (codes "7")
    then rel_v7
    else if has_prefix (codes "2.8") s
    then rel_28
    else if has_prefix (codes "2.9") s
    then rel_29
    else if has_prefix (codes "2.10") s
    then rel_210
    else rel_none

unfoldable pub trim : List ℕ → List ℕ
trim s = drop_space (skip_space s)

-- An entry of the same name, upper case or lower, is replaced; else the entry comes last.
unfoldable pub merge : DiskDev → List DiskDev → List DiskDev
merge d [] = d ∷ []
merge d (t ∷ ts) =
    let rest : List DiskDev = merge d ts in if same_caseless t.name d.name then d ∷ ts else t ∷ rest

-- The locals of load_user, the table, and the count of the user's entries.
pub record Loader : Type 0 where
  pub cur : DiskDev
  pub have : Bool
  pub table : List DiskDev
  pub nuser : ℕ

abbrev pub no_device : DiskDev
no_device = record {
  name = [];
  desc = none;
  blocks = 0;
  since = rel_v7;
  until = rel_v7;
  parts = none;
}

unfoldable pub commit : Loader → Loader
commit l =
    let desc : List ℕ = elim (l.cur.desc) [ some d ↦ d | none ↦ codes "(user-defined)" ] in
    if not l.have then l else if l.cur.blocks == 0 then record l { have = false } else record l {
      have = false;
      cur = record (l.cur) { desc = some desc };
      table = merge (record (l.cur) { desc = some desc }) l.table;
      nuser = l.nuser + 1;
    }

-- `:%lu` of sscanf.
abbrev scan_number : List ℕ → Option Number
scan_number [] = none
scan_number (x ∷ xs) = if x == b':' && (strtoul_10 xs).found then some (strtoul_10 xs) else none

-- `sscanf(tok, "%c:%lu:%lu", …) == 3`: the letter, the start and the length.
unfoldable pub scan_part : List ℕ → Option (ℕ × ℕ × ℕ)
scan_part [] = none
scan_part (c ∷ s) = elim (scan_number s) [
  | none ↦ none
  | some st ↦ elim (scan_number st.rest) [ none ↦ none | some ln ↦ some (c, st.value, ln.value) ]
]

-- A partition `a` to `h` whose end has 32 bits.
unfoldable pub part_ok : ℕ → ℕ → ℕ → Bool
part_ok c st ln =
    leb b'a' c
    && (leb c b'h' && (leb st 0xffffffff && (leb ln 0xffffffff && leb (st + ln) 0xffffffff)))

unfoldable pub read_parts : List (List ℕ) → List Part
read_parts [] = []
read_parts (tok ∷ toks) =
    let rest : List Part = read_parts toks in
    elim (scan_part tok) [
      | none ↦ rest
      | some (c, st, ln) ↦
          if part_ok c st ln then (record { letter = c; start = st; len = ln }) ∷ rest else rest
    ]

-- A line without partitions leaves NULL.
abbrev pub parts_of : List Part → Option (List Part)
parts_of [] = none
parts_of (p ∷ ps) = some (p ∷ ps)

abbrev pub is_empty : List ℕ → Bool
is_empty [] = true
is_empty (x ∷ xs) = false

-- `key = value`
unfoldable pub set_key : List ℕ → List ℕ → DiskDev → DiskDev
set_key key val d =
    let n : Number = strtoul val in
    let r : Release = release_parse (first_word val) in
    let ps : List Part = read_parts (words (λ c. c == 32 || (c == 9 || c == b',')) [] val) in
    if same_caseless key (codes "blocks")
    then (if is_empty val || (not (is_empty n.rest) || (n.overflow || ltb 0xffffffff n.value))
        then d
        else record d { blocks = n.value })
    else if same_caseless key (codes "desc")
    then record d { desc = some val }
    else if same_caseless key (codes "since") || same_caseless key (codes "until")
    then (if rank r == 0
        then d
        else if same_caseless key (codes "since")
        then record d { since = r }
        else record d { until = r })
    else if same_caseless key (codes "partitions")
    then record d { parts = parts_of ps }
    else d

-- `[name]`; `p` is what stands behind the bracket.
unfoldable pub section : List ℕ → Loader → Loader
section p l =
    let l1 : Loader = record (commit l) { cur = no_device; have = false } in
    elim (split_at b']' p) [
      | none ↦ l1
      | some (inner, _) ↦ if is_empty (trim inner) then l1 else record l1 {
        cur = record no_device { name = trim inner; since = rel_v7; until = rel_210 };
        have = true;
      }
    ]

unfoldable pub read_line : List ℕ → Loader → Loader
read_line line l = elim (trim line) [
  | [] ↦ l
  | c ∷ p ↦
      if c == b'#' || c == b';'
      then l
      else if c == b'['
      then section p l
      else elim (split_at b'=' (c ∷ p)) [
        | none ↦ l
        | some (key, val) ↦
            if l.have then record l { cur = set_key (trim key) (trim val) l.cur } else l
      ]
]

unfoldable pub read_lines : List (List ℕ) → Loader → Loader
read_lines [] l = commit l
read_lines (s ∷ ss) l = read_lines ss (read_line s l)

-- The table and the count behind the file.
unfoldable pub load_user : List (List ℕ) → List DiskDev × ℕ → List DiskDev × ℕ
load_user lines (table, nuser) =
    let l : Loader =
      read_lines lines (record { cur = no_device; have = false; table = table; nuser = nuser }) in
    (l.table, l.nuser)
