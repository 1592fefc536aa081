-- ===== src/Device/Select.antt =====
-- The interface of device.c: device_find, device_partition, device_resolve_part and device_advise.
use s5fs.Base.{
  ℕ, ◌*◌, Bool, false, not, ◌&&◌, ◌||◌, Option, none, some, List, [], ◌∷◌, ltb, ◌==◌, if◌then◌else◌,
  Number, same_caseless, strtoul,
}
use s5fs.Layout.{u32}
use s5fs.Device.Table.{Release, rank, Part, DiskDev, builtin}
use s5fs.Device.Config.{load_user}

-- `file` is the user's file as lines, where there is one that can be opened.
unfoldable pub ensure_loaded : Option (List (List ℕ)) → List DiskDev
ensure_loaded none = builtin
ensure_loaded (some lines) = (load_user lines (builtin, 0)).0

unfoldable pub device_find : List DiskDev → List ℕ → Option DiskDev
device_find [] name = none
device_find (t ∷ ts) name =
    let rest : Option DiskDev = device_find ts name in
    if same_caseless name t.name then some t else rest

-- The start and the length of the first partition of this letter.
unfoldable pub find_part : List Part → ℕ → Option (ℕ × ℕ)
find_part [] letter = none
find_part (p ∷ ps) letter =
    let rest : Option (ℕ × ℕ) = find_part ps letter in
    if p.letter == letter then some (p.start, p.len) else rest

unfoldable pub device_partition : DiskDev → ℕ → Option (ℕ × ℕ)
device_partition dev letter = elim (dev.parts) [ none ↦ none | some ps ↦ find_part ps letter ]

-- `START[:LEN]`, for a start below 2 ^ 54; the length is cut to 32 bits.
unfoldable pub parse_offset : List ℕ → ℕ × ℕ
parse_offset s =
    let st : Number = strtoul s in
    let len : ℕ = elim (st.rest) [
      | [] ↦ 0
      | c ∷ cs ↦ if c == b':' then (strtoul cs).value else 0
    ] in
    (st.value * 512, u32 len)

-- The offset in bytes and the length in blocks of 512 bytes; `none` is -1. The letter 0 is none.
unfoldable pub device_resolve_part :
    List DiskDev → Option (List ℕ) → ℕ → Option (List ℕ) → Option (ℕ × ℕ)
device_resolve_part table devname letter (some s) = some (parse_offset s)
device_resolve_part table devname letter none = if letter == 0 then some (0, 0) else elim devname [
  | none ↦ none
  | some name ↦ elim (device_find table name) [
    | none ↦ none
    | some dev ↦ elim (device_partition dev letter) [
      | none ↦ none
      | some (s, l) ↦ some (s * 512, l)
    ]
  ]
]

-- Whether there is a warning.
unfoldable pub device_advise : Option DiskDev → Release → Bool
device_advise none target = false
device_advise (some dev) target =
    not (rank target == 0)
    && (ltb (rank target) (rank dev.since) || ltb (rank dev.until) (rank target))
