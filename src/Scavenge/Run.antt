-- ===== src/Scavenge/Run.antt =====
-- The two scans of cmd_scavenge in cmd_scavenge.c: the tally of the unreferenced blocks, and what is
-- carved out of them.
use s5fs.Base.{
  ℕ, zero, suc, ◌+◌, ◌-◌, ◌*◌, Bool, true, false, none, some, List, [], ◌∷◌, ◌++◌, ltb, ◌==◌,
  if◌then◌else◌,
}
use s5fs.Endian.{Buf, Endian, get16}
use s5fs.Image.{File}
use s5fs.Inode.{bread}
use s5fs.Scavenge.Used.{Scav, build_used, inodes}
use s5fs.Scavenge.Names.{Ghost, deleted_names}
use s5fs.Scavenge.Scan.{
  Sig, sig_aout, sig_ar, sig_tar, sig_text, sig_dir, sig_zero, sig_other, classify, carve,
}
use Prim.Native.String.{String}

-- What `-x` writes: the name, the first block, and the bytes.
pub record Carved : Type 0 where
  pub name : String
  pub first : ℕ
  pub out : File

pub record Report : Type 0 where
  pub kinds : Sig → ℕ
  pub carved : List Carved

unfoldable pub same_sig : Sig → Sig → Bool
same_sig sig_aout sig_aout = true
same_sig sig_ar sig_ar = true
same_sig sig_tar sig_tar = true
same_sig sig_text sig_text = true
same_sig sig_dir sig_dir = true
same_sig sig_zero sig_zero = true
same_sig sig_other sig_other = true
same_sig _ _ = false

-- `tally[sig]++`
abbrev pub count_sig : Sig → Report → Report
count_sig sig t = record t { kinds = λ g. if same_sig g sig then t.kinds g + 1 else t.kinds g }

-- The header's size with text, data and symbols.
abbrev pub aout_size : Endian → Buf → ℕ
aout_size e b = 16 + get16 e b 2 + get16 e b 4 + get16 e b 8

abbrev pub tar_size : Scav → ℕ → ℕ
tar_size s bno = if ltb 65536 ((s.r.fsize - bno) * s.r.prof.bsize) then 65536 else 1024

-- With `-x`, what the first scan carves from a block of this kind.
unfoldable pub carve_sig : Bool → Scav → ℕ → Buf → Sig → List Carved
carve_sig true s bno b sig_aout =
    record { name = "aout"; first = bno; out = carve s bno (aout_size s.r.bo b) } ∷ []
carve_sig true s bno b sig_tar =
    record { name = "tar"; first = bno; out = carve s bno (tar_size s bno) } ∷ []
carve_sig true s bno b _ = []
carve_sig false s bno b _ = []

-- One block: blocks in use, and those that cannot be read, are passed over.
unfoldable pub scan_one : Bool → Scav → ℕ → Report → Report
scan_one x s bno t =
    if s.used bno == 0
    then elim (bread s.r s.image bno s.uninit) [
      | none ↦ t
      | some b ↦
          (let sig : Sig = classify s.r.bo s.r.prof.bsize b in
            record (count_sig sig t) { carved = t.carved ++ carve_sig x s bno b sig })
    ]
    else t

-- `n` blocks from `bno` on.
unfoldable pub scan_blocks : Bool → Scav → ℕ → ℕ → Report → Report
scan_blocks x s zero bno t = t
scan_blocks x s (suc n) bno t = scan_blocks x s n (bno + 1) (scan_one x s bno t)

-- The block is one of text.
unfoldable pub is_text : Scav → ℕ → Bool
is_text s bno =
    if s.used bno == 0
    then elim (bread s.r s.image bno s.uninit) [
      | none ↦ false
      | some b ↦ same_sig (classify s.r.bo s.r.prof.bsize b) sig_text
    ]
    else false

-- `n` blocks from `bno` on, of which `room` are carved at most.
unfoldable pub carve_text : Scav → ℕ → ℕ → ℕ → List Carved
carve_text s zero room bno = []
carve_text s (suc n) zero bno = []
carve_text s (suc n) (suc room) bno =
    let this : Carved = record { name = "text"; first = bno; out = carve s bno s.r.prof.bsize } in
    elim (is_text s bno) [
      | true ↦ this ∷ carve_text s n room (bno + 1)
      | false ↦ carve_text s n (suc room) (bno + 1)
    ]

abbrev pub no_report : Report
no_report = record { kinds = λ g. 0; carved = [] }

-- cmd_scavenge on an open image: the deleted names, the tally, and with `-x` the carved files.
unfoldable pub scavenge : Bool → Scav → List Ghost × Report
scavenge x s0 =
    let s : Scav = build_used s0 in
    let n : ℕ = s.r.fsize - s.r.isize in
    let t : Report = scan_blocks x s n s.r.isize no_report in
    let texts : List Carved = if x then carve_text s n 200 s.r.isize else [] in
    (deleted_names (inodes s.r) 1 s, record t { carved = t.carved ++ texts })
