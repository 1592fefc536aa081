-- ===== src/Device/Table.antt =====
-- The built-in disk and partition tables of device.c; lengths are in blocks of 512 bytes.
use s5fs.Base.{ℕ, Option, none, some, List, [], ◌∷◌, codes}
use Prim.Native.String.{String}

-- bsd_rel, from the oldest on.
pub data Release : Type 0 where
  rel_none rel_v7 rel_28 rel_29 rel_210 : Release

-- The number of a release, one more than in the enumeration.
abbrev pub rank : Release → ℕ
rank rel_none = 0
rank rel_v7 = 1
rank rel_28 = 2
rank rel_29 = 3
rank rel_210 = 4

-- disk_part
pub record Part : Type 0 where
  pub letter : ℕ
  pub start : ℕ
  pub len : ℕ

-- disk_dev; `none` is NULL. The number of partitions is the list's length.
pub record DiskDev : Type 0 where
  pub name : List ℕ
  pub desc : Option (List ℕ)
  pub blocks : ℕ
  pub since : Release
  pub until : Release
  pub parts : Option (List Part)

abbrev part : ℕ → ℕ → ℕ → Part
part letter start len = record { letter = letter; start = start; len = len }

abbrev device : String → String → ℕ → Release → Release → Option (List Part) → DiskDev
device name desc blocks since until parts = record {
  name = codes name;
  desc = some (codes desc);
  blocks = blocks;
  since = since;
  until = until;
  parts = parts;
}

abbrev pub hk_parts : List Part
hk_parts =
    part b'a' 0 5940
    ∷ part b'b' 5940 2376
    ∷ part b'c' 8316 45474
    ∷ part b'd' 8316 18810
    ∷ part b'g' 0 27126
    ∷ part b'h' 0 53790
    ∷ []

abbrev pub rp_parts : List Part
rp_parts = part b'a' 0 10400 ∷ part b'b' 10400 5200 ∷ part b'c' 15600 67580 ∷ part b'h' 0 83180 ∷ []

abbrev pub hp_parts : List Part
hp_parts =
    part b'a' 0 9614
    ∷ part b'b' 9614 8778
    ∷ part b'c' 18392 153406
    ∷ part b'd' 171798 168872
    ∷ part b'e' 18392 322278
    ∷ part b'g' 0 171798
    ∷ part b'h' 0 340670
    ∷ []

abbrev pub rm_parts : List Part
rm_parts =
    part b'a' 0 4800
    ∷ part b'b' 4800 4800
    ∷ part b'c' 9600 122080
    ∷ part b'd' 9600 62720
    ∷ part b'e' 72320 59360
    ∷ part b'h' 0 131680
    ∷ []

abbrev pub rm5_parts : List Part
rm5_parts =
    part b'a' 0 9120
    ∷ part b'b' 9120 9120
    ∷ part b'c' 18240 234080
    ∷ part b'd' 252320 248064
    ∷ part b'e' 18240 164160
    ∷ part b'f' 182400 152000
    ∷ part b'g' 334400 165376
    ∷ part b'h' 0 500384
    ∷ []

-- The built-in table.
abbrev pub builtin : List DiskDev
builtin =
    device "rk05" "RK05 cartridge (RK11)" 4872 rel_v7 rel_210 none
    ∷ device "rl01" "RL01 cartridge (RL11)" 10240 rel_v7 rel_210 none
    ∷ device "rl02" "RL02 cartridge (RL11)" 20480 rel_v7 rel_210 none
    ∷ device "rk06" "RK06 disk (RK611)" 27126 rel_28 rel_210 (some hk_parts)
    ∷ device "rk07" "RK07 disk (RK611)" 53790 rel_28 rel_210 (some hk_parts)
    ∷ device "rp03" "RP03 pack (RP11)" 83180 rel_v7 rel_210 (some rp_parts)
    ∷ device "rm03" "RM03 pack (Massbus)" 131680 rel_v7 rel_210 (some rm_parts)
    ∷ device "rp04" "RP04 pack (Massbus)" 171798 rel_v7 rel_210 (some hp_parts)
    ∷ device "rp05" "RP05 pack (Massbus)" 171798 rel_v7 rel_210 (some hp_parts)
    ∷ device "rm80" "RM80 disk (Massbus)" 242606 rel_v7 rel_210 none
    ∷ device "rp06" "RP06 pack (Massbus)" 340670 rel_v7 rel_210 (some hp_parts)
    ∷ device "rm05" "RM05 pack (Massbus)" 500384 rel_v7 rel_210 (some rm5_parts)
    ∷ device "rp07" "RP07 disk (Massbus)" 1008000 rel_v7 rel_210 none
    ∷ device "rx50" "RX50 floppy (MSCP)" 800 rel_210 rel_210 none
    ∷ device "rd51" "RD51 winchester (MSCP)" 21600 rel_210 rel_210 none
    ∷ device "rd31" "RD31 winchester (MSCP)" 41560 rel_210 rel_210 none
    ∷ device "rd52" "RD52 winchester (MSCP)" 60480 rel_210 rel_210 none
    ∷ device "rd53" "RD53 winchester (MSCP)" 138672 rel_210 rel_210 none
    ∷ device "rd54" "RD54 winchester (MSCP)" 311200 rel_210 rel_210 none
    ∷ device "ra60" "RA60 pack (MSCP)" 400176 rel_210 rel_210 none
    ∷ device "ra70" "RA70 disk (MSCP)" 547041 rel_210 rel_210 none
    ∷ device "ra80" "RA80 disk (MSCP)" 237212 rel_210 rel_210 none
    ∷ device "ra81" "RA81 disk (MSCP)" 891072 rel_210 rel_210 none
    ∷ device "ra82" "RA82 disk (MSCP)" 1216665 rel_210 rel_210 none
    ∷ device "ra90" "RA90 disk (MSCP)" 2376153 rel_210 rel_210 none
    ∷ device "ra92" "RA92 disk (MSCP)" 2940951 rel_210 rel_210 none
    ∷ []
