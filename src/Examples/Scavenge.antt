-- ===== src/Examples/Scavenge.antt =====
-- The theorems of scavenge at a concrete image.
use s5fs.Base.{arith, ◌+◌, ◌*◌, ◌%◌, ◌≡◌, refl, true, ltb, if◌then◌else◌}
use s5fs.Layout.{bsize_ok, Profile}
use s5fs.Endian.{pdp11}
use s5fs.Image.{File}
use s5fs.Writer.{zeros}
use s5fs.Scavenge.Used.{Scav}
use s5fs.Scavenge.Scan.{sig_zero, carve}
use s5fs.Scavenge.Run.{scan_blocks, no_report}
use s5fs.Scavenge.Kinds.{blanks, scan_blocks-blanks}
use s5fs.Scavenge.Copy.{IsCopy, Complete, carve-IsCopy}

abbrev small : Profile
small = record {
  bsize = 512;
  inopb = 8;
  naddr = 13;
  laddr = 10;
  nindir = 128;
  ndirect = 32;
  clsize = 1;
}

-- Sixty-four blocks whose bytes are their offsets, modulo 256, with no block in use.
abbrev image : File
image = record { size = 64 * 512; byte = λ j. j % 256 }

abbrev free_space : Scav
free_space = record {
  r = record { bo = pdp11; base = 0; prof = small; isize = 3; fsize = 64 };
  image = image;
  uninit = zeros;
  used = zeros;
}

carve-IsCopy_example :
    IsCopy free_space 60 3000 (carve free_space 60 3000)
    × Complete free_space 60 3000 (carve free_space 60 3000)
carve-IsCopy_example = carve-IsCopy free_space 60 3000 (unfold bsize_ok in refl)

-- The same with zeros from block 62 on.
abbrev half_blank : Scav
half_blank = record free_space {
  image = record { size = 64 * 512; byte = λ j. if ltb j (62 * 512) then j % 256 else 0 };
}

scan_blocks-blanks_example :
    (scan_blocks true half_blank 3 61 no_report).kinds sig_zero
    ≡ no_report.kinds sig_zero + blanks half_blank 3 61
scan_blocks-blanks_example = scan_blocks-blanks true half_blank 3 61 no_report (omega arith)
