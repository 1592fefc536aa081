-- ===== src/Examples/Vhd.antt =====
-- The theorems of the VHD containers at a concrete file.
use s5fs.Base.{ℕ, ◌*◌, ◌<◌, ◌≡◌, refl, none, some, arith}
use s5fs.Image.{File, read_at}
use s5fs.Vhd.Geometry.{
  vhd_chs, capped, geometry, first_try, second_try, third_try, Fits, vhd_chs-Fits,
}
use s5fs.Vhd.Footer.{starts, footer_of, read_footer, do_wrap, do_info, do_unwrap}
use s5fs.Vhd.Wrap.{vhd_info, do_unwrap-do_wrap}

-- An RL02 of 20480 sectors: 301 cylinders of 4 heads and 17 sectors.
rl02 : vhd_chs 20480 ≡ record { cylinders = 301; heads = 4; sectors = 17 }
unfolding vhd_chs capped geometry first_try second_try third_try
rl02 = refl

vhd_chs-Fits_example : Fits (capped 20480) (vhd_chs 20480)
vhd_chs-Fits_example = vhd_chs-Fits 20480

-- A disk of 20480 sectors of 7s.
abbrev pub sevens : File
sevens = record { size = 20480 * 512; byte = λ j. 7 }

sevens_plain : read_footer sevens ≡ none
unfolding read_footer read_at footer_of starts
sevens_plain = refl

do_unwrap-do_wrap_example :
    (w : File) × (do_wrap 946684801 sevens ≡ some w)
    × (do_wrap 946684900 w ≡ none)
    × (do_info w ≡ some (vhd_info 946684801 (20480 * 512)))
    × (g : File) × (do_unwrap w ≡ some g)
    × (g.size ≡ 20480 * 512)
    × ((j : ℕ) → j < 20480 * 512 → g.byte j ≡ 7)
do_unwrap-do_wrap_example = do_unwrap-do_wrap 946684801 946684900 sevens sevens_plain (omega arith)
