-- ===== src/Examples/Tapes.antt =====
-- The theorems of dump and restore at concrete tapes.
use s5fs.Base.{◌≡◌, refl, ◌≢◌, true, false, arith, ◌==◌, if◌then◌else◌}
use s5fs.Layout.{Profile}
use s5fs.Endian.{Buf, pdp11, get16}
use s5fs.Image.{File}
use s5fs.Writer.{zeros}
use s5fs.Dump.Record.{Dump, word_sum, header, spclrec}
use s5fs.Restore.Tape.{head, hdr_cksum_ok, gethead}
use s5fs.Restore.Blocks.{out_of_fuel}
use s5fs.Restore.Run.{restore}
use s5fs.Dump.Checksum.{OneWord}
use s5fs.Restore.Heads.{hdr_cksum_ok-OneWord, SameRecord, tape_at, gethead-spclrec}
use s5fs.Restore.Total.{restore-ends}
use s5fs.Examples.Vhd.{sevens}

abbrev small : Profile
small = record {
  bsize = 512;
  inopb = 8;
  naddr = 13;
  laddr = 10;
  nindir = 128;
  ndirect = 32;
  clsize = 1;
}

abbrev nothing : File
nothing = record { size = 0; byte = λ j. 0 }

-- A dump of an image in the byte order of the PDP-11, with no byte written.
abbrev started : Dump
started = record {
  r = record { bo = pdp11; base = 0; prof = small; isize = 3; fsize = 64 };
  image = nothing;
  uninit = zeros;
  file = nothing;
  spcl = zeros;
  tap = false;
  tapbuf = zeros;
  tapn = 0;
  ncount = 0;
}

gethead-spclrec_example :
    (b : Buf) × (gethead (tape_at (spclrec 7 started) 512 0 false 0)
      ≡ head b (tape_at (spclrec 7 started) 512 512 false 0))
    × SameRecord 512 b (header pdp11 512 7 zeros)
gethead-spclrec_example = gethead-spclrec started 7 false 0 refl refl (omega arith)

-- A record whose only word is the sum that is asked for.
abbrev sound : Buf
sound j = if j == 30 then 222 else if j == 31 then 73 else 0

sound_sum : hdr_cksum_ok 512 sound ≡ true
unfolding hdr_cksum_ok word_sum get16
sound_sum = refl

abbrev damaged : Buf
damaged j = if j == 60 then 1 else sound j

damaged_word : OneWord pdp11 sound damaged 30
unfolding get16
damaged_word = record { others = λ i ne. ground arith }

hdr_cksum_ok-OneWord_example : hdr_cksum_ok 512 damaged ≡ false
unfolding get16
hdr_cksum_ok-OneWord_example =
    hdr_cksum_ok-OneWord 512 sound damaged 30 (omega arith) sound_sum damaged_word (cc)

restore-ends_example : restore sevens 512 true nothing zeros zeros 0 0 64 ≢ out_of_fuel
restore-ends_example = restore-ends sevens 512 true nothing zeros zeros 0 0 64 (omega arith)
