-- ===== src/Scavenge/Scan.antt =====
-- classify, carve and the two scans of cmd_scavenge: evidence of deleted files.
use s5fs.Base.{
  ℕ, zero, suc, ◌+◌, ◌-◌, ◌*◌, ◌/◌, Bool, true, false, ◌&&◌, ◌||◌, none, some, ltb, leb, ◌==◌,
  if◌then◌else◌, min,
}
use s5fs.Layout.{direntsz, u32}
use s5fs.Endian.{Buf, Endian, get16}
use s5fs.Image.{File, write_at}
use s5fs.Inode.{bread}
use s5fs.Scavenge.Used.{Scav}

pub data Sig : Type 0 where
  sig_aout sig_ar sig_tar sig_text sig_dir sig_zero sig_other : Sig

-- How many of the first bytes are zero, printable, and neither.
pub record Census : Type 0 where
  pub zero_bytes : ℕ
  pub printable : ℕ
  pub others : ℕ

abbrev pub is_print : ℕ → Bool
is_print c = (leb 32 c && ltb c 127) || (c == 9 || (c == 10 || c == 13))

unfoldable pub count_byte : ℕ → Census → Census
count_byte c k =
    if c == 0
    then record k { zero_bytes = k.zero_bytes + 1 }
    else if is_print c
    then record k { printable = k.printable + 1 }
    else record k { others = k.others + 1 }

-- The loop over the first `n` bytes.
unfoldable pub census : ℕ → Buf → Census
census zero b = record { zero_bytes = 0; printable = 0; others = 0 }
census (suc n) b = count_byte (b n) (census n b)

-- `memcmp(b + 257, "ustar", 5) == 0`
abbrev pub is_ustar : Buf → Bool
is_ustar b = b 257 == b'u' && (b 258 == b's' && (b 259 == b't' && (b 260 == b'a' && b 261 == b'r')))

-- `.` in slot 0 and `..` in slot 1.
abbrev pub is_dir_block : Endian → Buf → Bool
is_dir_block e b = (get16 e b 2 == 0 && (b 4 == b'.' && b (direntsz + 4) == b'.')) && b 5 == 0

unfoldable pub by_bytes : ℕ → Census → Sig
by_bytes bsize k =
    if k.zero_bytes == bsize
    then sig_zero
    else if leb 16 k.printable && ltb (k.others * 20) k.printable
    then sig_text
    else sig_other

unfoldable pub classify : Endian → ℕ → Buf → Sig
classify e bsize b =
    let w : ℕ = get16 e b 0 in
    if w == 0o407 || (w == 0o410 || w == 0o411)
    then sig_aout
    else if w == 0o177545
    then sig_ar
    else if leb 512 bsize && is_ustar b
    then sig_tar
    else if is_dir_block e b
    then sig_dir
    else by_bytes bsize (census bsize b)

-- The loop of carve with the output `out`, which holds `done` bytes; each round but the last takes a
-- whole block, so that there are no more than `len` rounds.
unfoldable pub carve_loop : ℕ → Scav → ℕ → ℕ → File → File
carve_loop zero s bno len out = out
carve_loop (suc n) s bno len out =
    let cur : ℕ = u32 (bno + out.size / s.r.prof.bsize) in
    let want : ℕ = min (len - out.size) s.r.prof.bsize in
    elim (ltb out.size len && ltb cur s.r.fsize) [
      | false ↦ out
      | true ↦ elim (bread s.r s.image cur s.uninit) [
        | none ↦ out
        | some b ↦ carve_loop n s bno len (write_at out out.size want b)
      ]
    ]

abbrev pub empty_file : File
empty_file = record { size = 0; byte = λ j. 0 }

unfoldable pub carve : Scav → ℕ → ℕ → File
carve s bno len = carve_loop len s bno len empty_file
