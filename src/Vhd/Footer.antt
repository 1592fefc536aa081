-- ===== src/Vhd/Footer.antt =====
-- The footer of cmd_vhd.c, and the subcommands wrap, unwrap and info on a file that is open.
--
-- The clock is a parameter.
use s5fs.Base.{
  ℕ, zero, suc, ◌+◌, ◌-◌, ◌*◌, ◌/◌, ◌%◌, ◌^◌, Bool, true, ◌&&◌, Option, none, some, List, [], ◌∷◌,
  ltb, ◌==◌, if◌then◌else◌, codes,
}
use s5fs.Endian.{Buf, set_byte}
use s5fs.Image.{File, read_at, write_at}
use s5fs.Vhd.Geometry.{Chs, vhd_chs}
use s5fs.Vhd.Words.{be64, rd64, put_text, be16, be32, rd32}

-- VHD_COOKIE
abbrev pub vhd_cookie : List ℕ
vhd_cookie = codes "conectix"

-- VHD_EPOCH
abbrev pub vhd_epoch : ℕ
vhd_epoch = 946684800

-- The first 56 bytes of the footer; `now` is `time(NULL)`.
unfoldable pub head_fields : ℕ → ℕ → Buf
head_fields now size =
    let f : Buf = put_text (λ i. 0) 0 vhd_cookie in
    let f : Buf = be32 (be32 f 8 2) 12 0x10000 in
    let f : Buf = be32 (be64 f 16 0xFFFFFFFFFFFFFFFF) 24 (now + 2 ^ 64 - vhd_epoch) in
    let f : Buf = be32 (put_text f 28 (codes "s5fs")) 32 0x10000 in
    be64 (be64 (put_text f 36 (codes "Wi2k")) 40 size) 48 size

-- The geometry and the type of the disk, behind the bytes of `f`.
unfoldable pub disk_fields : Buf → Chs → Buf
disk_fields f c = be32 (set_byte (set_byte (be16 f 56 c.cylinders) 58 c.heads) 59 c.sectors) 60 2

unfoldable pub byte_sum : ℕ → Buf → ℕ
byte_sum zero f = 0
byte_sum (suc i) f = (byte_sum i f + f i) % 2 ^ 32

unfoldable pub vhd_footer : ℕ → ℕ → Buf
vhd_footer now size =
    let f : Buf = disk_fields (head_fields now size) (vhd_chs (size / 512)) in
    be32 f 64 (0xFFFFFFFF - byte_sum 512 f)

-- `memcmp(foot, text, strlen(text)) == 0`
unfoldable pub starts : Buf → ℕ → List ℕ → Bool
starts b o [] = true
starts b o (x ∷ xs) = b o == x && starts b (o + 1) xs

-- The bytes that `read` gave, if they are a footer.
unfoldable pub footer_of : Option Buf → Option Buf
footer_of none = none
footer_of (some foot) = if starts foot 0 vhd_cookie then some foot else none

unfoldable pub read_footer : File → Option Buf
read_footer f = if ltb f.size 512 then none else footer_of (read_at f (f.size - 512) 512 (λ i. 0))

-- do_wrap with both files open: `none` where the source has a footer already. With a target,
-- copy_prefix has copied all bytes of the source to it.
unfoldable pub append_footer : ℕ → File → Option Buf → Option File
append_footer now f (some foot) = none
append_footer now f none = some (write_at f f.size 512 (vhd_footer now f.size))

unfoldable pub do_wrap : ℕ → File → Option File
do_wrap now f = append_footer now f (read_footer f)

-- do_unwrap: the file that `truncate`, or copy_prefix, leaves.
unfoldable pub strip_footer : File → Option Buf → Option File
strip_footer f none = none
strip_footer f (some foot) = some (record { size = f.size - 512; byte = f.byte })

unfoldable pub do_unwrap : File → Option File
do_unwrap f = strip_footer f (read_footer f)

-- What do_info prints of the footer.
pub record Info : Type 0 where
  pub kind : ℕ
  pub bytes : ℕ
  pub geometry : Chs
  pub created : ℕ

-- `f[56] << 8 | f[57], f[58], f[59]`
abbrev pub chs_at : Buf → Chs
chs_at b = record { cylinders = b 56 * 256 + b 57; heads = b 58; sectors = b 59 }

unfoldable pub footer_info : Option Buf → Option Info
footer_info none = none
footer_info (some b) = some (record {
  kind = rd32 b 60;
  bytes = rd64 b 48;
  geometry = chs_at b;
  created = rd32 b 24 + vhd_epoch;
})

unfoldable pub do_info : File → Option Info
do_info f = footer_info (read_footer f)
