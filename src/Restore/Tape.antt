-- ===== src/Restore/Tape.antt =====
-- The tape of cmd_restore.c: rec_read, hdr_cksum_ok, gethead, htype and skip_map.
use s5fs.Base.{ℕ, zero, suc, ◌+◌, ◌/◌, Bool, Option, none, some, ◌==◌, if◌then◌else◌}
use s5fs.Layout.{u16}
use s5fs.Endian.{Buf, pdp11, get16}
use s5fs.Image.{File, read_at}
use s5fs.Writer.{zeros}
use s5fs.Dump.Record.{dmagic, dcheck, c_type, c_magic, c_count, word_sum}

-- DR with the file in place of its descriptor, and the globals g_force and g_badsum. The tape is in
-- the byte order of the PDP-11.
pub record Dr : Type 0 where
  pub file : File
  pub pos : ℕ
  pub rec : ℕ
  pub force : Bool
  pub badsum : ℕ

-- A buffer holds `rec` bytes, and no other byte of it is looked at.
unfoldable pub rec_read : Dr → Option (Buf × Dr)
rec_read dr = elim (read_at dr.file dr.pos dr.rec zeros) [
  | none ↦ none
  | some b ↦ some (b, record dr { pos = dr.pos + dr.rec })
]

unfoldable pub hdr_cksum_ok : ℕ → Buf → Bool
hdr_cksum_ok rec hdr = u16 (word_sum pdp11 hdr (rec / 2)) == u16 dcheck

-- The end of gethead, and so of skip_map: with no header for the return value 0.
pub data Head : Type 0 where
  no_head : Dr → Head
  head : Buf → Dr → Head

-- A record with the magic number; one with a bad checksum counts, and is a header under -f only.
unfoldable pub check_head : Buf → Dr → Head
check_head hdr dr =
    if get16 pdp11 hdr c_magic == dmagic
    then (if hdr_cksum_ok dr.rec hdr
        then head hdr dr
        else if dr.force
        then head hdr (record dr { badsum = dr.badsum + 1 })
        else no_head (record dr { badsum = dr.badsum + 1 }))
    else no_head dr

unfoldable pub gethead : Dr → Head
gethead dr = elim (rec_read dr) [ none ↦ no_head dr | some (hdr, dr') ↦ check_head hdr dr' ]

abbrev pub htype : Buf → ℕ
htype hdr = get16 pdp11 hdr c_type

-- `while (n--) if (!rec_read(dr, tmp)) return 0;`
unfoldable pub skip_records : ℕ → Dr → Option Dr
skip_records zero dr = some dr
skip_records (suc n) dr = elim (rec_read dr) [ none ↦ none | some (b, dr') ↦ skip_records n dr' ]

unfoldable pub skip_map : Buf → Dr → Head
skip_map hdr dr = elim (skip_records (get16 pdp11 hdr c_count) dr) [
  | none ↦ no_head dr
  | some dr' ↦ gethead dr'
]
