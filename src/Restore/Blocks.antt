-- ===== src/Restore/Blocks.antt =====
-- read_blocks of cmd_restore.c: the block map of an inode on the tape.
use s5fs.Base.{
  ℕ, zero, suc, ◌+◌, ◌-◌, true, false, Option, none, some, ltb, leb, ◌==◌, if◌then◌else◌, min,
}
use s5fs.Endian.{Buf, pdp11, get16}
use s5fs.Writer.{wtblk, S5Fs, alloc}
use s5fs.Dump.Record.{ts_addr, c_count, c_addr}
use s5fs.Restore.Tape.{Dr, Head, no_head, head, rec_read, gethead, htype}

-- What read_blocks works on: the tape, `b`, and, where blocks are written, the target and `da`.
pub record Sink : Type 0 where
  pub dr : Dr
  pub b : ℕ
  pub fs : Option S5Fs
  pub da : ℕ → ℕ

-- What a search with so much fuel comes to; `undefined` is an access outside of an array.
pub data Run (A : Type 0) : Type 0 where
  ended : A → Run A
  undefined : Run A
  out_of_fuel : Run A

-- `da[b] = n`
abbrev pub set_da : ℕ → Sink → Sink
set_da n s = record s { da = λ k. if k == s.b then n else s.da k }

-- A data record goes to a block of its own, or is passed over. `none` is an access outside of
-- `s_free`.
unfoldable pub keep_record : Buf → Sink → Option Sink
keep_record rec s = elim (s.fs) [
  | none ↦ some s
  | some fs ↦ elim (alloc fs) [
    | none ↦ none
    | some (bno, fs') ↦ some (set_da bno (record s { fs = some (wtblk bno rec fs') }))
  ]
]

unfoldable pub skip_flag : Sink → Sink
skip_flag s = elim (s.fs) [ none ↦ s | some _ ↦ set_da 0 s ]

-- The end of read_blocks within a loop, or the state to go on with.
pub data Flow : Type 0 where
  eof : Sink → Flow
  fault : Flow
  more : Sink → Flow

unfoldable pub take_record : Sink → Flow
take_record s = elim (rec_read s.dr) [
  | none ↦ eof s
  | some (rec, dr') ↦ elim (keep_record rec (record s { dr = dr' })) [
    | none ↦ fault
    | some s' ↦ more s'
  ]
]

-- One flag.
unfoldable pub take_flag : ℕ → Sink → Flow
take_flag flag s = if flag == 0 then more (skip_flag s) else take_record s

-- What is left to do where nothing ended read_blocks.
unfoldable pub then_flow : Flow → (Sink → Flow) → Flow
then_flow (eof s) k = eof s
then_flow fault k = fault
then_flow (more s) k = k s

-- `for (i = 0; i < count && b < nblk; i++, b++)`, from `i` on, `n` flags at most.
unfoldable pub take_flags : ℕ → ℕ → Buf → ℕ → Sink → Flow
take_flags zero i ab nblk s = more s
take_flags (suc n) i ab nblk s = elim (ltb s.b nblk) [
  | false ↦ more s
  | true ↦
      then_flow (take_flag (ab (c_addr + i)) s)
        (λ s'. take_flags n (i + 1) ab nblk (record s' { b = s'.b + 1 }))
]

-- The flags that a record can hold at most.
abbrev pub flag_count : ℕ → Buf → ℕ
flag_count rec ab = min (get16 pdp11 ab c_count) (rec - c_addr)

-- `do gethead while (htype == TS_ADDR)`: a header of another type ends it.
unfoldable pub past_addr : (Dr → Run Head) → Head → Run Head
past_addr again (no_head dr) = ended (no_head dr)
past_addr again (head hdr dr) = elim (htype hdr == ts_addr) [
  | true ↦ again dr
  | false ↦ ended (head hdr dr)
]

unfoldable pub skip_addrs : ℕ → Dr → Run Head
skip_addrs zero dr = out_of_fuel
skip_addrs (suc fuel) dr = past_addr (skip_addrs fuel) (gethead dr)

-- The end of read_blocks: the next header, or the return value 0.
pub data Ahead : Type 0 where
  at_end : Sink → Ahead
  ahead : Buf → Sink → Ahead

abbrev pub with_dr : Sink → Head → Ahead
with_dr s (no_head dr) = at_end (record s { dr = dr })
with_dr s (head hdr dr) = ahead hdr (record s { dr = dr })

unfoldable pub then_run : {A B : Type 0} → Run A → (A → Run B) → Run B
then_run (ended a) k = k a
then_run undefined k = undefined
then_run out_of_fuel k = out_of_fuel

-- The end of read_blocks within the flags, or what is left to do.
unfoldable pub flow_run : Flow → (Sink → Run Ahead) → Run Ahead
flow_run (eof s) k = ended (at_end s)
flow_run fault k = undefined
flow_run (more s) k = k s

-- A TS_ADDR header goes on with the map, any other one is the next.
unfoldable pub next_map : (Buf → Sink → Run Ahead) → Sink → Head → Run Ahead
next_map again s (no_head dr) = ended (at_end (record s { dr = dr }))
next_map again s (head hdr dr) = elim (htype hdr == ts_addr) [
  | true ↦ again hdr (record s { dr = dr })
  | false ↦ ended (ahead hdr (record s { dr = dr }))
]

unfoldable pub read_blocks : ℕ → Buf → ℕ → Sink → Run Ahead
read_blocks zero ab nblk s = out_of_fuel
read_blocks (suc fuel) ab nblk s = flow_run (take_flags (flag_count s.dr.rec ab) 0 ab nblk s) λ s'.
    elim (leb nblk s'.b) [
      | true ↦ then_run (skip_addrs (suc fuel) s'.dr) (λ h. ended (with_dr s' h))
      | false ↦ next_map (λ hdr. read_blocks fuel hdr nblk) s' (gethead s'.dr)
    ]
