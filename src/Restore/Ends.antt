-- ===== src/Restore/Ends.antt =====
-- cmd_restore ends: each header takes a record of the tape.
use s5fs.Base.{
  ℕ, zero, suc, ◌+◌, ◌-◌, ◌≤◌, ◌<◌, ◌≡◌, refl, inl, inr, some, arith, ltb, leb, ◌==◌, Bool-cases,
  Option-cases,
}
use s5fs.Endian.{Buf, pdp11, get16}
use s5fs.Image.{read_at}
use s5fs.Writer.{alloc}
use s5fs.Dump.Record.{ts_addr, c_count, c_addr}
use s5fs.Restore.Tape.{
  Dr, Head, no_head, head, rec_read, check_head, gethead, htype, skip_records, skip_map,
}
use s5fs.Restore.Blocks.{
  Sink, Run, Ahead, at_end, ahead, ended, undefined, out_of_fuel, keep_record, skip_flag, Flow, eof,
  fault, more, take_record, take_flag, take_flags, flag_count, past_addr, skip_addrs, with_dr,
  then_flow, then_run, flow_run, next_map, read_blocks,
}

-- The bytes of the tape that are left.
abbrev pub left : Dr → ℕ
left dr = dr.file.size - dr.pos

abbrev pub Moves : Dr → Dr → Type 0
Moves dr dr' = (dr'.rec ≡ dr.rec) × (left dr' ≤ left dr)

abbrev pub Passes : Dr → Dr → Type 0
Passes dr dr' = (dr'.rec ≡ dr.rec) × (left dr' < left dr)

abbrev pub AfterHead : Dr → Head → Type 0
AfterHead dr (no_head dr') = Moves dr dr'
AfterHead dr (head h dr') = Passes dr dr'

abbrev pub AfterFlow : Dr → Flow → Type 0
AfterFlow dr (eof s) = Moves dr s.dr
AfterFlow dr fault = Unit
AfterFlow dr (more s) = Moves dr s.dr

abbrev pub AfterAhead : Dr → Ahead → Type 0
AfterAhead dr (at_end s) = Moves dr s.dr
AfterAhead dr (ahead h s) = Passes dr s.dr

-- The fuel was enough, and what came out has the property.
abbrev pub Ends : {A : Type 0} → (A → Type 0) → Run A → Type 0
Ends P (ended a) = P a
Ends P undefined = Unit
Ends P out_of_fuel = ⊥

rec_read-Passes : (dr : Dr) → 0 < dr.rec → (p : Buf × Dr) → rec_read dr ≡ some p → Passes dr p.1
unfolding rec_read read_at
rec_read-Passes dr h p e = ground arith

check_head-AfterHead : (dr dr' : Dr) (hdr : Buf) → Passes dr dr' → AfterHead dr (check_head hdr dr')
unfolding check_head
check_head-AfterHead dr dr' hdr h = ground arith

pub gethead-AfterHead : (dr : Dr) → 0 < dr.rec → AfterHead dr (gethead dr)
unfolding gethead
gethead-AfterHead dr h = elim (Option-cases (rec_read dr)) [
  | inl e ↦ rw (e, AfterHead) (refl, omega arith)
  | inr (p, e) ↦ rw (e, AfterHead) (check_head-AfterHead dr p.1 p.0 (rec_read-Passes dr h p e))
]

skip_records-Moves :
    (n : ℕ) (dr dr' : Dr) → 0 < dr.rec → skip_records n dr ≡ some dr' → Moves dr dr'
unfolding skip_records
skip_records-Moves zero dr dr' h e = ground arith
skip_records-Moves (suc n) dr dr' h e = elim (Option-cases (rec_read dr)) [
  | inl e' ↦ ground arith
  | inr (p, e') ↦ ground (arith, rec_read-Passes dr h p e', skip_records-Moves n p.1 dr')
]

Moves-AfterHead : (dr dr' : Dr) (h : Head) → Moves dr dr' → AfterHead dr' h → AfterHead dr h
Moves-AfterHead dr dr' (no_head d) m a = ground arith
Moves-AfterHead dr dr' (head hdr d) m a = ground arith

Moves-AfterFlow : (dr dr' : Dr) (f : Flow) → Moves dr dr' → AfterFlow dr' f → AfterFlow dr f
Moves-AfterFlow dr dr' (eof s) m a = ground arith
Moves-AfterFlow dr dr' fault m a = tt
Moves-AfterFlow dr dr' (more s) m a = ground arith

pub skip_map-AfterHead : (hdr : Buf) (dr : Dr) → 0 < dr.rec → AfterHead dr (skip_map hdr dr)
unfolding skip_map
skip_map-AfterHead hdr dr h = elim (Option-cases (skip_records (get16 pdp11 hdr c_count) dr)) [
  | inl e ↦ rw (e, AfterHead) (refl, omega arith)
  | inr (dr', e) ↦
      let m : Moves dr dr' = skip_records-Moves (get16 pdp11 hdr c_count) dr dr' h e in
      rw (e, AfterHead)
        (Moves-AfterHead dr dr' (gethead dr') m (gethead-AfterHead dr' (omega arith)))
]

keep_record-dr : (rec : Buf) (s s' : Sink) → keep_record rec s ≡ some s' → s'.dr ≡ s.dr
unfolding keep_record
keep_record-dr rec s s' e = elim (Option-cases (s.fs)) [
  | inl f ↦ ground arith
  | inr (fs, f) ↦ elim (Option-cases (alloc fs)) [
    | inl g ↦ ground arith
    | inr (p, g) ↦ ground arith
  ]
]

skip_flag-dr : (s : Sink) → (skip_flag s).dr ≡ s.dr
unfolding skip_flag
skip_flag-dr s = elim (Option-cases (s.fs)) [ inl f ↦ ground arith | inr (fs, f) ↦ ground arith ]

take_record-AfterFlow : (s : Sink) → 0 < s.dr.rec → AfterFlow s.dr (take_record s)
unfolding take_record
take_record-AfterFlow s h = elim (Option-cases (rec_read s.dr)) [
  | inl e ↦ rw (e, AfterFlow) (refl, omega arith)
  | inr (p, e) ↦
      let m : Passes s.dr p.1 = rec_read-Passes s.dr h p e in
      let k : Sink = record s { dr = p.1 } in
      elim (Option-cases (keep_record p.0 k)) [
        | inl f ↦ rw (e, f, AfterFlow) tt
        | inr (s', f) ↦ rw (e, f, AfterFlow) (rw (keep_record-dr p.0 k s' f) (m.0, omega arith))
      ]
]

take_flag-AfterFlow : (flag : ℕ) (s : Sink) → 0 < s.dr.rec → AfterFlow s.dr (take_flag flag s)
unfolding take_flag
take_flag-AfterFlow flag s h = elim (Bool-cases (flag == 0)) [
  | inl z ↦ rw (z, AfterFlow) (rw (skip_flag-dr s) (refl, omega arith))
  | inr z ↦ rw (z, AfterFlow) (take_record-AfterFlow s h)
]

then_flow-AfterFlow :
    (dr : Dr) (f : Flow) (k : Sink → Flow)
    → AfterFlow dr f
    → ((s : Sink) → Moves dr s.dr → AfterFlow dr (k s))
    → AfterFlow dr (then_flow f k)
unfolding then_flow
then_flow-AfterFlow dr (eof s) k a h = a
then_flow-AfterFlow dr fault k a h = tt
then_flow-AfterFlow dr (more s) k a h = h s a

take_flags-AfterFlow :
    (n i : ℕ) (ab : Buf) (nblk : ℕ) (s : Sink)
    → 0 < s.dr.rec
    → AfterFlow s.dr (take_flags n i ab nblk s)
unfolding take_flags
take_flags-AfterFlow zero i ab nblk s h = (refl, omega arith)
take_flags-AfterFlow (suc n) i ab nblk s h = elim (Bool-cases (ltb s.b nblk)) [
  | inl e ↦
      rw (e, AfterFlow)
        (then_flow-AfterFlow s.dr (take_flag (ab (c_addr + i)) s)
          (λ s'. take_flags n (i + 1) ab nblk (record s' { b = s'.b + 1 }))
          (take_flag-AfterFlow (ab (c_addr + i)) s h)
          (λ s' m.
            Moves-AfterFlow s.dr s'.dr (take_flags n (i + 1) ab nblk (record s' { b = s'.b + 1 })) m
              (take_flags-AfterFlow n (i + 1) ab nblk (record s' { b = s'.b + 1 }) (omega arith))))
  | inr e ↦ rw (e, AfterFlow) (refl, omega arith)
]

pub Ends-then_run :
    {A B : Type 0} (P : A → Type 0) (Q : B → Type 0) (r : Run A) (k : A → Run B)
    → Ends P r
    → ((a : A) → P a → Ends Q (k a))
    → Ends Q (then_run r k)
unfolding then_run
Ends-then_run P Q (ended a) k h f = f a h
Ends-then_run P Q undefined k h f = tt
Ends-then_run P Q out_of_fuel k h f = absurd h

past_addr-AfterHead :
    (dr : Dr) (again : Dr → Run Head) (h : Head)
    → AfterHead dr h
    → ((dr' : Dr) → Passes dr dr' → Ends (AfterHead dr) (again dr'))
    → Ends (AfterHead dr) (past_addr again h)
unfolding past_addr
past_addr-AfterHead dr again (no_head d) a f = a
past_addr-AfterHead dr again (head hdr d) a f = elim (Bool-cases (htype hdr == ts_addr)) [
  | inl e ↦ rw (e, Ends) (f d a)
  | inr e ↦ rw (e, Ends) a
]

Passes-AfterHead : (dr dr' : Dr) → Passes dr dr' → (h : Head) → AfterHead dr' h → AfterHead dr h
Passes-AfterHead dr dr' m h a = Moves-AfterHead dr dr' h (m.0, omega arith) a

Ends-mono :
    {A : Type 0} {P Q : A → Type 0} (r : Run A) → ((a : A) → P a → Q a) → Ends P r → Ends Q r
Ends-mono (ended a) f h = f a h
Ends-mono undefined f h = tt
Ends-mono out_of_fuel f h = absurd h

skip_addrs-AfterHead :
    (fuel : ℕ) (dr : Dr) → 0 < dr.rec → left dr < fuel → Ends (AfterHead dr) (skip_addrs fuel dr)
unfolding skip_addrs
skip_addrs-AfterHead zero dr h l = absurd (omega arith)
skip_addrs-AfterHead (suc fuel) dr h l =
    past_addr-AfterHead dr (skip_addrs fuel) (gethead dr) (gethead-AfterHead dr h) (λ d m.
      Ends-mono (skip_addrs fuel d) (Passes-AfterHead dr d m)
        (skip_addrs-AfterHead fuel d (omega arith) (omega arith)))

with_dr-AfterAhead :
    (dr : Dr) (s : Sink) (h : Head) → Moves dr s.dr → AfterHead s.dr h → AfterAhead dr (with_dr s h)
with_dr-AfterAhead dr s (no_head d) m a = ground arith
with_dr-AfterAhead dr s (head hdr d) m a = ground arith

flow_run-AfterAhead :
    (dr : Dr) (f : Flow) (k : Sink → Run Ahead)
    → AfterFlow dr f
    → ((s : Sink) → Moves dr s.dr → Ends (AfterAhead dr) (k s))
    → Ends (AfterAhead dr) (flow_run f k)
unfolding flow_run
flow_run-AfterAhead dr (eof s) k a h = a
flow_run-AfterAhead dr fault k a h = tt
flow_run-AfterAhead dr (more s) k a h = h s a

next_map-AfterAhead :
    (dr : Dr) (again : Buf → Sink → Run Ahead) (s : Sink) (h : Head)
    → AfterHead dr h
    → ((hdr : Buf) (s' : Sink) → Passes dr s'.dr → Ends (AfterAhead dr) (again hdr s'))
    → Ends (AfterAhead dr) (next_map again s h)
unfolding next_map
next_map-AfterAhead dr again s (no_head d) a f = a
next_map-AfterAhead dr again s (head hdr d) a f = elim (Bool-cases (htype hdr == ts_addr)) [
  | inl e ↦ rw (e, Ends) (f hdr (record s { dr = d }) a)
  | inr e ↦ rw (e, Ends) a
]

Passes-AfterAhead : (dr dr' : Dr) → Passes dr dr' → (a : Ahead) → AfterAhead dr' a → AfterAhead dr a
Passes-AfterAhead dr dr' m (at_end s) a = ground arith
Passes-AfterAhead dr dr' m (ahead h s) a = ground arith

-- With more fuel than bytes left, read_blocks ends, and leaves less of the tape.
pub read_blocks-AfterAhead :
    (fuel : ℕ) (ab : Buf) (nblk : ℕ) (s : Sink)
    → 0 < s.dr.rec
    → left s.dr < fuel
    → Ends (AfterAhead s.dr) (read_blocks fuel ab nblk s)
unfolding read_blocks
read_blocks-AfterAhead zero ab nblk s h l = absurd (omega arith)
read_blocks-AfterAhead (suc fuel) ab nblk s h l =
    flow_run-AfterAhead s.dr (take_flags (flag_count s.dr.rec ab) 0 ab nblk s) _
      (take_flags-AfterFlow (flag_count s.dr.rec ab) 0 ab nblk s h)
      λ s' m. elim (Bool-cases (leb nblk s'.b)) [
        | inl e ↦
            rw (e, Ends)
              (Ends-then_run (AfterHead s'.dr) (AfterAhead s.dr) (skip_addrs (suc fuel) s'.dr)
                (λ k. ended (with_dr s' k))
                (skip_addrs-AfterHead (suc fuel) s'.dr (omega arith) (omega arith))
                (λ k a. with_dr-AfterAhead s.dr s' k m a))
        | inr e ↦
            rw (e, Ends)
              (next_map-AfterAhead s.dr (λ hdr. read_blocks fuel hdr nblk) s' (gethead s'.dr)
                (Moves-AfterHead s.dr s'.dr (gethead s'.dr) m
                  (gethead-AfterHead s'.dr (omega arith)))
                (λ hdr k p.
                  Ends-mono (read_blocks fuel hdr nblk k) (Passes-AfterAhead s.dr k.dr p)
                    (read_blocks-AfterAhead fuel hdr nblk k (omega arith) (omega arith))))
      ]
