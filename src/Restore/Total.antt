-- ===== src/Restore/Total.antt =====
-- cmd_restore ends on every tape.
use s5fs.Base.{
  ℕ, zero, suc, ◌<◌, ◌≡◌, subst, ◌≢◌, inl, inr, Bool, ◌||◌, none, some, arith, ◌==◌, Bool-cases,
  Option-cases,
}
use s5fs.Endian.{Buf}
use s5fs.Image.{File}
use s5fs.Writer.{zeros, S5Fs}
use s5fs.Dump.Record.{ts_inode, ts_end}
use s5fs.Restore.Tape.{Dr, Head, no_head, head, gethead, htype}
use s5fs.Restore.Blocks.{
  Sink, Run, Ahead, at_end, ahead, ended, undefined, out_of_fuel, read_blocks,
}
use s5fs.Mkfs.{begin, freelist}
use s5fs.Superblock.{finish}
use s5fs.Restore.Run.{
  tape_fuel, nblk_of, skip_blocks, pass_over, max_inum, without_sink, first_next, second_next,
  with_blocks, after_pass, both_passes, first_pass, put_inode, finish_inode, restore_inode,
  restore_head, has_failed, second_pass, restore_opts, restored, fill_target, make_target, restore,
}
use s5fs.Restore.Ends.{
  left, Passes, AfterHead, AfterAhead, Ends, gethead-AfterHead, skip_map-AfterHead, Ends-then_run,
  read_blocks-AfterAhead,
}

without_sink-AfterHead : (dr : Dr) (a : Ahead) → AfterAhead dr a → AfterHead dr (without_sink a)
without_sink-AfterHead dr (at_end s) h = h
without_sink-AfterHead dr (ahead k s) h = h

pass_over-AfterHead :
    (fuel : ℕ) (hdr : Buf) (dr : Dr)
    → 0 < dr.rec
    → left dr < fuel
    → Ends (AfterHead dr) (pass_over fuel hdr dr)
unfolding pass_over
pass_over-AfterHead fuel hdr dr h l = elim (Bool-cases (htype hdr == ts_inode)) [
  | inr e ↦ rw (e, Ends) (skip_map-AfterHead hdr dr h)
  | inl e ↦
      rw (e, Ends)
        (Ends-then_run (AfterAhead dr) (AfterHead dr) (skip_blocks fuel hdr dr)
          (λ a. ended (without_sink a))
          (read_blocks-AfterAhead fuel hdr (nblk_of dr.rec hdr)
            (record { dr = dr; b = 0; fs = none; da = zeros }) h l)
          (without_sink-AfterHead dr))
]

-- The tape is as long as before, and so are its records.
abbrev Kept : ℕ → Dr → Type 0
Kept rec dr = dr.rec ≡ rec

abbrev KeptFirst : ℕ → ℕ × Dr → Type 0
KeptFirst rec p = Kept rec p.1

first_next-Ends :
    (dr : Dr) (again : Buf → Dr → Run (ℕ × Dr)) (last : ℕ) (h : Head)
    → AfterHead dr h
    → ((hdr : Buf) (dr' : Dr) → Passes dr dr' → Ends (KeptFirst dr.rec) (again hdr dr'))
    → Ends (KeptFirst dr.rec) (first_next again last h)
unfolding first_next
first_next-Ends dr again last (no_head d) a f = a.0
first_next-Ends dr again last (head k d) a f = f k d a

first_pass-Ends :
    (fuel rec last : ℕ) (hdr : Buf) (dr : Dr)
    → dr.rec ≡ rec
    → 0 < rec
    → left dr < fuel
    → Ends (KeptFirst rec) (first_pass fuel last hdr dr)
unfolding first_pass
first_pass-Ends zero rec last hdr dr e h l = absurd (omega arith)
first_pass-Ends (suc fuel) rec last hdr dr e h l = elim (Bool-cases (htype hdr == ts_end)) [
  | inl t ↦ rw (t, Ends) e
  | inr t ↦
      rw (t, Ends)
        (Ends-then_run (AfterHead dr) (KeptFirst rec) (pass_over (suc fuel) hdr dr)
          (first_next (first_pass fuel (max_inum hdr last)) (max_inum hdr last))
          (pass_over-AfterHead (suc fuel) hdr dr (omega arith) l)
          (λ k a.
            subst
              (λ r.
                Ends (KeptFirst r)
                  (first_next (first_pass fuel (max_inum hdr last)) (max_inum hdr last) k))
              e
              (first_next-Ends dr (first_pass fuel (max_inum hdr last)) (max_inum hdr last) k a
                (λ hdr' d p.
                  first_pass-Ends fuel dr.rec (max_inum hdr last) hdr' d p.0 (omega arith)
                    (omega arith)))))
]

abbrev AfterInode : Dr → Head × S5Fs → Type 0
AfterInode dr p = AfterHead dr p.0

finish_inode-Ends :
    (dr : Dr) (hdr : Buf) (n : ℕ) (h : Head) (s : Sink)
    → AfterHead dr h
    → Ends (AfterInode dr) (finish_inode hdr n h s)
unfolding finish_inode
finish_inode-Ends dr hdr n h s a = elim (Option-cases (s.fs)) [
  | inl e ↦ rw (e, Ends) tt
  | inr (fs, e) ↦ elim (Option-cases (put_inode hdr n s.da fs)) [
    | inl f ↦ rw (e, f, Ends) tt
    | inr (fs', f) ↦ rw (e, f, Ends) a
  ]
]

with_blocks-Ends :
    (dr : Dr) (hdr : Buf) (n : ℕ) (a : Ahead)
    → AfterAhead dr a
    → Ends (AfterInode dr) (with_blocks hdr n a)
unfolding with_blocks
with_blocks-Ends dr hdr n (at_end s) a = finish_inode-Ends dr hdr n (no_head s.dr) s a
with_blocks-Ends dr hdr n (ahead h s) a = finish_inode-Ends dr hdr n (head h s.dr) s a

restore_head-Ends :
    (fuel : ℕ) (heap : ℕ → ℕ) (hdr : Buf) (dr : Dr) (fs : S5Fs)
    → 0 < dr.rec
    → left dr < fuel
    → Ends (AfterInode dr) (restore_head fuel heap hdr dr fs)
unfolding restore_head restore_inode
restore_head-Ends fuel heap hdr dr fs h l = elim (Bool-cases (htype hdr == ts_inode)) [
  | inr e ↦ rw (e, Ends) (skip_map-AfterHead hdr dr h)
  | inl e ↦
      let s : Sink = record { dr = dr; b = 0; fs = some fs; da = heap } in
      let n : ℕ = nblk_of dr.rec hdr in
      rw (e, Ends)
        (Ends-then_run (AfterAhead dr) (AfterInode dr) (read_blocks fuel hdr n s)
          (with_blocks hdr n) (read_blocks-AfterAhead fuel hdr n s h l) (with_blocks-Ends dr hdr n))
]

-- Nothing but the end is claimed.
abbrev Any : {A : Type 0} → A → Type 0
Any a = Unit

second_next-Ends :
    (dr : Dr) (again : Buf → Dr → S5Fs → Run (Dr × S5Fs)) (p : Head × S5Fs)
    → AfterInode dr p
    → ((hdr : Buf) (dr' : Dr) (fs : S5Fs) → Passes dr dr' → Ends Any (again hdr dr' fs))
    → Ends Any (second_next again p)
unfolding second_next
second_next-Ends dr again (no_head d, fs) a f = tt
second_next-Ends dr again (head k d, fs) a f = f k d fs a

second_pass-Ends :
    (fuel : ℕ) (heap : ℕ → ℕ) (hdr : Buf) (dr : Dr) (fs : S5Fs)
    → 0 < dr.rec
    → left dr < fuel
    → Ends Any (second_pass fuel heap hdr dr fs)
unfolding second_pass
second_pass-Ends zero heap hdr dr fs h l = absurd (omega arith)
second_pass-Ends (suc fuel) heap hdr dr fs h l =
    elim (Bool-cases (htype hdr == ts_end || has_failed fs)) [
      | inl t ↦ rw (t, Ends) tt
      | inr t ↦
          rw (t, Ends)
            (Ends-then_run (AfterInode dr) Any (restore_head (suc fuel) heap hdr dr fs)
              (second_next (second_pass fuel heap))
              (restore_head-Ends (suc fuel) heap hdr dr fs h l)
              (λ p a.
                second_next-Ends dr (second_pass fuel heap) p a
                  (λ k d g m. second_pass-Ends fuel heap k d g (omega arith) (omega arith))))
    ]

fill_target-Ends :
    (dr : Dr) (heap : ℕ → ℕ) (fs : S5Fs) (h : Head)
    → 0 < dr.rec
    → AfterHead (record dr { pos = 0 }) h
    → Ends Any (fill_target (tape_fuel dr) heap fs h)
unfolding fill_target
fill_target-Ends dr heap fs (no_head d) p a = tt
fill_target-Ends dr heap fs (head hdr d) p a =
    Ends-then_run Any Any (second_pass (tape_fuel dr) heap hdr d fs)
      (λ q. ended (restored (finish q.1) q.0.badsum))
      (second_pass-Ends (tape_fuel dr) heap hdr d fs (omega arith) (omega arith)) (λ q _. tt)

make_target-Ends :
    (image : File) (uninit : Buf) (heap : ℕ → ℕ) (now base blocks last : ℕ) (dr : Dr)
    → 0 < dr.rec
    → Ends Any (make_target image uninit heap now base blocks last dr)
unfolding make_target
make_target-Ends image uninit heap now base blocks last dr h =
    let fs : S5Fs = begin image uninit now blocks (restore_opts dr.rec base last) in
    let start : Dr = record dr { pos = 0 } in
    elim (Bool-cases (has_failed fs)) [
      | inl e ↦ rw (e, Ends) tt
      | inr e ↦ elim (Option-cases (freelist (record fs { s_tfree = 0 }))) [
        | inl f ↦ rw (e, f, Ends) tt
        | inr (p, f) ↦
            rw (e, f, Ends)
              (fill_target-Ends dr heap p.1 (gethead start) h (gethead-AfterHead start h))
      ]
    ]

after_pass-Ends :
    (image : File) (uninit : Buf) (heap : ℕ → ℕ) (now base blocks : ℕ) (p : ℕ × Dr)
    → 0 < p.1.rec
    → Ends Any (after_pass image uninit heap now base blocks p)
unfolding after_pass
after_pass-Ends image uninit heap now base blocks (last, dr) h = elim (Bool-cases (last == 0)) [
  | inl e ↦ rw (e, Ends) tt
  | inr e ↦ rw (e, Ends) (make_target-Ends image uninit heap now base blocks last dr h)
]

both_passes-Ends :
    (image : File) (uninit : Buf) (heap : ℕ → ℕ) (now base blocks : ℕ) (dr : Dr) (h : Head)
    → 0 < dr.rec
    → AfterHead dr h
    → Ends Any (both_passes image uninit heap now base blocks h)
unfolding both_passes
both_passes-Ends image uninit heap now base blocks dr (no_head d) p a = tt
both_passes-Ends image uninit heap now base blocks dr (head hdr d) p a =
    Ends-then_run (KeptFirst dr.rec) Any (first_pass (tape_fuel d) 0 hdr d)
      (after_pass image uninit heap now base blocks)
      (first_pass-Ends (tape_fuel d) dr.rec 0 hdr d a.0 p (omega arith))
      (λ q k. after_pass-Ends image uninit heap now base blocks q (omega (arith, k)))

Ends-ne : {A : Type 0} (r : Run A) → Ends Any r → r ≢ out_of_fuel
Ends-ne (ended a) h = cc
Ends-ne undefined h = cc
Ends-ne out_of_fuel h = absurd h

-- With records of a byte or more, restoring ends on every tape, also on a truncated or a crafted
-- one, and for every target: neither the rounds of a pass nor those within the map of an inode run
-- out.
pub restore-ends :
    (file : File) (bsize : ℕ) (force : Bool) (image : File) (uninit : Buf) (heap : ℕ → ℕ)
    (now base blocks : ℕ)
    → 0 < bsize
    → restore file bsize force image uninit heap now base blocks ≢ out_of_fuel
unfolding restore
restore-ends file bsize force image uninit heap now base blocks h =
    let dr : Dr = record { file = file; pos = 0; rec = bsize; force = force; badsum = 0 } in
    Ends-ne _ (
      both_passes-Ends image uninit heap now base blocks dr (gethead dr) h (gethead-AfterHead dr h))
