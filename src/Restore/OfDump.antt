-- ===== src/Restore/OfDump.antt =====
-- cmd_restore of cmd_restore.c on the output of cmd_dump of cmd_dump.c, up to the target.
use s5fs.Base.{
  ℕ, ◌+◌, ◌-◌, ◌^◌, ◌≤◌, ◌<◌, ◌≡◌, refl, sym, ap, subst, ◌∙◌, ◌≢◌, inl, inr, Bool, true, false,
  none, some, arith, ◌==◌, Bool-cases, Option-cases,
}
use s5fs.Layout.{rootino, bsize_ok, profile}
use s5fs.Endian.{Buf, pdp11}
use s5fs.Image.{File, read_at}
use s5fs.Writer.{zeros}
use s5fs.Dump.Record.{Dump}
use s5fs.Dump.Run.{Used, find_used, inodes, write_tape, dump}
use s5fs.Dump.Leaves.{Volume, volume_of}
use s5fs.Restore.Passes.{dino_of, largest}
use s5fs.Restore.Tape.{Dr, Head, no_head, head, rec_read, check_head, gethead}
use s5fs.Restore.Blocks.{ended, then_run}
use s5fs.Restore.Run.{
  tape_fuel, first_next, after_pass, both_passes, first_pass, make_target, restore,
}
use s5fs.Restore.Headers.{On, at}
use s5fs.Restore.Inodes.{TightInode}
use s5fs.Restore.Last.{mode_of, Seen, find_used-Seen, largest-last}
use s5fs.Restore.Whole.{write_tape-Comes}

-- What dump finds in use.
abbrev pub used_in : Dump → Used
used_in d = find_used (inodes d.r - 1) rootino d (record { map = zeros; last_ino = 0 })

dump-some :
    (now : ℕ) (d d' : Dump)
    → dump now d ≡ some d'
    → ((used_in d).last_ino ≢ 0) × (d' ≡ write_tape now (used_in d) d)
unfolding dump
dump-some now d d' e = elim (Bool-cases ((used_in d).last_ino == 0)) [
  | inl z ↦ let nothing : dump now d ≡ none = rw (z, dump) refl in absurd (cc)
  | inr z ↦
      let tape : dump now d ≡ some (write_tape now (used_in d) d) = rw (z, dump) refl in
      ((λ n. ground arith), cc)
]

check_head-file :
    (hdr : Buf) (dr dr' : Dr) (h : Buf) → check_head hdr dr ≡ head h dr' → dr'.file ≡ dr.file
unfolding check_head
check_head-file hdr dr dr' h e = ground (arith, e)

gethead-file : (dr dr' : Dr) (h : Buf) → gethead dr ≡ head h dr' → dr'.file ≡ dr.file
unfolding gethead rec_read
gethead-file dr dr' h e = elim (Option-cases (read_at dr.file dr.pos dr.rec zeros)) [
  | inl r ↦ let nothing : gethead dr ≡ no_head dr = rw (r, gethead) refl in absurd (cc)
  | inr (b, r) ↦
      let read : gethead dr ≡ check_head b (record dr { pos = dr.pos + dr.rec }) =
        rw (r, gethead) refl in
      check_head-file b (record dr { pos = dr.pos + dr.rec }) dr' h (sym read ∙ e)
]

ended-inj : (a b : ℕ × Dr) → ended a ≡ ended b → a ≡ b
ended-inj a b e = cc

-- restore goes to its target where the first pass ends with a number.
both_passes-first :
    (image : File) (uninit : Buf) (heap : ℕ → ℕ) (now base blocks size last : ℕ) (end : Dr)
    (h : Head)
    → last ≢ 0
    → ((b : Buf) (dr : Dr) → h ≡ head b dr → size ≤ dr.file.size)
    → ((fuel : ℕ) → size < fuel → first_next (first_pass fuel 0) 0 h ≡ ended (last, end))
    → both_passes image uninit heap now base blocks h
      ≡ make_target image uninit heap now base blocks last end
unfolding both_passes first_next then_run after_pass
both_passes-first image uninit heap now base blocks size last end (no_head dr) some_last same pass =
    absurd (
      some_last
        (sym (ap (λ a. a.0) (ended-inj (0, dr) (last, end) (pass (size + 1) (omega arith))))))
both_passes-first image uninit heap now base blocks size last end (head b dr) some_last same pass =
    let first : first_pass (tape_fuel dr) 0 b dr ≡ ended (last, end) =
      pass (tape_fuel dr) (omega (arith, same b dr refl)) in
    let other : (last == 0) ≡ false = ground (arith, some_last) in
    rw (first, then_run) (rw (other, after_pass) refl)

bsize-profile : (rec : ℕ) → (profile rec).bsize ≡ rec
unfolding profile
bsize-profile rec = refl

largest-Seen :
    (last : ℕ) (v : Volume)
    → last ≢ 0
    → last < 2 ^ 16
    → Seen v last
    → largest (last - 1) rootino v 0 ≡ last
largest-Seen last v some_last small (inl z) = absurd (some_last z)
largest-Seen last v some_last small (inr (lo, used)) =
    let back : rootino + (last - 2) ≡ last = omega (arith, lo) in
    ap (λ n. largest n rootino v 0) (omega (arith, lo))
    ∙ largest-last (last - 2) rootino 0 v (omega arith) (omega (arith, lo))
        (subst (λ k. (mode_of v k == 0) ≡ false) (sym back) used)
    ∙ back

-- Restoring what dump has written comes to its target with the last inode that dump found in use,
-- and no checksum of the tape was bad on the way. The tape has no SIMH framing and the output was
-- empty, the volume has the byte order of the PDP-11 and a geometry of its block size, the last
-- inode has a number of 16 bits, and no inode of a file or directory has a block behind its end.
pub restore-dump :
    (now rec : ℕ) (d d' : Dump) (force : Bool) (image : File) (uninit : Buf) (heap : ℕ → ℕ)
    (time base blocks : ℕ)
    → bsize_ok rec ≡ true
    → d.r.prof ≡ profile rec
    → d.r.bo ≡ pdp11
    → d.tap ≡ false
    → d.file.size ≡ 0
    → (used_in d).last_ino < 2 ^ 16
    → ((k : ℕ)
        → rootino ≤ k
        → k ≤ (used_in d).last_ino
        → TightInode rec (volume_of d) (dino_of (volume_of d) k))
    → dump now d ≡ some d'
    → restore d'.file rec force image uninit heap time base blocks
      ≡ make_target image uninit heap time base blocks
          (used_in d).last_ino
          (at d'.file rec force 0 0)
unfolding restore make_target
restore-dump now rec d d' force image uninit heap time base blocks good geometry bo flat start small
      tight dumped =
    let (some_last, same) = dump-some now d d' dumped in
    let last : ℕ = (used_in d).last_ino in
    let v : Volume = volume_of d in
    let tape : File = d'.file in
    let found : Seen v last =
      find_used-Seen (inodes d.r - 1) rootino d (record { map = zeros; last_ino = 0 }) bo
        (omega arith) (inl refl) in
    let (q, comes) =
      write_tape-Comes tape rec force 0 v good geometry now (used_in d) d
        ((flat, bo, ap (λ p. p.bsize) geometry ∙ bsize-profile rec), refl)
        (λ k lo hi. tight k lo (omega (arith, some_last))) small
        (subst (On tape) same (record { longer = omega arith; bytes = λ j l. refl })) in
    let largest_is : largest (last - 1) rootino v 0 ≡ last =
      largest-Seen last v some_last small found in
    both_passes-first image uninit heap time base blocks tape.size last
      (at tape rec force 0 (q + rec)) (gethead (at tape rec force 0 0)) some_last
      (λ b dr e.
        omega (arith, ap (λ (f : File). f.size) (gethead-file (at tape rec force 0 0) dr b e)))
      (λ fuel l.
        ap (λ p. first_next (first_pass fuel 0) 0 (gethead (at tape rec force 0 p))) (sym start)
        ∙ comes fuel (omega (arith, start))
        ∙ ap (λ m. ended (m, at tape rec force 0 (q + rec))) largest_is)
