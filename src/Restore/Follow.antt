-- ===== src/Restore/Follow.antt =====
-- read_blocks of cmd_restore.c on what dump_inode of cmd_dump.c has written: it comes to the next
-- header behind the inode.
use s5fs.Base.{
  ℕ, zero, suc, ◌+◌, ◌*◌, ◌^◌, ◌≤◌, ◌<◌, ◌≡◌, refl, sym, ap, subst, ◌∙◌, inl, inr, Bool, true,
  false, List, [], ◌∷◌, arith, leb, ◌==◌, Bool-cases, length, min, ap₂,
}
use s5fs.Endian.{Buf, pdp11, get16}
use s5fs.Image.{File}
use s5fs.Dump.Record.{ts_addr, c_count, c_addr, Dump}
use s5fs.Dump.Inodes.{put_blocks, map_header}
use s5fs.Restore.Tape.{Dr, head, gethead, htype}
use s5fs.Restore.Blocks.{
  Sink, ahead, ended, more, take_flags, flag_count, past_addr, skip_addrs, then_run, flow_run,
  next_map, read_blocks,
}
use s5fs.Dump.Flat.{Keeps, present, put_blocks-Keeps, map_header-Keeps}
use s5fs.Restore.Flags.{skipping, present_none, take_flags-skipping, HasFlags, Tight}
use s5fs.Restore.Headers.{IsHeader, IsFlat, Keeps-IsFlat, On, On-Keeps, at, gethead-map_header}
use s5fs.Dump.Leaves.{put_leaf, put_leaves, put_leaf-Keeps, put_leaves-Keeps}

-- In the leaves there are only holes behind the end of the file; `b0` is the block that the first
-- of them begins with.
abbrev pub TightLeaves : ℕ → ℕ → ℕ → List (ℕ → ℕ) → Type 0
TightLeaves nblk nindir b0 [] = Unit
TightLeaves nblk nindir b0 (f ∷ fs) =
    Tight nblk b0 f nindir 0 × TightLeaves nblk nindir (min (b0 + nindir) nblk) fs

module _ (tape : File) (rec nindir : ℕ) (force : Bool) (bad : ℕ) (small : rec < 2 ^ 16)
    (fits : c_addr + nindir ≤ rec) where
  abbrev pos_at : ℕ → Dr
  pos_at = at tape rec force bad

  -- A header that is not TS_ADDR stands at the position.
  abbrev NextAt : ℕ → Buf → Type 0
  NextAt p h = (gethead (pos_at p) ≡ head h (pos_at (p + rec))) × ((htype h == ts_addr) ≡ false)

  abbrev Has : Dump → Type 0
  Has d = IsFlat rec d × (d.r.prof.nindir ≡ nindir)

  -- A leaf on the tape: its header, and how much it takes.
  leaf-head :
      (ino : ℕ) (f : ℕ → ℕ) (d : Dump)
      → Has d
      → On tape (put_leaf ino f d)
      → (b : Buf) × (gethead (pos_at d.file.size) ≡ head b (pos_at (d.file.size + rec)))
        × IsHeader ts_addr d.r.prof.nindir f ino d.spcl b
        × ((put_leaf ino f d).file.size ≡ d.file.size + rec + present f d.r.prof.nindir 0 * rec)
  unfolding put_leaf
  leaf-head ino f d has on =
      let n : ℕ = d.r.prof.nindir in
      let e : Dump = map_header ts_addr n f ino d in
      let (k, size) = map_header-Keeps ts_addr n f ino d has.0.0 in
      let (k', size') = put_blocks-Keeps n 0 f d.uninit e k.flat in
      let e_flat : IsFlat rec e = Keeps-IsFlat rec d e k has.0 in
      let on_e : On tape e = On-Keeps tape e (put_leaf ino f d) k' on in
      let (b, found, is) =
        gethead-map_header tape rec force bad ts_addr n f ino d has.0 (omega arith)
          (omega (arith, has.1)) small on_e in
      (
        b,
        found,
        is,
        size'
            ∙ ap₂ (λ x y. x + present f n 0 * y) (size ∙ ap (λ r. d.file.size + r) has.0.2)
                e_flat.2,
      )

  put_leaf-Has : (ino : ℕ) (f : ℕ → ℕ) (d : Dump) → Has d → Has (put_leaf ino f d)
  put_leaf-Has ino f d has =
      let k : Keeps d (put_leaf ino f d) = put_leaf-Keeps ino f d has.0.0 in
      (Keeps-IsFlat rec d (put_leaf ino f d) k has.0, ap (λ r. r.prof.nindir) k.same_r ∙ has.1)

  put_leaf-On :
      (ino : ℕ) (f : ℕ → ℕ) (fs : List (ℕ → ℕ)) (d : Dump)
      → Has d
      → On tape (put_leaves ino fs (put_leaf ino f d))
      → On tape (put_leaf ino f d)
  put_leaf-On ino f fs d has on =
      On-Keeps tape (put_leaf ino f d) (put_leaves ino fs (put_leaf ino f d))
        (put_leaves-Keeps ino fs (put_leaf ino f d) (put_leaf-Has ino f d has).0.0) on

  -- Without blocks, a leaf is its header.
  skip_leaves :
      (fs : List (ℕ → ℕ)) (nblk ino : ℕ) (d : Dump) (h : Buf) (fuel : ℕ)
      → Has d
      → TightLeaves nblk nindir nblk fs
      → On tape (put_leaves ino fs d)
      → NextAt (put_leaves ino fs d).file.size h
      → length fs < fuel
      → skip_addrs fuel (pos_at d.file.size)
        ≡ ended (head h (pos_at ((put_leaves ino fs d).file.size + rec)))
  unfolding put_leaves skip_addrs past_addr
  skip_leaves fs nblk ino d h zero has tight on next l = absurd (omega arith)
  skip_leaves [] nblk ino d h (suc fuel) has tight on next l = rw (next.0, next.1, past_addr) refl
  skip_leaves (f ∷ fs) nblk ino d h (suc fuel) has tight on next l =
      let d' : Dump = put_leaf ino f d in
      let (b, found, is, size) = leaf-head ino f d has (put_leaf-On ino f fs d has on) in
      let addr : (htype b == ts_addr) ≡ true = ground (arith, is.kind) in
      let holes : present f d.r.prof.nindir 0 ≡ 0 =
        present_none f d.r.prof.nindir 0
          (λ k lo hi. tight.0 k lo (omega (arith, has.1)) (omega arith)) in
      let end : d.file.size + rec ≡ d'.file.size = omega (arith, size, ap (λ t. t * rec) holes) in
      let rest : TightLeaves nblk nindir nblk fs =
        subst (λ b0. TightLeaves nblk nindir b0 fs) (omega arith) tight.1 in
      rw (found, addr, past_addr)
        (ap (λ p. skip_addrs fuel (pos_at p)) end
          ∙ skip_leaves fs nblk ino d' h fuel (put_leaf-Has ino f d has) rest on next (omega arith))

  -- The flags of a header, and then the loop goes on from behind the blocks.
  flags-put_blocks :
      (n : ℕ) (f : ℕ → ℕ) (ab db : Buf) (nblk b0 : ℕ) (d : Dump)
      → Has d
      → get16 pdp11 ab c_count ≡ n
      → HasFlags ab f n 0
      → c_addr + n ≤ rec
      → b0 ≤ nblk
      → Tight nblk b0 f n 0
      → On tape (put_blocks n 0 f (db, d)).1
      → take_flags (flag_count rec ab) 0 ab nblk (skipping (pos_at d.file.size) b0)
        ≡ more (skipping (pos_at (put_blocks n 0 f (db, d)).1.file.size) (min (b0 + n) nblk))
  flags-put_blocks n f ab db nblk b0 d has count flags room low tight on =
      let (k, size) = put_blocks-Keeps n 0 f db d has.0.0 in
      let size' : (put_blocks n 0 f (db, d)).1.file.size ≡ d.file.size + present f n 0 * rec =
        size ∙ ap (λ r. d.file.size + present f n 0 * r) has.0.2 in
      let all : flag_count rec ab ≡ n = omega (arith, count) in
      ap₂ (λ c b. take_flags c 0 ab nblk (skipping (pos_at d.file.size) b)) all (omega arith)
      ∙ take_flags-skipping n 0 ab f nblk b0 (pos_at d.file.size) flags tight (omega arith)
          (omega (arith, size', on.longer))
      ∙ ap₂ (λ p b. more (skipping (pos_at p) b)) (sym size') (omega arith)

  -- What read_blocks does behind the flags.
  abbrev Reads : ℕ → Buf → ℕ → Sink → Buf → ℕ → Type 0
  Reads fuel ab nblk s h p =
      (b : ℕ) × (read_blocks fuel ab nblk s ≡ ended (ahead h (skipping (pos_at p) b)))

  read_stop :
      (fuel : ℕ) (ab : Buf) (nblk b p : ℕ) (s : Sink) (h : Buf) (q : ℕ)
      → take_flags (flag_count s.dr.rec ab) 0 ab nblk s ≡ more (skipping (pos_at p) b)
      → leb nblk b ≡ true
      → skip_addrs (suc fuel) (pos_at p) ≡ ended (head h (pos_at q))
      → Reads (suc fuel) ab nblk s h q
  unfolding read_blocks flow_run then_run
  read_stop fuel ab nblk b p s h q flags stop skips =
      (b, rw (flags, read_blocks) (rw (stop, flow_run) (rw (skips, then_run) refl)))

  read_last :
      (fuel : ℕ) (ab : Buf) (nblk b p : ℕ) (s : Sink) (h : Buf)
      → take_flags (flag_count s.dr.rec ab) 0 ab nblk s ≡ more (skipping (pos_at p) b)
      → leb nblk b ≡ false
      → NextAt p h
      → Reads (suc fuel) ab nblk s h (p + rec)
  unfolding read_blocks flow_run next_map
  read_last fuel ab nblk b p s h flags go next = (
    b,
    rw (flags, read_blocks)
        (rw (go, flow_run) (rw (next.0, next_map) (rw (next.1, next_map) refl))),
  )

  read_again :
      (fuel : ℕ) (ab ab' : Buf) (nblk b p : ℕ) (s : Sink) (h : Buf) (q : ℕ)
      → take_flags (flag_count s.dr.rec ab) 0 ab nblk s ≡ more (skipping (pos_at p) b)
      → leb nblk b ≡ false
      → gethead (pos_at p) ≡ head ab' (pos_at (p + rec))
      → (htype ab' == ts_addr) ≡ true
      → Reads fuel ab' nblk (skipping (pos_at (p + rec)) b) h q
      → Reads (suc fuel) ab nblk s h q
  unfolding read_blocks flow_run next_map
  read_again fuel ab ab' nblk b p s h q flags go found addr (c, e) = (
    c,
    rw (flags, read_blocks) (rw (go, flow_run) (rw (found, next_map) (rw (addr, next_map) e))),
  )

  blocks-Has : (n : ℕ) (f : ℕ → ℕ) (db : Buf) (d : Dump) → Has d → Has (put_blocks n 0 f (db, d)).1
  blocks-Has n f db d has =
      let (k, size) = put_blocks-Keeps n 0 f db d has.0.0 in
      (
        Keeps-IsFlat rec d (put_blocks n 0 f (db, d)).1 k has.0,
        ap (λ r. r.prof.nindir) k.same_r ∙ has.1,
      )

  -- From the header of `n` numbers on, read_blocks passes the blocks and the leaves behind them.
  pub follow_leaves :
      (fs : List (ℕ → ℕ)) (n : ℕ) (f : ℕ → ℕ) (ab db : Buf) (nblk b0 ino : ℕ) (d : Dump) (h : Buf)
      (fuel : ℕ)
      → Has d
      → get16 pdp11 ab c_count ≡ n
      → HasFlags ab f n 0
      → c_addr + n ≤ rec
      → b0 ≤ nblk
      → Tight nblk b0 f n 0
      → TightLeaves nblk nindir (min (b0 + n) nblk) fs
      → On tape (put_leaves ino fs (put_blocks n 0 f (db, d)).1)
      → NextAt (put_leaves ino fs (put_blocks n 0 f (db, d)).1).file.size h
      → length fs < fuel
      → Reads fuel ab nblk
          (skipping (pos_at d.file.size) b0)
          h
          ((put_leaves ino fs (put_blocks n 0 f (db, d)).1).file.size + rec)
  unfolding put_leaves put_leaf
  follow_leaves fs n f ab db nblk b0 ino d h zero has count flags room low tight all on next l =
      absurd (omega arith)
  follow_leaves [] n f ab db nblk b0 ino d h (suc fuel) has count flags room low tight all on next
        l =
      let done = flags-put_blocks n f ab db nblk b0 d has count flags room low tight on in
      let p : ℕ = (put_blocks n 0 f (db, d)).1.file.size in
      let b1 : ℕ = min (b0 + n) nblk in
      elim (Bool-cases (leb nblk b1)) [
        | inl stop ↦
            read_stop fuel ab nblk b1 p (skipping (pos_at d.file.size) b0) h (p + rec) done stop (
              skip_leaves [] nblk ino (put_blocks n 0 f (db, d)).1 h (suc fuel)
                (blocks-Has n f db d has) tt on next (omega arith))
        | inr go ↦ read_last fuel ab nblk b1 p (skipping (pos_at d.file.size) b0) h done go next
      ]
  follow_leaves (g ∷ gs) n f ab db nblk b0 ino d h (suc fuel) has count flags room low tight all on
        next l =
      let d1 : Dump = (put_blocks n 0 f (db, d)).1 in
      let has1 : Has d1 = blocks-Has n f db d has in
      let d2 : Dump = put_leaf ino g d1 in
      let on2 : On tape d2 = put_leaf-On ino g gs d1 has1 on in
      let on1 : On tape d1 = On-Keeps tape d1 d2 (put_leaf-Keeps ino g d1 has1.0.0) on2 in
      let done = flags-put_blocks n f ab db nblk b0 d has count flags room low tight on1 in
      let p : ℕ = d1.file.size in
      let b1 : ℕ = min (b0 + n) nblk in
      let s : Sink = skipping (pos_at d.file.size) b0 in
      let q : ℕ = (put_leaves ino gs d2).file.size + rec in
      elim (Bool-cases (leb nblk b1)) [
        | inl stop ↦ read_stop fuel ab nblk b1 p s h q done stop (
            skip_leaves (g ∷ gs) nblk ino d1 h (suc fuel) has1
              (subst (λ b. TightLeaves nblk nindir b (g ∷ gs)) (ground (arith, stop)) all) on next
              (omega arith))
        | inr go ↦
            let (c, found, is, size) = leaf-head ino g d1 has1 on2 in
            let m : ℕ = d1.r.prof.nindir in
            let e : Dump = map_header ts_addr m g ino d1 in
            let (k, end) = map_header-Keeps ts_addr m g ino d1 has1.0.0 in
            let e_has : Has e =
              (Keeps-IsFlat rec d1 e k has1.0, ap (λ r. r.prof.nindir) k.same_r ∙ has1.1) in
            let start : e.file.size ≡ p + rec = end ∙ ap (λ r. p + r) has1.0.2 in
            let addr : (htype c == ts_addr) ≡ true = ground (arith, is.kind) in
            let m_eq : nindir ≡ m = sym has1.1 in
            read_again fuel ab c nblk b1 p s h q done go found addr (
              subst (λ r. Reads fuel c nblk (skipping (pos_at r) b1) h q) start
                (follow_leaves gs m g c d1.uninit nblk b1 ino e h fuel e_has is.count is.flags
                  (omega (arith, m_eq)) (omega arith) (subst (λ w. Tight nblk b1 g w 0) m_eq all.0)
                  (subst (λ w. TightLeaves nblk nindir (min (b1 + w) nblk) gs) m_eq all.1) on next
                  (omega arith)))
      ]
