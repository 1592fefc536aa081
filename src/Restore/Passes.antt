-- ===== src/Restore/Passes.antt =====
-- Pass 1 of cmd_restore.c on the inodes that cmd_dump.c has written.
use s5fs.Base.{
  ℕ, zero, suc, ◌+◌, ◌*◌, ◌^◌, ◌≤◌, ◌<◌, ◌≡◌, refl, sym, ap, subst, ◌∙◌, inl, inr, Bool, true,
  false, none, some, arith, ltb, ◌==◌, if◌then◌else◌, Bool-cases, min, ap₂,
}
use s5fs.Layout.{dinodesz, u16, bsize_ok, profile, di_mode}
use s5fs.Endian.{Buf, Endian, pdp11, get16, get32}
use s5fs.Image.{File}
use s5fs.Writer.{itod, itoo, window, splice}
use s5fs.Inode.{bread}
use s5fs.Dump.Record.{ts_inode, ts_addr, ts_end, c_inum, Dump}
use s5fs.Dump.Inodes.{read_into, put_blocks, map_header, inode_header, dump_dinode, dump_inode}
use s5fs.Restore.Tape.{Dr, Head, head, gethead, htype}
use s5fs.Restore.Blocks.{Run, ended, then_run}
use s5fs.Restore.Run.{pass_over, max_inum, first_next, first_pass}
use s5fs.Dump.Run.{dump_inodes}
use s5fs.Dump.Flat.{Keeps, Keeps-refl, Keeps-trans}
use s5fs.Restore.Headers.{IsFlat, Keeps-IsFlat, On, On-Keeps, at}
use s5fs.Dump.Leaves.{Volume, volume_of, same_volume, put_leaves}
use s5fs.Restore.Follow.{TightLeaves}
use s5fs.Restore.Inodes.{size_blocks, TightInode, pass_over-header}
use s5fs.Inode.Place.{bsize_cases}
use s5fs.Restore.Form.{Form, dump_dinode-Form, Form-Keeps, Form-longer}

-- The bytes of an inode, and the block they stand in.
abbrev pub block_of : Volume → ℕ → Buf
block_of v ino = elim (bread v.0 v.1 (itod v.0.prof.inopb ino) v.2) [ none ↦ v.2 | some b ↦ b ]

abbrev pub dino_of : Volume → ℕ → Buf
dino_of v ino = window (block_of v ino) (itoo v.0.prof.inopb ino * dinodesz)

-- The larger one of the numbers that pass 1 has seen.
abbrev pub larger : ℕ → ℕ → ℕ
larger last ino = if ltb last (u16 ino) then u16 ino else last

-- The largest number of an inode in use among the `n` from `ino` on, and `last`.
unfoldable pub largest : ℕ → ℕ → Volume → ℕ → ℕ
largest zero ino v last = last
largest (suc n) ino v last =
    largest n (ino + 1) v
      (if get16 pdp11 (dino_of v ino) di_mode == 0 then last else larger last ino)

module _ (tape : File) (rec : ℕ) (force : Bool) (bad : ℕ) (v : Volume) (good : bsize_ok rec ≡ true)
    (geometry : v.0.prof ≡ profile rec) where
  abbrev pub place : ℕ → Dr
  place = at tape rec force bad

  -- A header that is not TS_ADDR at the position.
  abbrev pub HeadAt : ℕ → Type 0
  HeadAt p =
      (h : Buf) × (gethead (place p) ≡ head h (place (p + rec))) × ((htype h == ts_addr) ≡ false)

  abbrev pub Dumps : Dump → Type 0
  Dumps d = IsFlat rec d × (volume_of d ≡ v)

  pub sizes : (rec < 2 ^ 16) × (88 + v.0.prof.nindir ≤ rec) × (88 + v.0.prof.laddr ≤ rec)
  unfolding profile
  sizes = elim (bsize_cases rec good) [
    | inl e ↦ ground (arith, ap (λ p. p.nindir) geometry, ap (λ p. p.laddr) geometry)
    | inr (inl e) ↦ ground (arith, ap (λ p. p.nindir) geometry, ap (λ p. p.laddr) geometry)
    | inr (inr e) ↦ ground (arith, ap (λ p. p.nindir) geometry, ap (λ p. p.laddr) geometry)
  ]

  -- The records of an inode, passed over from its header on.
  pass_over-Form :
      (ino : ℕ) (dino buf : Buf) (d end : Dump) (next : HeadAt end.file.size) (fuel : ℕ)
      → Dumps d
      → Form rec ino dino buf d end
      → On tape end
      → tape.size < d.file.size + fuel
      → (b : Buf) × (gethead (place d.file.size) ≡ head b (place (d.file.size + rec)))
        × (htype b ≡ ts_inode)
        × (get16 pdp11 b c_inum ≡ u16 ino)
        × (pass_over fuel b (place (d.file.size + rec))
            ≡ ended (head next.0 (place (end.file.size + rec))))
  unfolding inode_header splice get32
  pass_over-Form ino dino buf d end next fuel dumps form on l =
      let d1 : Dump = inode_header dino d in
      let wide : d.r.prof ≡ v.0.prof = ap (λ w. w.0.prof) dumps.1 in
      let n : ℕ = form.n in
      let last : Dump =
        put_leaves ino form.fs
          (put_blocks n 0 form.f (buf, map_header ts_inode n form.f ino d1)).1 in
      let same : end ≡ last = form.same in
      let (b, found, kind, inum, passed) =
        pass_over-header tape rec v.0.prof.nindir force bad sizes.0 sizes.1 n form.f form.fs ino
          dino buf d1 next.0 fuel dumps.0 (ap (λ p. p.nindir) wide) refl
          (omega (arith, form.room, ap (λ p. p.laddr) wide, sizes.2)) form.tight
          (subst
            (λ p.
              TightLeaves (size_blocks rec dino) p.nindir (min (0 + n) (size_blocks rec dino))
                form.fs)
            wide form.all)
          (subst (On tape) same on)
          (subst
            (λ (e : Dump). gethead (place e.file.size) ≡ head next.0 (place (e.file.size + rec)))
            same next.1)
          next.2 l in
      (
        b,
        found,
        kind,
        inum,
        passed ∙ ap (λ (e : Dump). ended (head next.0 (place (e.file.size + rec)))) (sym same),
      )

  -- Pass 1 from a position on.
  abbrev pub pass_from : ℕ → ℕ → ℕ → Run (ℕ × Dr)
  pass_from fuel last p = first_next (first_pass fuel last) last (gethead (place p))

  pub pass_step :
      (fuel last : ℕ) (b : Buf) (dr : Dr) (h : Head)
      → (htype b == ts_end) ≡ false
      → pass_over (suc fuel) b dr ≡ ended h
      → first_pass (suc fuel) last b dr
        ≡ first_next (first_pass fuel (max_inum b last)) (max_inum b last) h
  unfolding first_pass then_run
  pass_step fuel last b dr h other passed = rw (other, first_pass) (rw (passed, then_run) refl)

  pass_inode :
      (fuel last ino p q : ℕ) (b h : Buf)
      → gethead (place p) ≡ head b (place (p + rec))
      → htype b ≡ ts_inode
      → get16 pdp11 b c_inum ≡ u16 ino
      → pass_over (suc fuel) b (place (p + rec)) ≡ ended (head h (place (q + rec)))
      → gethead (place q) ≡ head h (place (q + rec))
      → pass_from (suc fuel) last p ≡ pass_from fuel (larger last ino) q
  unfolding first_next
  pass_inode fuel last ino p q b h found kind inum passed next =
      let seen : max_inum b last ≡ larger last ino = ground (arith, kind, inum) in
      ap (first_next (first_pass (suc fuel) last) last) found
      ∙ pass_step fuel last b (place (p + rec)) (head h (place (q + rec))) (ground (arith, kind))
          passed
      ∙ ap (λ m. first_next (first_pass fuel m) m (head h (place (q + rec)))) seen
      ∙ ap (first_next (first_pass fuel (larger last ino)) (larger last ino)) (sym next)

  -- dump_inode, by what the volume holds.
  dump_inode_lem :
      (ino : ℕ) (d : Dump)
      → Dumps d
      → dump_inode ino d ≡ (
          if get16 pdp11 (dino_of v ino) di_mode == 0
          then d
          else dump_dinode ino (block_of v ino) (dino_of v ino) d)
  unfolding dump_inode read_into window
  dump_inode_lem ino d dumps =
      ap₂
        (λ (w : Volume) (o : Endian).
          if get16 o (dino_of w ino) di_mode == 0
          then d
          else dump_dinode ino (block_of w ino) (dino_of w ino) d)
        dumps.1 dumps.0.1

  dump_inode_free :
      (ino : ℕ) (d : Dump)
      → Dumps d
      → (get16 pdp11 (dino_of v ino) di_mode == 0) ≡ true
      → dump_inode ino d ≡ d
  unfolding dump_inode read_into window
  dump_inode_free ino d dumps free = dump_inode_lem ino d dumps ∙ rw free refl

  dump_inode_used :
      (ino : ℕ) (d : Dump)
      → Dumps d
      → (get16 pdp11 (dino_of v ino) di_mode == 0) ≡ false
      → dump_inode ino d ≡ dump_dinode ino (block_of v ino) (dino_of v ino) d
  unfolding dump_inode read_into window
  dump_inode_used ino d dumps used = dump_inode_lem ino d dumps ∙ rw used refl

  -- Every inode from `ino` on, `n` of them.
  abbrev pub AllTight : ℕ → ℕ → Type 0
  AllTight n ino = (k : ℕ) → ino ≤ k → k < ino + n → TightInode rec v (dino_of v k)

  -- Pass 1 from a position on ends at the first TS_END header, at `q`.
  abbrev pub Passes1 : ℕ → ℕ → ℕ → ℕ → Type 0
  Passes1 last p q m =
      (fuel : ℕ) → tape.size < p + fuel → pass_from fuel last p ≡ ended (m, place (q + rec))

  used-Form :
      (ino : ℕ) (d : Dump)
      → Dumps d
      → TightInode rec v (dino_of v ino)
      → Form rec ino
          (dino_of v ino)
          (block_of v ino)
          d
          (dump_dinode ino (block_of v ino) (dino_of v ino) d)
  used-Form ino d dumps tight =
      dump_dinode-Form rec ino (block_of v ino) (dino_of v ino) d dumps.0
        (subst (λ w. TightInode rec w (dino_of v ino)) (sym dumps.1) tight)

  dump_inode-Keeps :
      (ino : ℕ) (d : Dump) → Dumps d → TightInode rec v (dino_of v ino) → Keeps d (dump_inode ino d)
  dump_inode-Keeps ino d dumps tight =
      elim (Bool-cases (get16 pdp11 (dino_of v ino) di_mode == 0)) [
        | inl free ↦
            subst (Keeps d) (sym (dump_inode_free ino d dumps free)) (Keeps-refl d dumps.0.0)
        | inr used ↦ subst (Keeps d) (sym (dump_inode_used ino d dumps used)) (
            Form-Keeps rec ino (dino_of v ino) (block_of v ino) d _ dumps.0.0
              (used-Form ino d dumps tight))
      ]

  pub Keeps-Dumps : (d d' : Dump) → Dumps d → Keeps d d' → Dumps d'
  Keeps-Dumps d d' dumps k = (Keeps-IsFlat rec d d' k dumps.0, same_volume d d' k ∙ dumps.1)

  pub dump_inodes-Keeps :
      (n ino : ℕ) (d : Dump) → Dumps d → AllTight n ino → Keeps d (dump_inodes n ino d)
  unfolding dump_inodes
  dump_inodes-Keeps zero ino d dumps tight = Keeps-refl d dumps.0.0
  dump_inodes-Keeps (suc n) ino d dumps tight =
      let k : Keeps d (dump_inode ino d) =
        dump_inode-Keeps ino d dumps (tight ino (omega arith) (omega arith)) in
      Keeps-trans d (dump_inode ino d) (dump_inodes n (ino + 1) (dump_inode ino d)) k (
        dump_inodes-Keeps n (ino + 1) (dump_inode ino d) (Keeps-Dumps d (dump_inode ino d) dumps k)
          (λ j lo hi. tight j (omega arith) (omega arith)))

  -- From a header at the end of the inodes on, backwards: there is a header at each of them, and
  -- pass 1 comes from there to the end.
  abbrev pub Covered : ℕ → ℕ → ℕ → ℕ → Type 0
  Covered p q n ino = HeadAt p × ((last : ℕ) → Passes1 last p q (largest n ino v last))

  pass_end :
      (fuel last p : ℕ) (b : Buf)
      → gethead (place p) ≡ head b (place (p + rec))
      → htype b ≡ ts_end
      → p ≤ tape.size
      → tape.size < p + fuel
      → pass_from fuel last p ≡ ended (last, place (p + rec))
  unfolding first_next first_pass
  pass_end zero last p b found kind low l = absurd (omega arith)
  pass_end (suc fuel) last p b found kind low l =
      let stop : (htype b == ts_end) ≡ true = ground (arith, kind) in
      ap (first_next (first_pass (suc fuel) last) last) found ∙ rw (stop, first_pass) refl

  -- An inode in use, and the rest.
  pass_used :
      (fuel last ino q m : ℕ) (dino buf : Buf) (d d' : Dump) (next : HeadAt d'.file.size)
      → Dumps d
      → Form rec ino dino buf d d'
      → On tape d'
      → tape.size < d.file.size + fuel
      → Passes1 (larger last ino) d'.file.size q m
      → pass_from fuel last d.file.size ≡ ended (m, place (q + rec))
  pass_used zero last ino q m dino buf d d' next dumps form on l pass =
      absurd (omega (arith, on.longer, Form-longer rec ino dino buf d d' dumps.0 form))
  pass_used (suc fuel) last ino q m dino buf d d' next dumps form on l pass =
      let (b, found, kind, inum, passed) =
        pass_over-Form ino dino buf d d' next (suc fuel) dumps form on l in
      pass_inode fuel last ino d.file.size d'.file.size b next.0 found kind inum passed next.1
      ∙ pass fuel (omega (arith, Form-longer rec ino dino buf d d' dumps.0 form, sizes.1))

  head_used :
      (ino : ℕ) (dino buf : Buf) (d d' : Dump)
      → HeadAt d'.file.size
      → Dumps d
      → Form rec ino dino buf d d'
      → On tape d'
      → HeadAt d.file.size
  head_used ino dino buf d d' next dumps form on =
      let (b, found, kind, inum, passed) =
        pass_over-Form ino dino buf d d' next (tape.size + 1) dumps form on (omega arith) in
      (b, found, ground (arith, kind))

  pub pass_inodes :
      (n ino q : ℕ) (d : Dump) (b : Buf)
      → Dumps d
      → AllTight n ino
      → On tape (dump_inodes n ino d)
      → (dump_inodes n ino d).file.size ≡ q
      → gethead (place q) ≡ head b (place (q + rec))
      → htype b ≡ ts_end
      → Covered d.file.size q n ino
  unfolding dump_inodes largest
  pass_inodes zero ino q d b dumps tight on e found kind =
      subst (λ r. Covered r q zero ino) (sym e)
        (
          (b, found, ground (arith, kind)),
          λ last fuel l. pass_end fuel last q b found kind (omega (arith, e, on.longer)) l,
        )
  pass_inodes (suc n) ino q d b dumps tight on e found kind =
      let d' : Dump = dump_inode ino d in
      let t : TightInode rec v (dino_of v ino) = tight ino (omega arith) (omega arith) in
      let k : Keeps d d' = dump_inode-Keeps ino d dumps t in
      let dumps' : Dumps d' = Keeps-Dumps d d' dumps k in
      let rest : AllTight n (ino + 1) = λ j lo hi. tight j (omega arith) (omega arith) in
      let (next, pass) = pass_inodes n (ino + 1) q d' b dumps' rest on e found kind in
      let on' : On tape d' =
        On-Keeps tape d' (dump_inodes n (ino + 1) d') (dump_inodes-Keeps n (ino + 1) d' dumps' rest)
          on in
      elim (Bool-cases (get16 pdp11 (dino_of v ino) di_mode == 0)) [
        | inl free ↦ rw free (
            subst
              (λ (x : Dump).
                HeadAt x.file.size
                × ((last : ℕ) → Passes1 last x.file.size q (largest n (ino + 1) v last)))
              (dump_inode_free ino d dumps free) (next, pass))
        | inr used ↦
            let form : Form rec ino (dino_of v ino) (block_of v ino) d d' =
              subst (Form rec ino (dino_of v ino) (block_of v ino) d)
                (sym (dump_inode_used ino d dumps used)) (used-Form ino d dumps t) in
            (
              head_used ino (dino_of v ino) (block_of v ino) d d' next dumps form on',
              λ last. rw used (λ fuel l.
                  pass_used fuel last ino q (largest n (ino + 1) v (larger last ino))
                    (dino_of v ino) (block_of v ino) d d' next dumps form on' l
                    (pass (larger last ino))),
            )
      ]
