-- ===== src/Restore/Last.antt =====
-- The last inode that cmd_dump.c finds in use is the largest number in its headers.
use s5fs.Base.{
  ℕ, zero, suc, ◌+◌, ◌*◌, ◌^◌, ◌≤◌, ◌<◌, ◌≡◌, refl, sym, ap, subst, ◌∙◌, ◌⊎◌, inl, inr, false, ◌||◌,
  Option, none, some, arith, leb, ◌==◌, if◌then◌else◌, Bool-cases, Option-cases,
}
use s5fs.Layout.{dinodesz, rootino, di_mode}
use s5fs.Endian.{Buf, pdp11, get16}
use s5fs.Writer.{itod, itoo, window}
use s5fs.Dump.Record.{Dump}
use s5fs.Dump.Run.{Used, note_inode, find_used}
use s5fs.Dump.Leaves.{Volume, volume_of}
use s5fs.Restore.Passes.{dino_of, larger, largest}
use s5fs.Inode.{Inode, bread, iget, decode_inode}

abbrev pub mode_of : Volume → ℕ → ℕ
mode_of v k = get16 pdp11 (dino_of v k) di_mode

-- No inode, or one in use.
abbrev pub Seen : Volume → ℕ → Type 0
Seen v k = (k ≡ 0) ⊎ ((rootino ≤ k) × ((mode_of v k == 0) ≡ false))

iget-mode :
    (ino : ℕ) (d : Dump) (i : Inode)
    → d.r.bo ≡ pdp11
    → iget d.r d.image d.uninit ino ≡ some i
    → i.mode ≡ mode_of (volume_of d) ino
unfolding iget decode_inode window itod itoo
iget-mode ino d i bo e =
    let blk : ℕ = itod d.r.prof.inopb ino in
    elim (Bool-cases (ino == 0 || leb d.r.isize blk)) [
      | inl out ↦
          let closed : iget d.r d.image d.uninit ino ≡ none = rw (out, iget) refl in absurd (cc)
      | inr inside ↦ elim (Option-cases (bread d.r d.image blk d.uninit)) [
        | inl r ↦
            let closed : iget d.r d.image d.uninit ino ≡ none = rw (inside, r, iget) refl in
            absurd (cc)
        | inr (b, r) ↦
            let open_at : iget d.r d.image d.uninit ino
                ≡ some (decode_inode d.r.bo ino (window b (itoo d.r.prof.inopb ino * dinodesz))) =
              rw (inside, r, iget) refl in
            let same : i ≡ decode_inode d.r.bo ino (window b (itoo d.r.prof.inopb ino * dinodesz)) =
              cc in
            ap (λ (j : Inode). j.mode) same
            ∙ ap (λ o. get16 o (window b (itoo d.r.prof.inopb ino * dinodesz)) di_mode) bo
            ∙ ap
                (λ (o : Option Buf).
                  get16 pdp11
                    (window (elim o as (λ x. Buf) [ none ↦ d.uninit | some c ↦ c ])
                      (itoo d.r.prof.inopb ino * dinodesz))
                    di_mode)
                (sym r)
      ]
    ]

note_inode-Seen :
    (ino : ℕ) (v : Volume) (i : Inode) (u : Used)
    → rootino ≤ ino
    → i.mode ≡ mode_of v ino
    → Seen v u.last_ino
    → Seen v (note_inode ino i u).last_ino
unfolding note_inode
note_inode-Seen ino v i u lo e h = elim (Bool-cases (i.mode == 0)) [
  | inl z ↦ rw (z, note_inode) h
  | inr z ↦ rw (z, note_inode) (inr (lo, ap (λ m. m == 0) (sym e) ∙ z))
]

pub find_used-Seen :
    (n ino : ℕ) (d : Dump) (u : Used)
    → d.r.bo ≡ pdp11
    → rootino ≤ ino
    → Seen (volume_of d) u.last_ino
    → Seen (volume_of d) (find_used n ino d u).last_ino
unfolding find_used
find_used-Seen zero ino d u bo lo h = h
find_used-Seen (suc n) ino d u bo lo h = elim (Option-cases (iget d.r d.image d.uninit ino)) [
  | inl e ↦ rw (e, find_used) h
  | inr (i, e) ↦
      rw (e, find_used)
        (find_used-Seen n (ino + 1) d (note_inode ino i u) bo (omega (arith, lo))
          (note_inode-Seen ino (volume_of d) i u lo (iget-mode ino d i bo e) h))
]

-- The numbers grow, so that the last one in use is the largest.
pub largest-last :
    (n ino last : ℕ) (v : Volume)
    → last < ino
    → ino + n < 2 ^ 16
    → (mode_of v (ino + n) == 0) ≡ false
    → largest (suc n) ino v last ≡ ino + n
unfolding largest
largest-last zero ino last v lt small used = ground (arith, used)
largest-last (suc n) ino last v lt small used =
    let m : ℕ = if mode_of v ino == 0 then last else larger last ino in
    let rest : largest (suc n) (ino + 1) v m ≡ ino + 1 + n =
      largest-last n (ino + 1) m v (ground arith) (omega arith)
        (subst (λ k. (mode_of v k == 0) ≡ false) (omega arith) used) in
    rest ∙ omega arith
