-- ===== src/Rw/Empty.antt =====
-- The test of rw_rmdir and rw_rename for an empty directory (nonempty_cb).
use s5fs.Base.{ℕ, ◌<◌, ◌≡◌, ◌⊎◌, inl, inr, true, false, some, List, [], ◌∷◌, arith, Bool-cases, All}
use s5fs.Layout.{ifmt, ifdir}
use s5fs.Writer.{S5Fs}
use s5fs.Rw.Dir.{enotempty}
use s5fs.Rw.Ops.{Rw, rw_iget, rw_namei, parent_of, rmdir, nonempty, has_entries}
use s5fs.Inode.{Inode}
use s5fs.Reader.{readdir, same_name}
use s5fs.Reader.Names.{same_name-eq}

abbrev IsDots : List ℕ → Type 0
IsDots n = (n ≡ b'.' ∷ []) ⊎ (n ≡ b'.' ∷ b'.' ∷ [])

-- Each entry is "." or "..".
abbrev pub AllDots : List (ℕ × List ℕ) → Type 0
AllDots = All (λ e. IsDots e.1)

nonempty-dots : (es : List (ℕ × List ℕ)) → nonempty es ≡ false → AllDots es
unfolding nonempty
nonempty-dots [] h = tt
nonempty-dots ((i, n) ∷ es) h = elim (Bool-cases (same_name n (b'.' ∷ []))) [
  | inl t ↦ (inl (same_name-eq n (b'.' ∷ []) t), nonempty-dots es (ground arith))
  | inr f ↦ elim (Bool-cases (same_name n (b'.' ∷ b'.' ∷ []))) [
    | inl t ↦ (inr (same_name-eq n (b'.' ∷ b'.' ∷ []) t), nonempty-dots es (ground arith))
    | inr g ↦ absurd (ground arith)
  ]
]

nonempty-other : (es : List (ℕ × List ℕ)) → ¬ AllDots es → nonempty es ≡ true
nonempty-other es other = elim (Bool-cases (nonempty es)) [
  | inl t ↦ t
  | inr f ↦ absurd (other (nonempty-dots es f))
]

-- On a writable image, rw_rmdir of a directory with an entry other than "." and "..", whose parent
-- is found, gives ENOTEMPTY and changes nothing.
pub rmdir-occupied :
    (h : Rw) (path : List ℕ) (fs : S5Fs) (i : Inode) (es : List (ℕ × List ℕ))
    → h.writable ≡ true
    → 0 < (parent_of h path fs).0
    → 0 < rw_namei h path fs
    → rw_iget h (rw_namei h path fs) fs ≡ some i
    → ifmt i.mode ≡ ifdir
    → readdir h.r fs.fd fs.uninit i ≡ some es
    → ¬ AllDots es
    → rmdir h path fs ≡ some (enotempty, fs)
unfolding rmdir has_entries
rmdir-occupied h path fs i es w p c got dir listed others =
    let some_left = nonempty-other es others in ground (arith, w, p, c, got, dir, listed, some_left)
