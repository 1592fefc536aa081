-- ===== src/Fsck/ReadOnly.antt =====
-- The checks of fsck read the image and leave it as it is.
use s5fs.Base.{
  ℕ, zero, suc, ◌+◌, ◌*◌, ◌≡◌, refl, subst, ◌∙◌, inl, inr, Bool, false, not, ◌&&◌, ◌||◌, Option,
  none, some, arith, ◌==◌, if◌then◌else◌, Bool-cases, Option-cases,
}
use s5fs.Layout.{ifmt, ifdir, ifreg}
use s5fs.Endian.{Buf, get32}
use s5fs.Image.{File}
use s5fs.Inode.{Inode}
use s5fs.Fsck.Check.{
  Ck, error, ck_rdblk, out_of_range, mark, read_inode, Tables, scan_inodes, Checks, mark_entries,
  mark_indirect, mark_tree, scan_inode, enter, good_mode,
}
use s5fs.Fsck.Dirs.{each_entry, each_block, each_inode, whole_dir, ck_bmap, ck_nblk}
use s5fs.Fsck.Links.{tally_entry, tally_block, tally}

-- The same image, and the same cache of the free list.
pub record Reads (c c' : Ck) : Type 0 where
  pub fd : c'.fd ≡ c.fd
  pub nfree : c'.nfree ≡ c.nfree

pub Reads-refl : (c : Ck) → Reads c c
Reads-refl c = record { fd = refl; nfree = refl }

pub Reads-trans : {a b c : Ck} → Reads a b → Reads b c → Reads a c
Reads-trans p q = record { fd = q.fd ∙ p.fd; nfree = q.nfree ∙ p.nfree }

-- What holds of a result, if there is one.
abbrev pub Held : {A : Type 0} → (A → Type 0) → Option A → Type 0
Held P none = Unit
Held P (some a) = P a

pub Held-of : {A : Type 0} (P : A → Type 0) (o : Option A) (a : A) → Held P o → o ≡ some a → P a
Held-of P none a h e = cc
Held-of P (some b) a h e = subst (Held P) e h

-- A step and then the rest.
pub Held-then :
    {A B : Type 0} (P : A → Type 0) (Q : B → Type 0) (o : Option A) (k : A → Option B)
    → Held P o
    → ((a : A) → P a → Held Q (k a))
    → Held Q (elim o [ none ↦ none | some a ↦ k a ])
Held-then P Q none k p q = tt
Held-then P Q (some a) k p q = q a p

Held-mono : (c c1 : Ck) → Reads c c1 → (o : Option Ck) → Held (Reads c1) o → Held (Reads c) o
Held-mono c c1 r none h = tt
Held-mono c c1 r (some c2) h = Reads-trans r h

mark-Reads : (bno : ℕ) (c : Ck) → Reads c (mark bno c)
unfolding mark
mark-Reads bno c = record { fd = ground arith; nfree = ground arith }

mark_entries-Reads :
    (g : ℕ → Ck → Option Ck) (f : ℕ → ℕ)
    → ((x : ℕ) (c : Ck) → Held (Reads c) (g x c))
    → (n e : ℕ) (c : Ck) → Held (Reads c) (mark_entries g f n e c)
unfolding mark_entries
mark_entries-Reads g f h zero e c = Reads-refl c
mark_entries-Reads g f h (suc n) e c =
    Held-then (Reads c) (Reads c) (g (f e) c) (mark_entries g f n (e + 1)) (h (f e) c)
      (λ c1 r. Held-mono c c1 r _ (mark_entries-Reads g f h n (e + 1) c1))

mark_indirect-Reads : (l bno : ℕ) (c : Ck) → Held (Reads c) (mark_indirect l bno c)
unfolding mark_indirect
mark_indirect-Reads zero bno c = mark-Reads bno c
mark_indirect-Reads (suc l) bno c = elim (Bool-cases (bno == 0)) [
  | inl t ↦ rw (Held, t) (Reads-refl c)
  | inr f ↦
      rw (Held, f)
        (elim (Bool-cases (out_of_range c bno)) [
          | inl t ↦ rw t (mark-Reads bno c)
          | inr g ↦ rw g (elim (Option-cases (ck_rdblk c bno)) [
            | inl e ↦ rw e tt
            | inr (buf, e) ↦ rw e (
                Held-mono c (mark bno c) (mark-Reads bno c) _ (
                  mark_entries-Reads (mark_indirect l) (λ k. get32 c.bo buf (4 * k))
                    (mark_indirect-Reads l) c.prof.nindir 0 (mark bno c)))
          ])
        ])
]

-- One step of marking and then the rest.
Reads-then :
    (c : Ck) (o : Option Ck) (k : Ck → Option Ck)
    → Held (Reads c) o
    → ((c1 : Ck) → Held (Reads c1) (k c1))
    → Held (Reads c) (elim o [ none ↦ none | some c1 ↦ k c1 ])
Reads-then c o k h g = Held-then (Reads c) (Reads c) o k h (λ c1 r. Held-mono c c1 r (k c1) (g c1))

mark_tree-Reads : (i : Inode) (c : Ck) → Held (Reads c) (mark_tree i c)
unfolding mark_tree
mark_tree-Reads i c =
    Reads-then c (mark_entries (mark_indirect 0) i.addr c.prof.laddr 0 c) _
      (mark_entries-Reads (mark_indirect 0) i.addr (mark_indirect-Reads 0) c.prof.laddr 0 c)
      (λ c1.
        Reads-then c1 (mark_indirect 1 (i.addr c.prof.laddr) c1) _
          (mark_indirect-Reads 1 (i.addr c.prof.laddr) c1)
          (λ c2.
            Reads-then c2 (mark_indirect 2 (i.addr (c.prof.laddr + 1)) c2) _
              (mark_indirect-Reads 2 (i.addr (c.prof.laddr + 1)) c2)
              (λ c3. mark_indirect-Reads 3 (i.addr (c.prof.laddr + 2)) c3)))

scan_inode-Reads : (k : Checks) (i : Inode) (c : Ck) → Held (Reads c) (scan_inode k i c)
unfolding scan_inode
scan_inode-Reads k i c = elim (Bool-cases (k.links && not (good_mode i.mode))) [
  | inl t ↦ rw (Held, t) (body (error c) (record { fd = refl; nfree = refl }))
  | inr f ↦ rw (Held, f) (body c (Reads-refl c))
]
  where
    body :
        (c1 : Ck)
        → Reads c c1
        → Held (Reads c) (
            if k.blocks && (ifmt i.mode == ifreg || ifmt i.mode == ifdir)
            then mark_tree i c1
            else some c1)
    body c1 r = elim (Bool-cases (k.blocks && (ifmt i.mode == ifreg || ifmt i.mode == ifdir))) [
      | inl t ↦ rw (Held, t) (Held-mono c c1 r (mark_tree i c1) (mark_tree-Reads i c1))
      | inr f ↦ rw (Held, f) r
    ]

pub scan_inodes-Reads :
    (k : Checks) (n ino : ℕ) (c : Ck) (t : Tables)
    → Held (λ s. Reads c s.0) (scan_inodes k n ino c t)
unfolding scan_inodes
scan_inodes-Reads k zero ino c t = Reads-refl c
scan_inodes-Reads k (suc n) ino c t = elim (Option-cases (read_inode c ino)) [
  | inl e ↦ rw (Held, e) tt
  | inr (none, e) ↦ rw (Held, e) (Reads-refl c)
  | inr (some i, e) ↦
      rw (Held, e)
        (elim (Bool-cases (i.mode == 0)) [
          | inl z ↦ rw z (scan_inodes-Reads k n (ino + 1) c t)
          | inr z ↦ rw z (
              Held-then (Reads c) (λ s. Reads c s.0) (scan_inode k i c) _ (scan_inode-Reads k i c)
                (λ c1 r. after c1 r _ (scan_inodes-Reads k n (ino + 1) c1 (enter i t))))
        ])
]
  where
    after :
        (c1 : Ck)
        → Reads c c1
        → (o : Option (Ck × Tables)) → Held (λ s. Reads c1 s.0) o
        → Held (λ s. Reads c s.0) o
    after c1 r none h = tt
    after c1 r (some s) h = Reads-trans r h

-- A loop keeps what each of its steps keeps.
each_entry-keeps :
    {A : Type 0} (P : A → Type 0) (f : ℕ → A → A)
    → ((e : ℕ) (s : A) → P s → P (f e s))
    → (n e : ℕ) (s : A) → P s
    → P (each_entry f n e s)
unfolding each_entry
each_entry-keeps P f h zero e s p = p
each_entry-keeps P f h (suc n) e s p = each_entry-keeps P f h n (e + 1) (f e s) (h e s p)

each_block-keeps :
    {A : Type 0} (P : Ck × A → Type 0) (stop : A → Bool) (f : ℕ → ℕ → Buf → Ck × A → Ck × A)
    → ((phys b : ℕ) (buf : Buf) (s : Ck × A) → P s → P (f phys b buf s))
    → (addr : ℕ → ℕ) (n b : ℕ) (s : Ck × A) → P s
    → Held P (each_block stop f addr n b s)
unfolding each_block
each_block-keeps P stop f h addr zero b s p = p
each_block-keeps P stop f h addr (suc n) b s p = elim (Bool-cases (stop s.1)) [
  | inl t ↦ rw (Held, t) p
  | inr z ↦
      rw (Held, z)
        (elim (Option-cases (ck_bmap s.0 addr b)) [
          | inl e ↦ rw e tt
          | inr (phys, e) ↦ rw e (elim (Bool-cases (phys == 0)) [
            | inl t ↦ rw t (each_block-keeps P stop f h addr n (b + 1) s p)
            | inr z2 ↦ rw z2 (elim (Option-cases (ck_rdblk s.0 phys)) [
              | inl e2 ↦ rw e2 tt
              | inr (buf, e2) ↦
                  rw e2
                    (each_block-keeps P stop f h addr n (b + 1) (f phys b buf s) (h phys b buf s p))
            ])
          ])
        ])
]

each_inode-keeps :
    {A : Type 0} (P : Ck × A → Type 0) (keep : ℕ → Bool) (f : Inode → Ck × A → Option (Ck × A))
    → ((i : Inode) (s : Ck × A) → P s → Held P (f i s))
    → (n ino : ℕ) (s : Ck × A) → P s
    → Held P (each_inode keep f n ino s)
unfolding each_inode
each_inode-keeps P keep f h zero ino s p = p
each_inode-keeps P keep f h (suc n) ino s p = elim (Bool-cases (keep ino)) [
  | inr z ↦ rw (Held, z) (each_inode-keeps P keep f h n (ino + 1) s p)
  | inl t ↦
      rw (Held, t)
        (elim (Option-cases (read_inode s.0 ino)) [
          | inl e ↦ rw e tt
          | inr (none, e) ↦ rw e (each_inode-keeps P keep f h n (ino + 1) s p)
          | inr (some i, e) ↦ rw e (
              Held-then P P (f i s) (each_inode keep f n (ino + 1)) (h i s p)
                (λ s' p'. each_inode-keeps P keep f h n (ino + 1) s' p'))
        ])
]

tally_entry-fd :
    (fd : File) (nino : ℕ) (t : Tables) (ino : ℕ) (buf : Buf) (e : ℕ) (s : Ck × (ℕ → ℕ))
    → s.0.fd ≡ fd
    → (tally_entry nino t ino buf e s).0.fd ≡ fd
unfolding tally_entry
tally_entry-fd fd nino t ino buf e s h = ground (arith, h)

tally_block-fd :
    (fd : File) (nino : ℕ) (t : Tables) (ino phys b : ℕ) (buf : Buf) (s : Ck × (ℕ → ℕ))
    → s.0.fd ≡ fd
    → (tally_block nino t ino phys b buf s).0.fd ≡ fd
unfolding tally_block
tally_block-fd fd nino t ino phys b buf s h =
    each_entry-keeps (λ s. s.0.fd ≡ fd) (tally_entry nino t ino buf)
      (λ e s p. tally_entry-fd fd nino t ino buf e s p) s.0.prof.ndirect 0 s h

pub tally-fd : (nino : ℕ) (t : Tables) (c : Ck) → Held (λ s. s.0.fd ≡ c.fd) (tally nino t c)
unfolding tally
tally-fd nino t c =
    each_inode-keeps (λ s. s.0.fd ≡ c.fd) t.isdir (λ i. whole_dir (tally_block nino t i.number) i)
      (λ i s p.
        each_block-keeps (λ s. s.0.fd ≡ c.fd) (λ a. false) (tally_block nino t i.number)
          (λ phys b buf s p. tally_block-fd c.fd nino t i.number phys b buf s p) i.addr
          (ck_nblk s.0 i) 0 s p)
      nino 1 (c, λ i. 0) refl
