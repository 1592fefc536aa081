-- ===== src/Rw/Ancestry.antt =====
-- Why rw_rename cannot detach a subtree: is_ancestor and the guards before the target is touched.
use s5fs.Base.{ℕ, zero, suc, ◌<◌, ◌≡◌, refl, ◌≢◌, true, some, List, [], ◌∷◌, arith}
use s5fs.Layout.{ifdir, ifmt, rootino}
use s5fs.Writer.{S5Fs}
use s5fs.Rw.Ops.{parent_of, rw_namei, rename, Rw, rw_iget, climb, is_ancestor}
use s5fs.Inode.{Inode}
use s5fs.Reader.{readdir, look}
use s5fs.Rw.Dir.{einval, name_ok}

-- `up` is the number that the entry ".." of directory `cur` holds.
pub record IsUp (h : Rw) (fs : S5Fs) (cur up : ℕ) : Type 0 where
  pub inode : Inode
  pub entries : List (ℕ × List ℕ)
  pub read : rw_iget h cur fs ≡ some inode
  pub listed : readdir h.r fs.fd fs.uninit inode ≡ some entries
  pub found : look (b'.' ∷ b'.' ∷ []) entries ≡ up
  pub real : 0 < up
  pub other : up ≢ cur
  pub inner : cur ≢ rootino
  pub used : 0 < cur

-- The entries ".." lead from a directory to `anc`, none of them the root's.
pub data Below (h : Rw) (fs : S5Fs) (anc : ℕ) : ℕ → Type 0 where
  here : Below h fs anc anc
  up : (cur parent : ℕ) → IsUp h fs cur parent → Below h fs anc parent → Below h fs anc cur

climb-Below :
    (h : Rw) (fs : S5Fs) (anc n cur : ℕ) → Below h fs anc cur → climb h anc fs n cur ≡ true
unfolding climb
climb-Below h fs anc zero cur below = refl
climb-Below h fs anc (suc n) cur here = ground arith
climb-Below h fs anc (suc n) cur (up _ parent u below) =
    let on : climb h anc fs n parent ≡ true = climb-Below h fs anc n parent below in
    ground (arith, on, u.read, u.listed, u.found, u.real, u.other, u.inner, u.used)

-- A directory that the entries ".." lead up from is answered "yes", also on a volume with a cycle.
pub is_ancestor-Below :
    (h : Rw) (fs : S5Fs) (anc dino : ℕ) → Below h fs anc dino → is_ancestor h anc dino fs ≡ true
unfolding is_ancestor
is_ancestor-Below h fs anc dino below = climb-Below h fs anc _ dino below

-- On a writable image, a rename of a directory to a representable name inside its own subtree,
-- with both parent directories found, gives EINVAL and changes nothing.
pub rename-subtree :
    (h : Rw) (from to : List ℕ) (fs : S5Fs) (cin : Inode)
    → h.writable ≡ true
    → rw_iget h (rw_namei h from fs) fs ≡ some cin
    → ifmt cin.mode ≡ ifdir
    → 0 < (parent_of h from fs).0
    → 0 < rw_namei h from fs
    → 0 < (parent_of h to fs).0
    → name_ok (parent_of h to fs).1 ≡ true
    → Below h fs (rw_namei h from fs) (parent_of h to fs).0
    → rename h from to fs ≡ some (einval, fs)
unfolding rename
rename-subtree h from to fs cin w got dir p c t ok below =
    let loop = is_ancestor-Below h fs (rw_namei h from fs) (parent_of h to fs).0 below in
    ground (arith, w, got, dir, p, c, t, ok, loop)
