-- ===== src/FreeList/Trace.antt =====
-- A sequence of calls on the allocator, against a stack of block numbers.
use s5fs.Base.{arith, ◌∙◌, refl, ℕ, ◌≤◌, ◌<◌, ◌≡◌, some, List, [], ◌∷◌, Fresh}
use s5fs.Endian.{Buf}
use s5fs.Writer.{S5Fs, Op, pure, do_op, ◌>>=◌, ◌>>◌, alloc, bfree, wtblk}
use s5fs.FreeList.Volume.{IsVolume}
use s5fs.FreeList.Stack.{limits-wtblk, limits-bfree, alloc-cons, bfree-cons, wtblk-IsVolume}

-- s5fs_alloc, s5fs_bfree, and a write to a block that the caller holds.
pub data Call : Type 0 where
  take : Call
  give : ℕ → Call
  store : ℕ → Buf → Call

-- The blocks that the s5fs_alloc calls of a sequence return, in order.
unfoldable pub run : List Call → Op (List ℕ)
run [] = pure []
run (take ∷ cs) = do x ← alloc; out ← run cs; pure (x ∷ out)
run (give x ∷ cs) = do do_op (bfree x); run cs
run (store x buf ∷ cs) = do do_op (wtblk x buf); run cs

-- What the calls do to a stack of free blocks between `lo` and `hi`, for a caller that gives back
-- and writes no block that is free.
pub data Runs (lo hi : ℕ) : List ℕ → List Call → List ℕ → List ℕ → Type 0 where
  done : {xs : List ℕ} → Runs lo hi xs [] [] xs
  took :
      {x : ℕ} {xs ys out : List ℕ} {cs : List Call}
      → Runs lo hi xs cs out ys
      → Runs lo hi (x ∷ xs) (take ∷ cs) (x ∷ out) ys
  gave :
      {x : ℕ} {xs ys out : List ℕ} {cs : List Call}
      → lo ≤ x
      → x < hi
      → Fresh x xs
      → Runs lo hi (x ∷ xs) cs out ys
      → Runs lo hi xs (give x ∷ cs) out ys
  stored :
      {x : ℕ} {buf : Buf} {xs ys out : List ℕ} {cs : List Call}
      → lo ≤ x
      → x < hi
      → Fresh x xs
      → Runs lo hi xs cs out ys
      → Runs lo hi xs (store x buf ∷ cs) out ys

run-Runs_at :
    {lo hi : ℕ} {xs ys out : List ℕ} {cs : List Call}
    → Runs lo hi xs cs out ys
    → (fs : S5Fs) → IsVolume fs xs
    → fs.s_isize ≡ lo
    → fs.s_fsize ≡ hi
    → (fs' : S5Fs) × (run cs fs ≡ some (out, fs')) × IsVolume fs' ys
unfolding run
run-Runs_at done fs v p q = (fs, refl, v)
run-Runs_at (took {x} {xs} r) fs v p q =
    let (fs1, got, v1, same, limits) = alloc-cons fs x xs v in
    let (fs2, ran, v2) = run-Runs_at r fs1 v1 (limits.0 ∙ p) (limits.1 ∙ q) in
    (fs2, ground (arith, got, ran), v2)
run-Runs_at (gave {x} {xs} lo hi fresh r) fs v p q =
    let limits = limits-bfree fs x in
    run-Runs_at r (bfree x fs) (bfree-cons fs x xs v (omega arith) fresh).0 (limits.0 ∙ p)
      (limits.1 ∙ q)
run-Runs_at (stored {x} {buf} {xs} lo hi fresh r) fs v p q =
    let limits = limits-wtblk fs x buf in
    run-Runs_at r (wtblk x buf fs) (wtblk-IsVolume fs x buf xs v (omega arith) fresh) (limits.0 ∙ p)
      (limits.1 ∙ q)

-- On a consistent volume, a sequence of s5fs_alloc calls, s5fs_bfree calls and data writes that the
-- stack of free blocks allows meets no undefined behaviour; the s5fs_alloc calls return what the
-- stack says, and the volume is consistent with the stack that is left.
pub run-Runs :
    {xs ys out : List ℕ} {cs : List Call} (fs : S5Fs)
    → IsVolume fs xs
    → Runs fs.s_isize fs.s_fsize xs cs out ys
    → (fs' : S5Fs) × (run cs fs ≡ some (out, fs')) × IsVolume fs' ys
run-Runs fs v r = run-Runs_at r fs v refl refl
