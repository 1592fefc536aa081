-- ===== src/Rw/Copy.antt =====
-- rw_open, rw_put_fd, rw_copy_between and rw_copy of s5fs_rw.c.
use s5fs.Base.{
  ℕ, zero, suc, ◌+◌, ◌-◌, ◌/◌, ◌^◌, Bool, true, false, not, Option, none, some, List, [], ◌∷◌, ltb,
  leb, ◌==◌, if◌then◌else◌, min,
}
use s5fs.Layout.{ifmt, perm_bits, ifdir, ifreg}
use s5fs.Endian.{Buf, Endian}
use s5fs.Image.{File}
use s5fs.Writer.{S5Fs, Op}
use s5fs.Inode.{Inode, Fsr, iget}
use s5fs.Reader.Bytes.{readfile}
use s5fs.Reader.{open_image, namei}
use s5fs.Superblock.{mount, blank, finish}
use s5fs.Rw.Dir.{Rc, done, erofs, enoent, enospc, eisdir, eio, eperm}
use s5fs.Rw.Ops.{Rw, rw_namei, rw_iget, creat, after}
use s5fs.Rw.Attr.{set_meta, pwrite, truncate}

-- The path has been opened by the host, for reading and, where it is asked for, for writing. On a
-- handle that is not writable the writer is all zero but for the file, which the reader shares.
unfoldable pub rw_open : File → Buf → ℕ → Option Endian → Bool → ℕ → Option (Rw × S5Fs)
rw_open fd uninit bsize forced writable base = elim (open_image fd uninit bsize forced base) [
  | none ↦ none
  | some r ↦ elim writable [
    | false ↦ some (record { r = r; writable = false }, blank fd uninit)
    | true ↦
        let w : S5Fs = mount fd uninit r.prof.bsize r.bo base in
        elim (w.error) [ some _ ↦ none | none ↦ some (record { r = r; writable = true }, w) ]
  ]
]

unfoldable pub rw_sync : Rw → S5Fs → S5Fs
rw_sync h fs = if h.writable then finish fs else fs

-- The regular file that is to be written: an old one is emptied, or a new one is made. The number
-- counts where the call is done.
unfoldable pub target : Rw → List ℕ → ℕ → Op (Rc × ℕ)
target h path perm fs =
    let ino : ℕ = rw_namei h path fs in
    elim (ino == 0) [
      | true ↦ creat h path perm fs
      | false ↦ elim (rw_iget h ino fs) [
        | none ↦ some ((eio, 0), fs)
        | some i ↦
            if ifmt i.mode == ifdir
            then some ((eisdir, 0), fs)
            else if not (ifmt i.mode == ifreg)
            then some ((eperm, 0), fs)
            else elim (truncate h ino 0 fs) [
              | none ↦ none
              | some (_, fs1) ↦ some ((done, ino), fs1)
            ]
      ]
    ]

-- One call of read(2) on the source, as documented: an error, or `n` bytes, 0 at the end.
pub data Chunk : Type 0 where
  failed : Chunk
  got : ℕ → Buf → Chunk

-- What a failed or a short write is answered with.
unfoldable pub short_write : Rc → ℕ → ℕ → Option Rc
short_write done n w = if ltb w n then some enospc else none
short_write rc n w = some rc

-- The loop of rw_put_fd over what the calls of read give, at the offset `off`.
unfoldable pub put_chunks : Rw → ℕ → List Chunk → ℕ → Op Rc
put_chunks h ino [] off fs = some (done, fs)
put_chunks h ino (failed ∷ cs) off fs = some (eio, fs)
put_chunks h ino (got n buf ∷ cs) off fs = elim (n == 0) [
  | true ↦ some (done, fs)
  | false ↦ elim (pwrite h ino buf n off fs) [
    | none ↦ none
    | some ((rc, w), fs1) ↦ elim (short_write rc n w) [
      | some e ↦ some (e, fs1)
      | none ↦ put_chunks h ino cs (off + w) fs1
    ]
  ]
]

-- The attributes and the sync at the end.
unfoldable pub settle : Rw → ℕ → ℕ → ℕ → ℕ → Op Rc
settle h ino perm atime mtime fs = some (done, rw_sync h (set_meta ino perm atime mtime fs))

unfoldable pub put_fd : Rw → List ℕ → List Chunk → ℕ → ℕ → Op Rc
put_fd h path source perm mtime fs = elim (h.writable) [
  | false ↦ some (erofs, fs)
  | true ↦ elim (target h path perm fs) [
    | none ↦ none
    | some ((rc, ino), fs1) ↦
        after rc
          (λ fs1. elim (put_chunks h ino source 0 fs1) [
            | none ↦ none
            | some (rc2, fs2) ↦ after rc2 (settle h ino perm mtime mtime) fs2
          ])
          fs1
  ]
]

-- The loop of rw_copy_between, `fuel` rounds at most: up to 64 KiB from the file `i` of the source
-- `sr`, whose image the function `image` gives for a state of the target.
unfoldable pub copy_loop : ℕ → (S5Fs → File) → Fsr → Inode → Rw → ℕ → ℕ → Op Rc
copy_loop zero image sr i dh ino off fs = some (done, fs)
copy_loop (suc fuel) image sr i dh ino off fs = elim (ltb off i.size) [
  | false ↦ some (done, fs)
  | true ↦
      let want : ℕ = min (i.size - off) 65536 in
      let (n, buf) = readfile sr (image fs) fs.uninit i fs.uninit want off in
      elim (n == want) [
        | false ↦ some (eio, fs)
        | true ↦ elim (pwrite dh ino buf want off fs) [
          | none ↦ none
          | some ((rc, w), fs1) ↦ elim (short_write rc want w) [
            | some e ↦ some (e, fs1)
            | none ↦ copy_loop fuel image sr i dh ino (off + want) fs1
          ]
        ]
      ]
]

-- A size with the sign bit is negative, and copies nothing. Each round but the last copies 64 KiB,
-- so that a round for each 64 KiB and one more are enough.
unfoldable pub copy_between : (S5Fs → File) → Fsr → List ℕ → Rw → List ℕ → Op Rc
copy_between image sr src dh dst fs =
    let sino : ℕ = namei sr (image fs) fs.uninit src in
    elim (dh.writable) [
      | false ↦ some (erofs, fs)
      | true ↦ elim (sino == 0) [
        | true ↦ some (enoent, fs)
        | false ↦ elim (iget sr (image fs) fs.uninit sino) [
          | none ↦ some (eio, fs)
          | some i ↦
              if ifmt i.mode == ifdir
              then some (eisdir, fs)
              else if not (ifmt i.mode == ifreg)
              then some (eperm, fs)
              else elim (target dh dst (perm_bits i.mode) fs) [
                | none ↦ none
                | some ((rc, ino), fs1) ↦
                    after rc
                      (λ fs1.
                        elim (copy_loop (if leb (2 ^ 31) i.size then 0 else i.size / 65536 + 1)
                          image sr i dh ino 0 fs1) [
                            | none ↦ none
                            | some (rc2, fs2) ↦
                                after rc2 (settle dh ino (perm_bits i.mode) i.atime i.mtime) fs2
                          ])
                      fs1
              ]
        ]
      ]
    ]

-- Both in one image: the reader sees what has been written.
unfoldable pub copy : Rw → List ℕ → List ℕ → Op Rc
copy h src dst fs = copy_between (λ fs. fs.fd) h.r src h dst fs
