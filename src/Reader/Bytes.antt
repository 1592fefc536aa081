-- ===== src/Reader/Bytes.antt =====
-- fsr_readfile of fsread.c: the bytes of a file.
use s5fs.Base.{
  ℕ, zero, suc, ◌+◌, ◌-◌, ◌/◌, ◌%◌, ◌^◌, true, false, ◌||◌, none, some, ltb, leb, ◌==◌,
  if◌then◌else◌, min,
}
use s5fs.Layout.{u32}
use s5fs.Endian.{Buf}
use s5fs.Image.{File}
use s5fs.Writer.{window, splice}
use s5fs.BlockMap.{bmap}
use s5fs.Inode.{Inode, Fsr, bread}

-- `fuel` rounds of the loop at most; the count of bytes read, and the buffer.
unfoldable pub read_loop : ℕ → Fsr → File → Buf → (ℕ → ℕ) → ℕ → ℕ → ℕ → Buf → ℕ × Buf
unfolding splice window
read_loop zero r fd uninit addr size off done buf = (done, buf)
read_loop (suc fuel) r fd uninit addr size off done buf =
    let boff : ℕ = (off + done) % r.prof.bsize in
    let want : ℕ = min (r.prof.bsize - boff) (size - done) in
    let phys : ℕ = bmap r fd uninit addr (u32 ((off + done) / r.prof.bsize)) in
    elim (ltb done size) [
      | false ↦ (done, buf)
      | true ↦ elim (phys == 0) [
        | true ↦
            read_loop fuel r fd uninit addr size off (done + want) (splice buf done want (λ i. 0))
        | false ↦ elim (bread r fd phys uninit) [
          | none ↦ (done, buf)
          | some blk ↦
              read_loop fuel r fd uninit addr size off (done + want)
                (splice buf done want (window blk boff))
        ]
      ]
    ]

-- A size with the sign bit is a negative `int32_t`, at which no offset is below the end. Each round
-- reads a byte or more, so that a round for each byte is enough.
unfoldable pub readfile : Fsr → File → Buf → Inode → Buf → ℕ → ℕ → ℕ × Buf
readfile r fd uninit i buf size off =
    if leb (2 ^ 31) i.size || leb i.size off
    then (0, buf)
    else let n : ℕ = if ltb i.size (off + size) then i.size - off else size in
      read_loop (n + 1) r fd uninit i.addr n off 0 buf
