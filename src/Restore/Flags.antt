-- ===== src/Restore/Flags.antt =====
-- The flags of a header without a target: the tape goes on behind the blocks that are there.
use s5fs.Base.{
  ℕ, zero, suc, ◌+◌, ◌*◌, ◌≤◌, ◌<◌, ◌≡◌, refl, ap, ◌∙◌, ◌≢◌, inl, inr, true, false, none, some,
  arith, ltb, ◌==◌, if◌then◌else◌, Bool-cases, min, ap₂,
}
use s5fs.Endian.{Buf}
use s5fs.Writer.{zeros}
use s5fs.Dump.Record.{c_addr}
use s5fs.Restore.Tape.{Dr, rec_read}
use s5fs.Restore.Blocks.{
  Sink, keep_record, skip_flag, more, take_record, take_flag, take_flags, then_flow,
}
use s5fs.Dump.Flat.{present}
use s5fs.Image.{read_at_lem}

-- `m` bytes further on the tape.
abbrev pub advance : Dr → ℕ → Dr
advance dr m = record dr { pos = dr.pos + m }

-- read_blocks at the block `b` without a target.
abbrev pub skipping : Dr → ℕ → Sink
skipping dr b = record { dr = dr; b = b; fs = none; da = zeros }

-- The flags of `n` block numbers from `i` on.
abbrev pub HasFlags : Buf → (ℕ → ℕ) → ℕ → ℕ → Type 0
HasFlags ab f n i = (k : ℕ) → i ≤ k → k < i + n → ab (c_addr + k) ≡ (if f k == 0 then 0 else 1)

-- Where the first number is the block `b0` of a file, there are only holes behind the file's end.
abbrev pub Tight : ℕ → ℕ → (ℕ → ℕ) → ℕ → ℕ → Type 0
Tight nblk b0 f n i = (k : ℕ) → i ≤ k → k < i + n → nblk ≤ b0 + k → f k ≡ 0

pub present_none :
    (f : ℕ → ℕ) (n i : ℕ) → ((k : ℕ) → i ≤ k → k < i + n → f k ≡ 0) → present f n i ≡ 0
unfolding present
present_none f zero i h = refl
present_none f (suc n) i h =
    let rest : present f n (i + 1) ≡ 0 =
      present_none f n (i + 1) (λ k lo hi. h k (omega arith) (omega arith)) in
    ground (arith, h i (omega arith) (omega arith))

pub rec_read_lem :
    (dr : Dr)
    → dr.pos + dr.rec ≤ dr.file.size
    → (b : Buf) × (rec_read dr ≡ some (b, advance dr dr.rec))
unfolding rec_read
rec_read_lem dr h =
    let b : Buf = λ i. if ltb i dr.rec then dr.file.byte (dr.pos + i) else zeros i in
    (b, rw (read_at_lem dr.file dr.pos dr.rec zeros h, rec_read) refl)

take_record-skipping :
    (dr : Dr) (b : ℕ)
    → dr.pos + dr.rec ≤ dr.file.size
    → take_record (skipping dr b) ≡ more (skipping (advance dr dr.rec) b)
unfolding take_record keep_record
take_record-skipping dr b l = let (r, e) = rec_read_lem dr l in rw (e, take_record) refl

-- A flag takes a record off the tape, or nothing.
take_flag-skipping :
    (flag : ℕ) (dr : Dr) (b : ℕ)
    → (flag ≢ 0 → dr.pos + dr.rec ≤ dr.file.size)
    → take_flag flag (skipping dr b)
      ≡ more (skipping (advance dr ((if flag == 0 then 0 else 1) * dr.rec)) b)
unfolding take_flag skip_flag
take_flag-skipping flag dr b l = elim (Bool-cases (flag == 0)) [
  | inl z ↦ rw (z, take_flag) (ap (λ p. more (skipping (record dr { pos = p }) b)) (omega arith))
  | inr z ↦
      rw (z, take_flag)
        (take_record-skipping dr b (l (ground (arith, z)))
          ∙ ap (λ m. more (skipping (advance dr m) b)) (omega arith))
]

take_stop :
    (n i : ℕ) (ab : Buf) (nblk : ℕ) (s : Sink)
    → ltb s.b nblk ≡ false
    → take_flags (suc n) i ab nblk s ≡ more s
unfolding take_flags
take_stop n i ab nblk s h = rw (h, take_flags) refl

take_turn :
    (n i : ℕ) (ab : Buf) (nblk : ℕ) (s s' : Sink)
    → ltb s.b nblk ≡ true
    → take_flag (ab (c_addr + i)) s ≡ more s'
    → take_flags (suc n) i ab nblk s ≡ take_flags n (i + 1) ab nblk (record s' { b = s'.b + 1 })
unfolding take_flags then_flow
take_turn n i ab nblk s s' h e = rw (h, e, take_flags) refl

-- 1 for a block that is there.
abbrev one_if : ℕ → ℕ
one_if v = if v == 0 then 0 else 1

one_if_twice : (a v : ℕ) → a ≡ one_if v → one_if a ≡ one_if v
one_if_twice a v h = ground arith

room : (p q rec u x : ℕ) → p + (u + x) * rec ≤ q → u ≡ 1 → p + rec ≤ q
room p q rec u x h e = grind arith

room_rest : (p q rec u x : ℕ) → p + (u + x) * rec ≤ q → p + u * rec + x * rec ≤ q
room_rest p q rec u x h = grind arith

distribute : (p rec u x : ℕ) → p + u * rec + x * rec ≡ p + (u + x) * rec
distribute p rec u x = grind arith

-- The flags of a header take a record for each block that is there.
pub take_flags-skipping :
    (n i : ℕ) (ab : Buf) (f : ℕ → ℕ) (nblk b0 : ℕ) (dr : Dr)
    → HasFlags ab f n i
    → Tight nblk b0 f n i
    → b0 + i ≤ nblk
    → dr.pos + present f n i * dr.rec ≤ dr.file.size
    → take_flags n i ab nblk (skipping dr (b0 + i))
      ≡ more (skipping (advance dr (present f n i * dr.rec)) (min (b0 + i + n) nblk))
unfolding present take_flags
take_flags-skipping zero i ab f nblk b0 dr flags tight low fits =
    ap₂ (λ p b. more (skipping (record dr { pos = p }) b)) (omega arith) (omega arith)
take_flags-skipping (suc n) i ab f nblk b0 dr flags tight low fits =
    elim (Bool-cases (ltb (b0 + i) nblk)) [
      | inr past ↦
          let none_left : present f (suc n) i ≡ 0 =
            present_none f (suc n) i (λ k lo hi. tight k lo hi (ground (arith, past))) in
          let at_end : b0 + i ≡ min (b0 + i + suc n) nblk = ground (arith, past) in
          take_stop n i ab nblk (skipping dr (b0 + i)) past
          ∙ ap₂ (λ p b. more (skipping (record dr { pos = p }) b))
              (omega (arith, ap (λ t. t * dr.rec) none_left)) at_end
      | inl go ↦
          let u : ℕ = one_if (f i) in
          let flag : ab (c_addr + i) ≡ u = flags i (omega arith) (omega arith) in
          let same : one_if (ab (c_addr + i)) ≡ u = one_if_twice (ab (c_addr + i)) (f i) flag in
          let x : ℕ = present f n (i + 1) in
          let dr' : Dr = advance dr (u * dr.rec) in
          let taken : take_flag (ab (c_addr + i)) (skipping dr (b0 + i))
              ≡ more (skipping dr' (b0 + i)) =
            take_flag-skipping (ab (c_addr + i)) dr (b0 + i)
              (λ ne. room dr.pos dr.file.size dr.rec u x fits (ground (arith, flag)))
            ∙ ap (λ v. more (skipping (advance dr (v * dr.rec)) (b0 + i))) same in
          take_turn n i ab nblk (skipping dr (b0 + i)) (skipping dr' (b0 + i)) go taken
          ∙ ap (λ b. take_flags n (i + 1) ab nblk (skipping dr' b)) (omega arith)
          ∙ take_flags-skipping n (i + 1) ab f nblk b0 dr'
              (λ k lo hi. flags k (omega arith) (omega arith))
              (λ k lo hi. tight k (omega arith) (omega arith)) (ground (arith, go))
              (room_rest dr.pos dr.file.size dr.rec u x fits)
          ∙ ap₂ (λ p b. more (skipping (record dr { pos = p }) b)) (distribute dr.pos dr.rec u x)
              (omega arith)
    ]
