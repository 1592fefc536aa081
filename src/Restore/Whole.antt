-- ===== src/Restore/Whole.antt =====
-- Pass 1 of cmd_restore.c on a whole tape of cmd_dump.c.
use s5fs.Base.{ℕ, ◌-◌, ◌^◌, ◌<◌, ◌≡◌, refl, subst, Bool, true, false, arith}
use s5fs.Layout.{rootino, bsize_ok, profile}
use s5fs.Image.{File}
use s5fs.Dump.Parts.{write_map-Keeps, tape_header-Keeps, end_headers-Keeps}
use s5fs.Restore.Steps.{
  few_blocks, write_map-StepsOver, tape_header-StepsOver, end_head, StepsOver-Comes,
}
use s5fs.Restore.Passes.{
  largest, Dumps, AllTight, Passes1, pass_inodes, dump_inodes-Keeps, Keeps-Dumps,
}
use s5fs.Dump.Record.{ts_bits, ts_clri, Dump}
use s5fs.Dump.Run.{
  map_blocks, Used, write_map, tape_header, dump_inodes, end_headers, end_tape, write_tape,
}
use s5fs.Dump.Flat.{Keeps}
use s5fs.Restore.Headers.{On, On-Keeps}
use s5fs.Dump.Leaves.{Volume}

-- Without framing there is nothing behind the last header.
end_tape_flat : (d : Dump) → d.tap ≡ false → end_tape d ≡ d
unfolding end_tape
end_tape_flat d h = rw h refl

module _ (tape : File) (rec : ℕ) (force : Bool) (bad : ℕ) (v : Volume) (good : bsize_ok rec ≡ true)
    (geometry : v.0.prof ≡ profile rec) where
  -- The tape from the inodes on.
  inodes-Comes :
      (last : ℕ) (d : Dump)
      → Dumps tape rec force bad v good geometry d
      → AllTight tape rec force bad v good geometry (last - 1) rootino
      → On tape (end_headers last (dump_inodes (last - 1) rootino d))
      → On tape d
        × Passes1 tape rec force bad v good geometry 0 d.file.size
            (dump_inodes (last - 1) rootino d).file.size
            (largest (last - 1) rootino v 0)
  inodes-Comes last d dumps tight on =
      let d' : Dump = dump_inodes (last - 1) rootino d in
      let k : Keeps d d' =
        dump_inodes-Keeps tape rec force bad v good geometry (last - 1) rootino d dumps tight in
      let dumps' : Dumps tape rec force bad v good geometry d' =
        Keeps-Dumps tape rec force bad v good geometry d d' dumps k in
      let (on', b, found, kind) = end_head tape rec force bad v good geometry last d' dumps' on in
      (
        On-Keeps tape d d' k on',
        (pass_inodes tape rec force bad v good geometry (last - 1) rootino d'.file.size d b dumps
              tight on' refl found kind).1
            0,
      )

  pub write_tape-Comes :
      (now : ℕ) (u : Used) (d : Dump)
      → Dumps tape rec force bad v good geometry d
      → AllTight tape rec force bad v good geometry (u.last_ino - 1) rootino
      → u.last_ino < 2 ^ 16
      → On tape (write_tape now u d)
      → (q : ℕ) × Passes1 tape rec force bad v good geometry 0 d.file.size q
          (largest (u.last_ino - 1) rootino v 0)
  unfolding write_tape
  write_tape-Comes now u d dumps tight small on =
      let last : ℕ = u.last_ino in
      let few : map_blocks rec last < 2 ^ 16 = few_blocks rec last good small in
      let n : ℕ = last - 1 in
      let d1 : Dump = tape_header now last d in
      let k1 : Keeps d d1 = tape_header-Keeps now last d dumps.0.0 in
      let d2 : Dump = write_map u.map last ts_clri d1 in
      let k2 : Keeps d1 d2 = write_map-Keeps u.map last ts_clri d1 k1.flat in
      let d3 : Dump = write_map u.map last ts_bits d2 in
      let k3 : Keeps d2 d3 = write_map-Keeps u.map last ts_bits d2 k2.flat in
      let dumps1 = Keeps-Dumps tape rec force bad v good geometry d d1 dumps k1 in
      let dumps2 = Keeps-Dumps tape rec force bad v good geometry d1 d2 dumps1 k2 in
      let dumps3 = Keeps-Dumps tape rec force bad v good geometry d2 d3 dumps2 k3 in
      let k4 : Keeps d3 (dump_inodes n rootino d3) =
        dump_inodes-Keeps tape rec force bad v good geometry n rootino d3 dumps3 tight in
      let k5 : Keeps (dump_inodes n rootino d3) (end_headers last (dump_inodes n rootino d3)) =
        end_headers-Keeps last (dump_inodes n rootino d3) k4.flat in
      let on5 : On tape (end_headers last (dump_inodes n rootino d3)) =
        subst (On tape) (end_tape_flat (end_headers last (dump_inodes n rootino d3)) k5.flat) on in
      let (on3, comes) = inodes-Comes last d3 dumps3 tight on5 in
      let on2 : On tape d2 = On-Keeps tape d2 d3 k3 on3 in
      let on1 : On tape d1 = On-Keeps tape d1 d2 k2 on2 in
      let q : ℕ = (dump_inodes n rootino d3).file.size in
      let m : ℕ = largest n rootino v 0 in
      (
        q,
        StepsOver-Comes tape rec force bad v good geometry 0 q m d d1
            (tape_header-StepsOver tape rec force bad v good geometry now last d dumps on1)
            (On-Keeps tape d d1 k1 on1)
            (StepsOver-Comes tape rec force bad v good geometry 0 q m d1 d2
              (write_map-StepsOver tape rec force bad v good geometry u.map last ts_clri d1 dumps1
                (omega arith) refl refl few on2)
              on1
              (StepsOver-Comes tape rec force bad v good geometry 0 q m d2 d3
                (write_map-StepsOver tape rec force bad v good geometry u.map last ts_bits d2 dumps2
                  (omega arith) refl refl few on3)
                on2 comes)),
      )
