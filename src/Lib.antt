-- ===== src/Lib.antt =====
-- s5fs: the file-system writer, reader and mutation engine of the s5fs disk-image tools.
--
-- The program's core reads and writes images of the V7 / System V file system in three byte orders
-- and three block sizes. The front ends (the commands, the shell, the FUSE mount) go through
-- these files, and this development models them:
--
--   src/s5endian.c, src/pdp11fs.h  the byte orders, and the layout of the on-disk records
--   src/s5fs_core.c                the writer: superblock, free list, inodes, file maps, mkfs
--   src/fsread.c                   the reader: inodes, file maps, directories, paths
--   src/s5fs_rw.c                  the operations on files of a mounted image
--   src/cmd_fsck.c                 the checker and its repairs
--   src/device.c                   disk geometry, partitions, and the user's file of devices
--   src/cmd_vhd.c                  fixed-size VHD containers
--   src/cmd_dump.c                 a dump(8) tape from an image
--   src/cmd_restore.c              an image from a dump(8) tape
--   src/cmd_scavenge.c             remnants of deleted files in the free space
--
-- The modules:
--
--   Base         library names, Boolean tests, lists, the C library's text functions; Image: the image file and its blocks
--   Endian       s5_codec: put16, get16, put24, get24, put32, get32, and what they leave alone
--   Layout       the constants of pdp11fs.h, and the profile of a block size
--   Fields       a record on disk as a list of put calls, and when a field is read back
--   Writer       S5FS, s5fs_fail, s5fs_rdblk, s5fs_wtblk, s5fs_alloc, s5fs_bfree
--   FreeList     the free list as a stack: the invariant of a volume, and the allocator against it
--   Superblock   s5fs_finish and s5fs_mount
--   Inode        s5fs_writeinode, s5fs_bumplink, s5fs_ialloc and fsr_iget
--   BlockMap     s5fs_setblocks and s5fs_build_ind; fsr_lbn_route, fsr_ind_index and bmap;
--                BlockMap.Tree, BlockMap.Build and BlockMap.Levels follow a tree as it is built
--   Mkfs         s5fs_begin, s5fs_freelist, s5fs_root, s5fs_mkfs and the stages of them
--   Reader       fsr_open, fsr_readdir, fsr_namei, fsr_readfile, and the visited set of walks
--   Rw           rw_creat, rw_mkdir, rw_unlink, rw_rmdir, rw_rename, rw_chmod, rw_chown, rw_utimes,
--                rw_pwrite, rw_truncate and their helpers; Rw.Map has the block maps, Rw.Dir the
--                directory slots, Rw.Ops the names, Rw.Attr the attributes and bytes,
--                Rw.Copy rw_open, rw_put_fd and rw_copy
--   Fsck         fsck_run and clri: Fsck.Check counts the references to each block, Fsck.Walk walks
--                the free list, Fsck.Salvage rebuilds it, Fsck.Dirs and Fsck.Links have the
--                directories and link counts, Fsck.Run composes them
--   Device       the tables, load_user, device_find, device_partition and device_resolve_part
--   Vhd          the footer of a VHD container, and wrap, unwrap and info of cmd_vhd.c
--   Dump         cmd_dump: Dump.Record has the headers, their checksum and the framing of the tape,
--                Dump.Inodes the records of an inode, Dump.Run the whole tape; Dump.Flat, Dump.Parts
--                and Dump.Leaves follow a tape without framing as it grows
--   Restore      cmd_restore: Restore.Tape has the headers that are read, Restore.Blocks the map of
--                an inode, Restore.Run the two passes; Restore.OfDump has it on the output of Dump
--   Scavenge     cmd_scavenge: build_used, deleted_names, classify, carve and the scans
--   Examples     a concrete volume with a directory and a file
--
-- The state is the handle S5FS, here the record S5Fs, with the fields of the C structure and the
-- open file in place of its descriptor. An operation is a function from the handle to the handle,
-- or, where it can reach undefined behaviour (an index outside s_free), to an Option of a result
-- and a handle; `none` is the undefined behaviour. The error flag and its message are one field,
-- which keeps the first error. The writer and the reader of a mounted image have the same file
-- open, so the operations of Rw pass the writer's file to the reader.
--
-- Integers are natural numbers. A uint32_t keeps its wrap-around, written out as `u32`; a negative
-- int16_t or int32_t is its bit pattern. A buffer is a function from offsets to bytes, and a buffer
-- that the code leaves uninitialised holds an arbitrary function, the field `uninit`. A loop over a
-- range is recursion on the number of rounds left. Two loops need a bound of their own: next_clear
-- and round_up of Mkfs.FreeList run for at most `fn` rounds, because one of `fn` flags in a row is
-- clear and one of `fn` numbers in a row is a multiple of `fn`; write_blocks of Rw.Attr has
-- `size + 1` rounds, because each round but the last ends a block and so writes a byte or more. In
-- Fsck, walk_fuel is 51 turns for each data block and 51 more, because a turn takes an entry off a
-- cache of 50 at most or marks one more block; reach_fuel is the number of inodes and two, because
-- each nested call of mark_reached has marked one more inode. In Restore, tape_fuel is the number of
-- bytes of the tape and one, because each round reads a header or a block behind the last one.
--
-- Not modelled: the other commands, the archive formats and the FUSE layer, which use these
-- routines; failures of malloc, ftruncate and write, and the messages' text. A write that fails
-- sets the error flag in the code and cannot fail in the model; a read past the end of the file does
-- fail. Where cmd_fsck exits on a read error, the model ends with `exited` and does not say what the
-- image holds then. The arrays of s5fs_freelist have 500 entries: freelist is `none` for a longer
-- interleave, and for one of 0, which s5fs_begin never sets.
pub mod Base
pub mod Endian
pub mod Layout
pub mod Image
pub mod Writer
pub mod FreeList
pub mod Fields
pub mod Superblock
pub mod Inode
pub mod BlockMap
pub mod Mkfs
pub mod Reader
pub mod Rw
pub mod Fsck
pub mod Device
pub mod Vhd
pub mod Dump
pub mod Restore
pub mod Scavenge
pub mod Examples
