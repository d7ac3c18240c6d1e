-- ===== src/Lib.antt =====
-- A verification of the C programs of the operating systems labs: the shell mybash (lab1), the
-- semaphores added to the xv6 kernel (lab2), the priorities added to its scheduler (lab3), and the
-- FAT32 file system served through FUSE (lab4/esqueleto).
--
-- Common       lists, Boolean tests, bit fields, integers, and `Run`, the outcome of C code: a result,
--              a fault (undefined behaviour or a failed assertion) or fuel that ran out.
-- Fat.Os       what the file system asks of the operating system, a parameter.
-- Fat.Table    lab4/esqueleto/fat_table.c: `get_next_cluster` is fat_table_get_next_cluster, and so on.
--              The mapped table is a function from the index to the word, `Chain` says which clusters
--              a file has, `Mount` is a table with the world outside and errno.
-- Fat.Io       full_pread and full_pwrite of lab4/esqueleto/fat_util.c.
-- Fat.Time     fill_time and time_to_unix_time of the same file.
-- Fat.Dentry   directory entries: fill_dentry_time_now, set_first_cluster, file_start_cluster and
--              write_dir_entry of lab4/esqueleto/fat_file.c.
-- Fat.File     fat_file_pread, fat_file_pwrite, fat_file_truncate and fat_file_remove of the same
--              file; they seek in the table, move bytes by Fat.Io and write the entry by Fat.Dentry.
-- Fat.Disk     what those loops place on a volume that keeps its bytes, and find there.
-- Fat.Volume   lab4/esqueleto/fat_volume.c: the boot sector and the mapping of the table.
-- Fat.Tree     the search tree of lab4/esqueleto/hierarchy_tree.c, its comparisons a parameter, with
--              deletion in Fat.Tree.Delete.
-- Fat.Hierarchy  the links of the same nodes, parent, siblings and children: a store from addresses
--              to nodes, where a freed node is a hole and to follow it is a fault.
-- Fat.PathOrder  the comparison of files by their paths, which fills the tree's interface.
-- Fat.FsTree   the tree of files over it, lab4/esqueleto/fat_fs_tree.c.
-- Fat.Filename lab4/esqueleto/fat_filename_util.c: valid names, the name that an entry spells, and
--              in Fat.Filename.Split the fields that a path spells.
-- Fat.Directory  the children of a directory, from its clusters of entries (fat_file.c).
-- Fat.Libc     what the files and the handlers ask of the C library, a parameter.
-- Fat.Handle   the rest of fat_file.c: how a file is made, its attributes, times and hiding.
-- Fat.Fuse     the handlers of lab4/esqueleto/fat_fuse_ops.c: a `FatVolume` is a mount, the search
--              tree and the store of nodes, on which each handler is a function that returns what
--              the C one returns. Lookup has getattr, open, opendir and release, Change mkdir, mknod,
--              rmdir, unlink, utime and truncate, Io read and write, Readdir readdir with the
--              reading of children, and Log the log of big_brother.h.
-- Fat.Mount    fat_volume_mount of fat_volume.c, from the boot sector to the root of the tree.
-- Kernel.Sem   lab2/kernel/sem.c, with sleep and wakeup of lab2/kernel/proc.c.
-- Kernel.PingPong  lab2/user/pingpong.c: two processes on the machine of Kernel.Sem.
-- Kernel.Priority  the priority and the counters of lab3/kernel/proc.c.
-- Shell.Glib   what lab1/command.c uses of GLib, a record of operations and laws.
-- Shell.Command    lab1/command.c and lab1/strextra.c.
-- Shell.Parsing    lab1/parsing.c; the lexer of lab1/parser.h is a record of operations and laws.
-- Shell.Builtin    lab1/builtin.c.
-- Shell.Execute    lab1/execute.c: the calls of the shell and of its processes are values, and what
--              the system answers is a parameter.
-- Shell.Main   the loop of lab1/mybash.c, which reads a line, runs it and stops at the end of the
--              input; the theorems give it a round for each line.
--
-- Numbers are natural numbers, or integers where an `int` is signed and can fall below 0; where C
-- computes at a width the wrap-around is written out, and in the kernel an `int` that overflows is a
-- fault. Loops are on fuel where the code bounds them by nothing else: the freeing loop takes one
-- round for each cluster of the chain, the read and write loops at least one byte each round, the
-- parser consumes input in each round, and the texts take a round for each argument and command. The
-- theorems ask for more fuel than that.
--
-- Interleavings: the operations on a semaphore run under its lock, so each is one step of
-- `Kernel.Sem.Wakeup.Step`, and `sem_down` is one step for each time round its loop. The tests of
-- `sem_open` are not under the lock: its store is a step of its own as well. The scheduler's
-- steps are those of `Kernel.Priority.Steps.Step`.
--
-- In the loops over siblings, children and ancestors a round visits one node, and the theorems ask
-- for more fuel than there are nodes to visit.
--
-- Not modelled: the text of the prompt (lab1/mybash.c), unmounting, the command
-- line of the file system (fat_fuse.c), the rest of xv6, which is a copy of the teaching kernel,
-- memory management but for the nodes that a deletion frees, and what is printed for debugging.
pub mod Common
pub mod Fat
pub mod Kernel
pub mod Shell
