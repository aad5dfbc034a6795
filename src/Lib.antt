-- ===== src/Lib.antt =====
-- The file system of ase++ (src/) and what runs on it: a disk driver, a table of volumes, blocs addressed
-- by number, a superbloc with a list of free blocs, inodes that map the blocs of a file, open files,
-- directories, the shell with its commands, and the contexts that the shell runs in.
--
-- The parts, from the disk up. Paths are from the repository's root, without the leading directory of
-- a checkout.
--   Hardware        the ports and interrupts of lib/libhardware.a through include/hardware.h, a record
--                   `Hardware` with the laws `Ata`. The library is binary: it is a parameter.
--   Drive           src/drive.c over that record. `none` is a failed assertion. Drive/Seek is about the
--                   address handed to the disk, Drive/Refine relates the driver to Storage.
--   Storage         the disk as the layers above the driver take it, by assumption: sectors of 512 bytes by
--                   cylinder and sector, and the transfer buffer, whose old bytes pad a short write. A
--                   write stores one sector; the driver asks for as many as the buffer has bytes, and what
--                   the library does then is not documented. A disk has no end here, and addresses are not
--                   cut to 16 bits as src/drive.c cuts them.
--   System          the globals of src/mbr.c and src/superbloc.c with the storage as one record
--                   `World`; a function of the library is a command `Cmd`, from a state to a result and a
--                   state, or to a `Stop` (a failed assertion, exit, a wait that never ends, an access
--                   that C leaves undefined) and the state in which it happens.
--   Mutex           `mbr_mutex`, the semaphore of src/sem.c, as one context alone meets it.
--   Mbr             src/mbr.c: `read_mbr`, `write_mbr`, and the reading and writing of blocs. Mbr/Layout is
--                   about the table on the disk, Mbr/Address about the place of a bloc, Mbr/Blocs about the
--                   result of a transfer, Mbr/Frame about what a write does to the blocs of a volume.
--   Volumes         `create_volume` and `delete_volume` of src/mbr.c.
--   Superbloc       src/superbloc.c: `load_super`, `save_super`, `new_bloc`, `free_bloc`. Superbloc/FreeList
--                   says what a well-formed free list is (`IsFree`: a list of bloc numbers that the links on
--                   the disk spell, which the superbloc counts); Superbloc/Alloc, Superbloc/Kept,
--                   Superbloc/Root and Superbloc/Release are about the operations on it.
--   Inode           src/inode.c: the codec, `create_inode`, `delete_inode`, `vbloc_of_fbloc`.
--   Format          `init_super` of src/superbloc.c with `create_ifile` of src/ifile.c, which it calls.
--   Ifile           src/ifile.c: open files with a buffer of one bloc. Ifile/Write is about writing and
--                   flushing, Ifile/Seek about moving the cursor, Ifile/RoundTrip and Ifile/Buffers about
--                   reading what was written, a byte and more, Ifile/Delete about `delete_ifile`.
--   Commons         `canonical_path` of src/commons.c. Commons/Canonical relates it to a walk along names,
--                   Commons/Again is about a path made canonical twice.
--   Directory       src/dir.c: entries, the loops over them, and the lookup of paths. Directory/Progress is
--                   about the cursor of an open file, Directory/Loops about the ends of the loops,
--                   Directory/Lookup relates a path's lookup to its tokens, Directory/Reading is about
--                   reading inside one bloc, Directory/Finding about the search of its entries, and
--                   Directory/Names about a directory of one bloc as a list of names. Directory/Splicing
--                   is about bytes written over a buffer, Directory/Adding about the entry made,
--                   Directory/Writing about writing it, Directory/Added and Directory/Closing about the
--                   directory that is left, Directory/Insert and Directory/Erase about `add_entry` and
--                   `del_entry`, and Directory/Kept about a directory that stays as it is.
--   Files           src/file.c, the interface by paths; Files/Root is about files of the root, and
--                   Files/Created about their creation.
--   Mount           src/mount.c over the results of the hardware's start and of the environment;
--                   Mount/Volume is about what a mounting finds.
--   Manager         src/vm.c, the dialogue on the volume table; Manager/Dialogue is about its whole course.
--   Shell           the command lines of src/shell.c with the table of src/builtins.c. Shell/Lines is about
--                   taking a line apart, Shell/Complete about the completion of commands.
--   Completion      the completion of file names of src/shell.c; Completion/Names is about names without
--                   a slash.
--   FileTools       the programs src/if_cfile.c, src/if_dfile.c, src/if_pfile.c and src/if_nfile.c;
--                   FileTools/Refused is about a name that is taken.
--   Builtins        the commands on files of src/builtins.c. Builtins/Directories is about the current
--                   directory, Builtins/Copies about the loops over a file, Builtins/Computed
--                   about the text that `compute` writes.
--   Scheduler       src/ctx.c, src/sem.c and the command `ps` over a memory of contexts by address.
--                   Scheduler/Ring says what a ring is (`IsRing`) and is about creation, Scheduler/Ends
--                   about the end of a context, Scheduler/Order about a ring seen from another context,
--                   Scheduler/Yield and Scheduler/Turns about which context runs, Scheduler/Rounds about
--                   yields in turn, Scheduler/Blocked about the contexts that wait for a semaphore,
--                   Scheduler/Listed about the listing of a ring.
--   Semtester       src/semtester.c: its producers and consumers as a step relation over the contexts and
--                   semaphores of Scheduler. Semtester/Turning is about what a yield leaves of them,
--                   Semtester/Counting about the tokens that contexts hold, Semtester/Moves about a call of
--                   `sem_down` or `sem_up`, Semtester/Settled about the contexts that wait,
--                   Semtester/Tokens and Semtester/Invariant about the counts that all steps keep,
--                   Semtester/Safety about the buffer and the mutex in the runs in which the timer does not
--                   tick inside `sem_down`, `sem_up` and `yield`, Semtester/Lost about a token that a wake-up
--                   loses, Semtester/Race about a tick inside `sem_down`.
--   DiskTools       the programs src/mkvol.c, src/mknfs.c, src/dvol.c and src/dfs.c, with `init_mbr` and
--                   `list_volumes` of src/mbr.c. DiskTools/Listing is about the table that is printed,
--                   DiskTools/Making about a volume made and then listed, DiskTools/Asking about the
--                   volume that is asked for and the file system made there.
--   SectorTools     the programs src/dmps.c, src/frmt.c and src/mkhd.c over Drive; SectorTools/Shown is about
--                   the sectors that they dump.
--   Tracktime       the kernel module kernel_module/tracktime.c over a record `Kernel` of the functions that
--                   it calls; Tracktime/Distinct is about the array of tracked processes,
--                   Tracktime/Shown about two files that are open at once.
--   Prelude, Words  lists with native indices, and bytes and 32-bit little-endian words.
--   Tests           a concrete controller, disk and file system at which the theorems are applied.
--
-- System/Results says what is known of a command's result, where it has one. A value that C leaves
-- uninitialised on the stack is an argument, `raw`, or ends the run as `undefined`.
--
-- Numbers are natural numbers; `unsigned` sums carry their wrap-around (`add32`, `dec32`). Structures
-- are laid out as 32-bit words without padding, as the fields of the sources need none. Loops over a
-- count are recursion on it. The loops over a directory or a file take `rounds` of fuel, one for each
-- byte from the cursor to the end and one more; those along the ring of contexts take fuel as an
-- argument; a path is walked with a round for each character and one more. An `int` or a `long` is a word
-- in two's complement; Tracktime converts one into the other.
--
-- Not modelled: what is printed, but for the commands `cat`, `help`, `ls` and `ps`, the table of volumes
-- and the sectors that dmps and frmt dump; stacks, registers and interrupts, so that a switch of
-- contexts is its choice of the next one, but for the ticks of Semtester, between the statements
-- and between the test and the change of a counter in `sem_down`; the
-- start of the hardware library and of the cores; the command `clock`, which prints for ever;
-- src/current.c, whose work src/mount.c does again; `format_vol`, since the sources do not say which
-- sectors one format command reaches; the test programs of the cores.
pub mod Prelude
pub mod Words
pub mod Storage
pub mod Hardware
pub mod Drive
pub mod System
pub mod Mutex
pub mod Mbr
pub mod Volumes
pub mod Superbloc
pub mod Inode
pub mod Format
pub mod Ifile
pub mod Commons
pub mod Tracktime
pub mod Directory
pub mod Files
pub mod Shell
pub mod Builtins
pub mod Mount
pub mod Manager
pub mod FileTools
pub mod Completion
pub mod Scheduler
pub mod DiskTools
pub mod SectorTools
mod Tests
pub mod Semtester
