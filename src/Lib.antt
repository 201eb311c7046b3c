-- ===== src/Lib.antt =====
-- FLOPNIX, a small operating system for 386 machines that boots from a floppy: a verification
-- library for the parts of its kernel that keep data in order.
--
-- src/heap.c, the kernel heap (Heap). `Heap` is the freelist and the six bounds of the two areas;
--   the C list of headers is a list of blocks, and each loop over it a recursive function
--   (Heap/Blocks). `kmalloc`, `kfree`, `heap_grow`, `heap_trim`, `heap_contains` and the queries
--   are `kmalloc`, `kfree`, `grow`, `trim`, `contains`, `heap_free` and so on. What drops caches
--   when memory is short (`fs_cache_clear`, `win_image_trim`) is a parameter of `kmalloc`.
--   Heap/Chain says how blocks tile the areas, Heap/Grow has the invariant `IsHeap`, Heap/Live and
--   Heap/Last follow the live blocks, Heap/Alloc and Heap/Free are about `kmalloc` and `kfree`.
--   Heap/Realloc is `krealloc`. Heap/Layout is src/memlayout.inc, which chooses the areas at boot.
--   Heap/Buffers is the table of
--   named buffers (`mem_track`, `mem_untrack`), from which `kfree` takes the pointer out.
-- src/fs.c, the floppy file system FLOPFS (Fs). A table of entries, each with one run of sectors.
--   Fs/Entry has the entries and `find`, Fs/Check is `fs_table_valid` of src/fscheck.inc, Fs/Alloc
--   is `alloc`, Fs/Bad is the list of bad sectors of src/fsbad.inc, which `alloc` goes around,
--   Fs/Plan is `fs_plan` of src/fsplan.inc, Fs/Move is `fsd_move` of src/fsdefrag.inc, Fs/Retry is
--   `dfg_rd` and `dfg_wr`, and Fs/Defrag is `fs_defrag_locked`, which plans, moves and writes the
--   table. In these the floppy drive is an argument: a `Device` (Fs/Device), whose reads and writes
--   may fail at any sector. Fs/Path has the names of src/fspath.inc. Fs/Volume has the operations on
--   a mounted table (`fs_delete_locked`, `fs_touch_locked`, `fs_rename_locked`, `fs_mkdir_locked`
--   and the counts), Fs/Dirs is `fs_rename_dir_locked`, Fs/Marks has `fs_bad_locked`; what mounting
--   reads and a commit writes is the interface `Medium`. Fs/Write is `fs_write_locked` with its
--   eight passes, Fs/Read `fs_read_locked` and Fs/Probe `fs_probe`; their drive (Fs/Drive)
--   transfers runs of sectors, and its laws are the record `IsDrive`.
-- src/util.c (Util): the strings that the others compare (Util/Strings), base64 (Util/Base64),
--   `ksort` (Util/Sort), the log and trace buffers (Util/Log), numbers in text (Util/Number), `kfmt`
--   (Util/Format), and what is printed with it: sizes (Util/Sizes), joined paths (Util/Paths) and
--   dates (Util/Dates). Util/Streams has the memory streams, Util/Address
--   `net_parse_ip`, Util/Hash `crc32` and `hash_fnv`.
-- src/thread.c and src/sched.inc (Threads): the choice of the next thread (Threads/Sched), and the
--   mutexes (Threads/Mutex), each call one step on the state of all locks. Threads/Switch is the
--   thread table: `thread_create`, `reschedule` and its callers, and the snapshots of a fault; its
--   steps from boot are the relation `Step`.
-- src/config.c with src/prefs.inc (Config): the named settings of the applications, `config_get` and
--   `config_set`; what `config_save` answers for a store is an argument. Config/Fixed has
--   the fixed settings: `config_load`, and `cfg_sanitize` of src/cfgsan.inc.
-- kexts/calc.c, the calculator (Calc): its 64-bit arithmetic (Calc/Word), and `press`, which is a key.
-- src/shpath.h (Shell): `sh_norm_path`, `sh_spec_split` and `sh_spec_make`.
-- src/dynbuf.h with src/buffer_core.inc (DynBuf): `db_reserve` and `db_trim`; `krealloc` is an
--   argument.
-- kexts/reversi.c (Reversi): the board with `flips` and `apply`, the machine's `ai_move`, `run`, and
--   `rv_mouse`, which is a press of the mouse; what it draws is left out.
-- Base has tests on numbers, lists and increasing lists.
--
-- Numbers are natural numbers. A sum of C that can wrap, or a value that is cut to 16 bits, has
-- its `% 2 ^ 32` or `% 2 ^ 16` written out. `alloc` and the inner loop of `fs_plan` run on fuel:
-- the start grows in each round, so the sectors of the volume, or the distance to the file, are
-- enough. `numstr` runs on fuel too: a round divides the number by its base. The loop of `ms_grow`
-- doubles a capacity, and has as many rounds as the number that it looks for. In Reversi a walk over
-- discs has eight steps, and `run` two rounds for each of the 64 squares and two more.
--
-- Not modelled: drivers, interrupts, paging and the loader of extensions, which are bound to the
-- machine; the window manager and what the applications draw; src/vendor, which is another
-- project's. The poison fill of freed memory is a debug option that writes only unused bytes.
pub mod Base
pub mod Calc
pub mod Config
pub mod DynBuf
pub mod Fs
pub mod Heap
pub mod Reversi
pub mod Shell
pub mod Threads
pub mod Util
