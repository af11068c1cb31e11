-- ===== src/Lib.antt =====
-- mini-os32, a 32-bit operating system: its kernel (kernel/kernel.c), the NVMe driver (kernel/nvme.c),
-- the C library of the programs that are built inside it (fs/lib), the shell (user/sh.c) and the
-- assembler that runs on it (user/as.c).
--
-- The kernel runs one program at a time, with up to eight threads. The program calls it by number; the
-- calls reach a flat file system on a RAM disk, of which a partition of an NVMe drive keeps a copy.
-- What a call reads of the program's memory is a parameter of its model, and what it changes there is
-- part of the result.
--
--   Base            shared types, Boolean tests, arrays, bytes of memory and machine words
--   Kernel.Layout   the constants of kernel/kernel.c; DIR_SECTORS is 64, as build.sh sets it
--   Kernel.Threads  the thread table: thread_create, thread_kill, thread_schedule, thread_exit_switch,
--                   and the timer's part of irq_handler;
--                   Kernel.Threads.Calls is SYS_TCREATE, SYS_TEXIT and SYS_SLEEPF
--   Kernel.Names    name_eq_ci and normalize_name
--   Kernel.UserMemory  user_range_ok, user_copy_str, SYS_SBRK, SYS_MAP_PHYS, SYS_DMA_ALLOC
--   Kernel.Disk     sectors of the RAM disk and of the drives, SYS_SYNC; Kernel.Disk.Store is
--                   store_scan and store_init
--   Kernel.Nvme     the NVMe driver: submit, rw_chunk, rw; Kernel.Nvme.Confined puts it under the disk
--   Kernel.Fs       the directory, fs_find, the allocator, fs_read, fs_write; Kernel.Fs.Calls has the
--                   calls SYS_LIST, SYS_LOAD, SYS_SAVE, SYS_RENAME and SYS_DELETE
--   Kernel.Files    descriptors and their sector cache: SYS_OPEN, SYS_FREAD, SYS_FWRITE, SYS_CLOSE,
--                   SYS_SEEK
--   Kernel.Console  the grid of characters, the text page, the cursor and the scrollback
--   Kernel.Keyboard the ring of keys and the scancodes; Kernel.Keyboard.Line is readline and SYS_READ
--   Kernel.Paging   alloc_page_phys, map_page, map_phys_at, and the processor's walk over the tables
--   Kernel.Division div_u64_u32
--   Kernel.Process  the working directory, SYS_EXEC, SYS_EXIT, SYS_WRITE
--   Libc.Path       fs/lib/path.c
--   Libc.Strings    fs/lib/string.c
--   Libc.Heap       malloc, free, calloc and realloc of fs/lib/stdlib.c
--   Libc.Stdio      the parsers and printers of numbers and printf of fs/lib/stdio.c
--   Shell.Paths     build_path and ls_visible of user/sh.c
--   Shell.Editor    cmd_edit of user/sh.c: the cursor and the keys
--   Assembler       user/as.c: the state, emit8 and cur_addr; below it Lexer (symbols, read_name),
--                   Expressions, Operands, Encoding (emit_modrm and the tables), Instructions and
--                   Mnemonics (asm_insn), Directives, Lines (asm_line), Passes (run_pass, build_elf,
--                   main). Related compares two runs of it, Agree and Layout the sizing pass with the
--                   emitting one, for the sources that Layout.Sources describes, Kept says what every
--                   line keeps, Aligned is about `.align`, and Modrm reads the operands of the code as
--                   the processor does
--
-- State is a record and an operation a function from the state before to the result and the state
-- after. A loop is a function on the list or the number of rounds that it walks; where the code loops
-- to a condition, the function has fuel. `path_loop` has the length of the name, and every round
-- passes a character; the loops of SYS_FREAD and SYS_FWRITE have the length of the transfer, and every
-- round moves a byte at least. `vformat_ap` has the length of the format, and every round passes a
-- character; the loop of the driver has the number of blocks, and every round moves a block; the digits
-- of a number have the 12 entries of the code's buffer, and 32 bits have at most 10 digits. The loops of
-- the assembler over a line have 256 rounds, the size of the line's buffer, and every round passes a
-- character; a pass has as many rounds as the source has characters, and every line takes one at least.
-- The loop of `.align` has as many rounds as the alignment, which the loop of the source exceeds only
-- where a full buffer takes no byte: there the source does not end, and the model counts an error in
-- each round.
--
-- The assembler is a state monad, `Run`. Its cursor `lp` is the rest of the line's buffer, with the NUL
-- and the bytes that earlier lines left behind it; behind the buffer's end the model reads 0. The
-- buffer is not initialized by the code: what each of the three passes finds in it is an argument of
-- its own. Messages are counted, and the lengths of text and data do not wrap.
--
-- Numbers of 32 and 64 bits are natural numbers with the wrap written out. Memory is a function from
-- addresses to bytes. Threads are named by their index in the table.
--
-- The commands of the ATA and NVMe drives are parameters, fields of `Drives`; where a theorem depends on
-- them it says that a write changes only the blocks it names. The driver's model fills the NVMe ones;
-- the controller behind it is a parameter, of which a theorem says what the NVMe specification says of
-- a read and a write (`Obeys`), or that it completes every command (`Prompt`). The formatters of floats
-- and the strings at an address are parameters of the formatter.
--
-- Not modelled: the start of paging, descriptors, other interrupts and ports, graphics, the start of
-- the NVMe driver, floating point, scanf, the shell's commands on files, the compiler, and what the
-- assembler asks of the user (names of files, their paths, reading and saving them).
pub mod Assembler
pub mod Base
pub mod Kernel
pub mod Libc
pub mod Shell
