-- ===== src/Lib.antt =====
-- MxOS: the heap, the address spaces, the tasks, the loader, the drivers, the file system, the system
-- calls and the shell of the kernel.
--
-- The program is a 32-bit kernel. kernel/mem.c is the heap, from which kernel/sched.c takes the stacks
-- of its tasks; kernel/paging.c gives each user task an address space; kernel/pit.c counts the ticks
-- on which the scheduler runs; kernel/keyboard.c queues key presses for kernel/shell.c, whose commands
-- work on the files of drivers/fs.c, on the tasks, and on the programs that kernel/exec.c loads with
-- kernel/elf.c; drivers/fs.c keeps files on the sectors of drivers/ata.c; kernel/syscall.c lets the
-- user tasks print, sleep, exit and send one another messages.
--
--   Mem        kernel/mem.c. The headers of the blocks are a function of their address. A list of blocks
--              with sizes stands for the chain of headers (Mem/Blocks, Mem/Chain).
--   Pit        kernel/pit.c. Writes to ports are values.
--   Paging     kernel/paging.c. The linker's addresses and those of the tables are the record Layout;
--              control registers are fields of the state.
--   Ipc        the mailbox in the Task of kernel/sched.h, and the parts of ipc_send and ipc_recv that
--              work on it.
--   Task       the task table of kernel/sched.c and the state that its operations share.
--   Sched      find_next_task, schedule, sleeping, priorities, init_multitasking, ipc_send, ipc_recv,
--              sched_dump_tasks.
--   Lifecycle  create_task, create_user_task_argv, task_exit_current, task_exit_and_reschedule and
--              task_kill. The words of memory that stacks use are a function of the address.
--   Elf        kernel/elf.c. The file and the memory are functions from offsets and addresses to bytes.
--   Screen     kernel/screen.c.
--   Keyboard   kernel/keyboard.c.
--   Fs         drivers/fs.c, over a disk that is a parameter: two functions on sectors.
--   Ata        drivers/ata.c, over ports that are a parameter. ata_disk is the disk that it gives to Fs.
--              Ata/Drive is a device of our own that always works: with it the driver meets the laws of a
--              disk without errors (Reliable in Fs/Sectors) on which theorems about Fs rest.
--   Gdt        kernel/gdt.c.
--   Idt        kernel/interrupts.c, and the gates that kernel/exceptions.c, kernel/syscall.c and
--              main_entry of kernel/init.c set.
--   Exec       kernel/exec.c. Memory gives the byte at each address.
--   Shell      kernel/shell.c. What kprint_char is given since the last prompt is a field; commands are
--              values that Shell/Command reads and Shell/Run runs.
--   Syscall    kernel/syscall.c. The registers on the stack are a record.
--   Exceptions the stubs and the report of kernel/exceptions.c.
--   User       userprogs/libc.c, userprogs/hello_user.c, userprogs/echo_user.c, and the task of
--              kernel/usermode.c. They reach the kernel through Syscall; what other tasks do while one
--              sleeps is a parameter.
--   Boot       main_entry of kernel/init.c.
--   Prelude    shared helpers: tests, arrays as lists, 32-bit arithmetic, C's int.
--
-- A uint32_t is a natural number, and its wrap-around is written out (add32, sub32, mul32). An index
-- that is -1 in the code is none here, and a result that is 0 for failure is none or false. An array
-- is a list, a buffer of the shell a function; the code never reads or writes one out of bounds where a
-- theorem is stated.
--
-- Loops are structural. The loops over the heap's chain have 2^32 rounds at most: each block takes at
-- least 12 bytes, so no chain in 32-bit addresses is longer. The loops of drivers/fs.c have as many
-- rounds as bytes remain, and each round takes at least one byte. The waits of drivers/ata.c have the
-- million rounds of the code. The loop of shell_poll has 255 rounds, the most keys that the queue of
-- kernel/keyboard.c holds. A string that a system call prints ends within 2^32 bytes.
--
-- Not modelled: assembly and port I/O (boot.asm, kernel/cpu.c, kernel/serial.c, the naked
-- handlers), task_clock of kernel.c, and most messages that the modelled functions print. Interrupts do not occur within an
-- operation here.
pub mod Ata
pub mod Boot
pub mod Elf
pub mod Exceptions
pub mod Exec
pub mod Fs
pub mod Gdt
pub mod Idt
pub mod Ipc
pub mod Keyboard
pub mod Lifecycle
pub mod Mem
pub mod Paging
pub mod Pit
pub mod Prelude
pub mod Sched
pub mod Screen
pub mod Shell
pub mod Syscall
pub mod Task
pub mod User
