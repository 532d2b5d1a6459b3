-- ===== src/Lib.antt =====
-- A model of the kernel of xhopin, with the theorems about it.
--
-- The program is a small kernel for a PIC32 processor. It loads programs for a virtual machine, runs
-- each in a task of its own, switches between the tasks on a timer, and serves the machines' system
-- calls. The files here and the code they model:
-- - Word: 32-bit arithmetic and byte buffers, as the C code uses them.
-- - Vm (kernel/vm/vm_types.h, vm_core.c, opcodes.h): the machine's data, its instructions (Opcode),
--   one step and the loop (Step), well-formedness (Invariant), accesses (Safety, Escape).
-- - Alloc (kernel/memory/mem_alloc.c): the heap's bitmap, the search for free units, blocks.
-- - Pool (kernel/memory/mem_pool.c): pools of equal objects.
-- - Store, Kernel: objects by their address, and the kernel's state over an allocator, which the
--   other parts take as the parameter `Allocator`. Alloc is the kernel's own.
-- - Life (kernel/vm/vm_core.c): vm_create, vm_ref_inc, vm_ref_dec, vm_destroy.
-- - Event (kernel/event/event.c): handlers, the linked queue (Links, Queue), the turns of its dispatcher
--   (Rounds, Fifo).
-- - Sched (kernel/scheduler/scheduler.c): the circular ready list and the switch of tasks; the creation
--   of tasks (Create) and their start with kernel/event/event.c's (Boot), their end by
--   kernel/context/task_exit.c (Current) or by id (Unlink, Remove), the accounts and the clock (Cycles,
--   Clock).
-- - Loader (kernel/loader/app_loader.c): the checks of a binary, and the start of its task.
-- - Device (kernel/device/kdevice.c): the table of devices.
-- - RamDisk (drivers/storage/ram/storage_ram.c), Ramfs (kernel/fs/ramfs/ramfs.c): the blocks of the
--   RAM disk, what a copy of one leaves (RamDisk.Copy), and the first file system over them.
-- - FileSystem (kernel/fs/fs.h, fs.c): the interface of a file system, and the calls through it.
-- - Ramfs2 (kernel/fs/ramfs2/ramfs2.c): the second file system, its table of operations (Table), who owns
--   its blocks (Owned, Reached), and what they hold (Stored, ReadBack).
-- - Mount (kernel/fs/mount.c): the table of mounts.
-- - Storage (drivers/storage/storage.c): the table of storage devices, and the RAM disk's entry.
-- - Serial (arch/arch_usart.c, arch/mips/impl/harmony/usart_impl.c): the serial lines, over the vendor's
--   driver, which is a parameter.
-- - Console (kernel/device/console/console.c, usart/usart_console.c): the active console, and the one on
--   a serial line.
-- - Systick (arch/mips/impl/pic32mx_systick_impl.c): the timer of the tick, and when its interrupts
--   come (Period). Tick (kernel/timer, arch/arch_core_timer.c, arch/mips/impl/harmony/core_timer_impl.c): the start of the tick over it.
-- - Bus (arch/arch_bus.h, arch_bus_i2c.c, arch_bus_spi.c and arch/mips/impl/harmony/bus_i2c_impl.c,
--   bus_spi_impl.c): the two buses, over the vendor's drivers, which are parameters.
-- - Chip (arch/arch.h, arch/mips/pic32mx470f512h.h, pic32mz2048efm144.h): the constants of the two
--   processors, and their heaps and RAM disks (Memory). Cpu (arch/mips/impl/pic32mx_cpu.c): the registers
--   that a new task starts with.
-- - Services (kernel/vm/kernel_services.c, kernel_intent_dispatcher.c): the services, the dispatcher of
--   system calls (Dispatch), what they leave of the caller (Ram, Answers), the start of the storage
--   (Start), and a program from its binary to its end (Program).
-- - Asm (asm/vm_asm.c): the encoding of a statement. Text has the functions of the C library that the
--   assembler uses on strings; Operand and Line read an operand and a line; Passes has the two passes and
--   the file. First, Second and Labels are about the passes, Ready, Layout and Accepted about the file in
--   the loader, Fields, Immediate and Registers about what the machine decodes.
-- - Converter (asm/bin2c.c): the C text of a binary.
-- - Tests: the theorems at concrete values, and runs of the code.
--
-- An operation keeps its name. It takes the state and returns the new one; a C access outside the
-- objects that the code names, which has no meaning in C, is the outcome `wild` of Base/Outcome.
-- Loops over an array are recursions on the number of rounds left, so that they end as in C. The
-- walks round the ready list and the interpreter's loop need not end in C: they take a number of
-- rounds, and are `spin` when it is used up. The theorems that say that such a walk has a result
-- name the number of rounds that is enough.
--
-- `NUM_UNITS`, the sizes of the RAM disk and the number of storage devices depend on the processor and
-- are parameters, which Chip gives, and so is what the core timer shows. Vm.Step takes the dispatcher of
-- system calls as a parameter, since it lies behind vm_core.c in the program; Services.Dispatch is the
-- kernel's own. Interrupts are not modelled: each operation is one step, as its critical sections make
-- it. The calling machine stands apart from the kernel's other machines during a system call, and a
-- program that is loaded is a copy of the bytes in its caller's RAM. The assembler runs on a host that
-- is little-endian and whose unsigned long has 64 bits; its files are lists of bytes, of which those
-- above 127 are neither spaces nor digits. Not modelled: files that cannot be opened, the messages that
-- the assembler prints, the switches of the compiler (kconfig.h, ktoolchain.h, toolchain), and the
-- assembly that saves and restores registers and serves interrupts (the .S files of arch/mips).
pub mod Base
pub mod Word
pub mod Vm
pub mod Alloc
pub mod Store
pub mod Kernel
pub mod Life
pub mod Event
pub mod Sched
pub mod Loader
pub mod Pool
pub mod Device
pub mod RamDisk
pub mod Ramfs
pub mod Asm
pub mod Mount
pub mod Systick
pub mod Serial
pub mod Bus
pub mod Chip
pub mod Cpu
pub mod Converter
pub mod Tick
pub mod Storage
pub mod FileSystem
pub mod Ramfs2
pub mod Console
pub mod Services
pub mod Tests
