-- ===== src/Lib.antt =====
-- Queen OS: the memory areas of a process, processes and their calls, the fair scheduler, and smaller
-- parts of the kernel.
--
-- The program is a kernel. A process has a set of memory areas over one page table; system calls
-- check user pointers against the areas, map and unmap them, and a page fault is served by the
-- handler of the area it falls into. Tasks run on one executor per processor, which picks the next
-- task by virtual time; a timer wakes tasks at their deadlines. Processes and threads stand in two
-- tables, which fork, clone, exit and wait change; a process has descriptors of open files, which are
-- handles on shared descriptions, and a working directory. Starting a program maps the segments of
-- its ELF file and lays out its first stack. Signals and events connect processes. Interrupts go
-- from the controller to the drivers that are registered for them.
--
-- Where things are modelled (paths from the repository's root):
--   Memory.Page      kernel/src/memory/paging.rs: Page, PageRange and its iterator; rounding
--   Memory.Entry     kernel/src/arch/aarch64/paging.rs: impl Entry for PageEntry; MemoryAttr::apply
--   Memory.Table     kernel/src/arch/aarch64/paging.rs: PageTableImpl; kernel/src/memory/mod.rs:
--                    GlobalFrameAlloc. The mapper of the aarch64 crate and the frame allocator are
--                    parameters, with laws
--   Memory.Handler   kernel/src/memory/handler: Linear, ByFrame, Delay and File
--   Memory.Area      kernel/src/memory/memory_set.rs: MemoryArea
--   Memory.Set       kernel/src/memory/memory_set.rs: MemorySet, one function per operation
--   Task.VRuntime    kernel/src/task/executor/mod.rs: VRuntime and the order of ReadyTask
--   Task.Load        the same file: LoadWeight, nice_to_weight, calc_delta, sched_period
--   Task.RunQueue    the same file: SchedTask, RunQueue, Executor. The queue of the crate
--                    priority-queue is a parameter, with laws
--   Task.Timer       kernel/src/task/timer.rs: Timer
--   Process.World    kernel/src/process/mod.rs and thread.rs: Process, Thread, the tables PROCESSES
--                    and THREADS; fork, new_clone, new_user, exit. A reference to a process is a
--                    number; whether a weak one is still alive is a parameter
--   Process.Calls    kernel/src/syscall/process.rs: sys_fork, sys_clone, sys_wait4, sys_exit,
--                    sys_exit_group and the calls on process groups
--   Process.Steps    the calls that change the tables, one step each, in any order
--   Process.Files    kernel/src/process/mod.rs and syscall/fs.rs: the descriptors of a process
--   Process.Path     kernel/src/syscall/fs.rs: sys_chdir and split_path; a path is its bytes
--   Process.Stack    kernel/src/process/abi.rs: ProcInitInfo and StackWriter over a memory of bytes;
--                    kernel/src/utils.rs: C strings
--   Process.Elf      kernel/src/process/structs.rs: the memory of a program. The headers are those
--                    that the crate xmas_elf reads
--   Process.UserMemory  kernel/src/process/thread.rs: new_user_vm, over what is read of ELF files, with
--                    get_interpreter of structs.rs
--   Process.Directory  kernel/src/syscall/fs.rs: sys_open_at and the calls on directories and links, over
--                    the file systems of the crate queen_fs, a parameter with laws
--   Process.Context  kernel/src/arch/aarch64/signal.rs: the registers of a signal frame
--   Process.Deliver  kernel/src/signal/mod.rs: handle_signal from the choice of a signal on
--   Process.Tty      kernel/src/fs/devfs/tty.rs: the input of the terminal
--   Kernel.Trap      kernel/src/arch/aarch64/interrupt/syndrome.rs and consts.rs
--   Kernel.EventBus  kernel/src/sync/event_bus.rs
--   Kernel.Signal    kernel/src/signal/action.rs and mod.rs: Sigset, send_signal, and how
--                    handle_signal picks a signal
--   Kernel.Spin      kernel/src/sync/spin.rs: MutexNoIrq, with the mask of interrupts of
--                    kernel/src/arch/aarch64/interrupt/mod.rs
--   Kernel.FileHandle  kernel/src/fs/file.rs: handles over an inode, which is a parameter
--   Driver.Gic       kernel/src/drivers/irq/gicv2: the distributor and the processor interface, whose
--                    hardware is a parameter with laws, and the drivers registered for interrupts.
--                    The registers of the distributor are written where its block of gicd.rs has
--                    them: the fields of a block of the crate tock-registers lie one behind the other
--   Driver.DeviceTree  kernel/src/drivers/device_tree.rs, over what the crate fdt_rs reads
-- Base holds what they share; a component's child modules hold its proofs, and the modules called
-- Tests, Memory.Examples, Process.Examples and Process.Program hold examples, those on memory over
-- the machine of Memory.SmallMachine.
--
-- Numbers are those of the source: a usize is a natural number below 2 ^ 64, and addition,
-- subtraction and multiplication wrap round, as the release build does; an isize is such a word
-- that is read with its sign. A failed assert, expect or unwrap is the outcome `panic`. A panic ends
-- the operation, and nothing is said of the state after it. Operations that lock are single steps.
--
-- Loops on fuel: the walk over a range of pages has a round for each page number and one more, the
-- loop of pop_with_split has a round for each area and one more, and the loops of calc_delta have
-- 33 rounds, one for each high bit of a word and one more. The search for a free number or
-- deadline has a round for each key in the table and one more, and handle_signal a round for each
-- queued signal and one more, and the iteration over the ranges of a node one for each range and
-- one more. None of them runs out. A C string is read for as many bytes as the caller gives; a
-- string that is shorter than that is read whole.
--
-- Not modelled: the dispatch of system calls and the reads, which wait; the futures of delays and
-- of whole threads; what the terminal prints; the drivers of devices, GICv3 (which is not built),
-- boot and logging; the switch of address spaces; flushes of the TLB and of caches; interleavings
-- inside an operation, which locks. What tasks do between two scheduling points is not modelled
-- either.
pub mod Base
pub mod Memory
pub mod Task
pub mod Driver
pub mod Kernel
pub mod Process
