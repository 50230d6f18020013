-- ===== src/Lib.antt =====
-- A model of the kernel of rust-baremetal (kernel/src), an operating system for one riscv32 hart
-- with Sv32 paging. The files follow the kernel's:
--
-- - Hart.antt: the interrupt switch, `Cpu::push_interrupt_off` and `Cpu::pop_interrupt_off` of
--   kernel/src/kernel.rs with `interrupt_on`, `interrupt_off` and `interrupt_read` of
--   kernel/src/trap.rs. `Hart` holds `sstatus` and the two fields of `Cpu` that they use.
-- - Machine.antt: physical memory by bytes, the heap, and the commands that functions are made of.
--   `alloc` and `dealloc` are `LockedHeap` of kernel/src/allocator.rs, `lock` and `unlock` are
--   `IntMutex::lock` and the drop of its guard (kernel/src/lock.rs) on the heap's mutex.
--   Machine/FrameAllocator.antt is `FrameAllocator` of the same file.
-- - Virtmemory/Pte.antt: the constants and words of kernel/src/virtmemory.rs: `Pte`, `SATP`, `VA`,
--   `PA` and their conversions.
-- - Virtmemory/PageTable.antt: `PageTable` of the same file: `new`, `walk`, `map`, `unmap`,
--   `free_req` and `free`. Virtmemory/PageTable/View.antt has the independent view of a table, the
--   two-level lookup of the Sv32 hardware in plain arithmetic, and when a table is well formed.
-- - Virtmemory/Uvm.antt: `Uvm` of the same file, with its state beside the machine: `new`, `alloc`,
--   `grow`, `dealloc`, `free`, `init_proc`, `load` and `clone`. Virtmemory/Uvm/Valid.antt says when an
--   address space is well formed, Virtmemory/Uvm/Copied.antt what a copy of some of its pages is.
-- - Virtmemory/Kvm.antt: `Kvm` of the same file: `init`, `alloc_kstack` and `start_kvm`, with the
--   linker's addresses as parameters.
-- - Process.antt: `KSTACK!`, the data of kernel/src/process.rs and
--   kernel/src/process/trapframe.rs, `Process::new` and `Process::free` as changes of a slot, and
--   `IntMutex::lock_manual` and `unlock_manual` on the lock of a process.
-- - Kernel.antt: `allocproc`, `reparent` and `wakeup` of `Kernel` in kernel/src/kernel.rs.
--   Kernel/Init.antt has `init` and `initproc`, on the machine.
-- - Lifecycle.antt: `kexit`, a round of `kwait` and the checks of `sched` of kernel/src/process.rs,
--   on the same process table, and Lifecycle/Fork.antt is `kfork`; Hart/Guard.antt is a block under
--   a guard of `IntMutex`. Lifecycle/Exec.antt is `kexec` from the image on, Lifecycle/Sleep.antt has
--   `yeld` and `sleep`.
--   Lifecycle/Steps.antt has the operations on the table as a step relation.
-- - Scheduler.antt: a round of `scheduler` of kernel/src/process.rs, up to the context switch and
--   behind it, with the stable sort written out.
-- - Virtmemory/Copy.antt: `walkaddr`, `copy_in`, `copy_in_cont`, `copy_in_str`, `copy_out` and
--   `copy_out_cont` of kernel/src/virtmemory.rs, on the memory of the page tables.
-- - Uart.antt: `uart_print` and `UartWriter` of kernel/src/uart.rs.
-- - Trap/Trampoline.antt: `uservec` and `userret` of kernel/src/trap/trampoline.rs, instruction by
--   instruction, on registers and aligned words.
--   Trap/Kernelvec.antt is `kernelvec` of kernel/src/trap.rs and Trap/Switch.antt is `switch` of
--   kernel/src/process.rs, in the same instructions.
-- - Trap/User.antt: `usertrap` of kernel/src/trap.rs, `prepare_return` and `forkret` of
--   kernel/src/process.rs, with the handler of a system call and `yeld` as parameters.
--   Trap/Kerneltrap.antt is `kerneltrap` of kernel/src/trap.rs.
-- - Syscall.antt: `syscall` of kernel/src/kernel/syscall.rs, with `sys_write` of
--   kernel/src/kernel/syscall/sys_file.rs and the other handlers as parameters. Syscall/Proc.antt has
--   these handlers, of kernel/src/kernel/syscall/sys_proc.rs.
-- - Boot.antt: `main` of kernel/src/main.rs up to `start_kvm`, and `init_trap` of kernel/src/trap.rs,
--   with `Heap::init` of the crate buddy_system_allocator as a parameter.
-- - Prelude.antt: numbers, bits, lists and tests.
--
-- How the code is read. A function is a command over the state that it works on: it returns,
-- returns `Err(())`, panics, runs out of fuel, or waits for ever for a lock (Machine/Outcome.antt).
-- `usize` has 32 bits; an addition panics on overflow, as in the `dev` profile. `debug!` prints
-- nothing, since its flag is off, and is left out. The crate buddy_system_allocator is the parameter
-- `HeapAllocator` of Machine/Heap.antt, with its documented behaviour on pages as laws;
-- Machine/Bitmap.antt is a heap that meets them. The heap's mutex is free whenever it is taken,
-- since every use of it is inside one call on one hart with interrupts off. The lock of a process is
-- a flag; taking one that is held is a deadlock. `push_interrupt_off` panics where its counter does
-- not fit a `usize`. The locks take `after_push`, what it leaves where the counter fits: an operation
-- holds a few locks at a time at most.
--
-- Loops. `map_loop` has fuel for one round more than there are pages in the range, `unmap_loop`
-- counts its rounds, `free_req` has fuel for the two levels of a table, `str_loop` has fuel that a
-- text shorter than it does not use up, `alloc_loop` has fuel for two rounds more than there are
-- pages in the size asked for, `read_argv` has fuel that fewer arguments do not use up; all others go
-- over a list or count their rounds.
--
-- Not modelled: the choice of the image in `kexec`, the jump at the end of `forkret`, the entry in
-- assembly, and the start of the first process behind `start_kvm`, since `allocproc` and `kexec`
-- stand on states that do not share the address of the trapframe; text that `print!` sends on the
-- way. The field of `Cpu` for the running process is the slot that a round of the scheduler
-- returns. A slot holds what its trapframe contains and not the address of its box: the page is
-- taken in Kernel/Init.antt, and its release is left out. `allocproc`, `kfork` and `kwait` stand on
-- the process table and not on the machine: they are given whether a page is left for a trapframe's
-- box; `kfork` what becomes of the child's address space in `Uvm::clone` and `init_proc`, a panic
-- there included; and `kwait` the empty address space that `Process::free` makes, or that it
-- panics, and whether `copy_out` of the status succeeds. `kwait` returns the status with the id,
-- where the code writes it to the caller's memory. A process that calls an operation is named by
-- its slot in the table.
pub mod Prelude
pub mod Hart
pub mod Machine
pub mod Virtmemory
pub mod Process
pub mod Kernel
pub mod Scheduler
pub mod Trap
pub mod Uart
pub mod Lifecycle
pub mod Syscall
pub mod Boot
