-- ===== src/Process.antt =====
-- The data of kernel/src/process.rs and kernel/src/process/trapframe.rs: a slot of the process
-- table, its saved registers, and its lock.
pub mod Blank
pub mod Locks
pub mod Stacks
use rust_baremetal.Prelude.{ℕ, ◌+◌, ◌-◌, ◌*◌, Bool, true, false, Option, none, some, if◌then◌else◌}
use rust_baremetal.Prelude.Word.{◌>>◌}
use rust_baremetal.Hart.{Hart, after_push, pop_interrupt_off}
use rust_baremetal.Machine.Outcome.{M, done, panic, deadlock, pure, expect, ◌>>=◌}
use rust_baremetal.Virtmemory.Pte.{Satp, page_size, trampoline}

abbrev pub kernel_stack_pages : ℕ
kernel_stack_pages = 2

-- `KSTACK!`
unfoldable pub kstack : ℕ → ℕ
kstack n = trampoline - (n + 1) * page_size * (kernel_stack_pages + 1) + page_size

pub data ProcState : Type 0 where
  unused used sleeping runnable running zombie delete : ProcState

-- `==` on `ProcState` with the states that the kernel tests for.
abbrev pub is_unused : ProcState → Bool
is_unused unused = true
is_unused _ = false

abbrev pub is_sleeping : ProcState → Bool
is_sleeping sleeping = true
is_sleeping _ = false

abbrev pub is_runnable : ProcState → Bool
is_runnable runnable = true
is_runnable _ = false

abbrev pub is_zombie : ProcState → Bool
is_zombie zombie = true
is_zombie _ = false

pub record Context : Type 0 where
  pub ra : ℕ
  pub sp : ℕ
  pub s0 : ℕ
  pub s1 : ℕ
  pub s2 : ℕ
  pub s3 : ℕ
  pub s4 : ℕ
  pub s5 : ℕ
  pub s6 : ℕ
  pub s7 : ℕ
  pub s8 : ℕ
  pub s9 : ℕ
  pub s10 : ℕ
  pub s11 : ℕ

abbrev pub zero_context : Context
zero_context = record {
  ra = 0;
  sp = 0;
  s0 = 0;
  s1 = 0;
  s2 = 0;
  s3 = 0;
  s4 = 0;
  s5 = 0;
  s6 = 0;
  s7 = 0;
  s8 = 0;
  s9 = 0;
  s10 = 0;
  s11 = 0;
}

pub record Trapframe : Type 0 where
  pub kernel_satp : ℕ
  pub kernel_sp : ℕ
  pub trap_handler : ℕ
  pub epc : ℕ
  pub hartid : ℕ
  pub ra : ℕ
  pub sp : ℕ
  pub gp : ℕ
  pub tp : ℕ
  pub t0 : ℕ
  pub t1 : ℕ
  pub t2 : ℕ
  pub s0 : ℕ
  pub s1 : ℕ
  pub a0 : ℕ
  pub a1 : ℕ
  pub a2 : ℕ
  pub a3 : ℕ
  pub a4 : ℕ
  pub a5 : ℕ
  pub a6 : ℕ
  pub a7 : ℕ
  pub s2 : ℕ
  pub s3 : ℕ
  pub s4 : ℕ
  pub s5 : ℕ
  pub s6 : ℕ
  pub s7 : ℕ
  pub s8 : ℕ
  pub s9 : ℕ
  pub s10 : ℕ
  pub s11 : ℕ
  pub t3 : ℕ
  pub t4 : ℕ
  pub t5 : ℕ
  pub t6 : ℕ

-- `Trapframe::default()`
abbrev pub default_trapframe : Trapframe
default_trapframe = record {
  kernel_satp = 0;
  kernel_sp = 0;
  trap_handler = 0;
  epc = 0;
  hartid = 0;
  ra = 0;
  sp = 0;
  gp = 0;
  tp = 0;
  t0 = 0;
  t1 = 0;
  t2 = 0;
  s0 = 0;
  s1 = 0;
  a0 = 0;
  a1 = 0;
  a2 = 0;
  a3 = 0;
  a4 = 0;
  a5 = 0;
  a6 = 0;
  a7 = 0;
  s2 = 0;
  s3 = 0;
  s4 = 0;
  s5 = 0;
  s6 = 0;
  s7 = 0;
  s8 = 0;
  s9 = 0;
  s10 = 0;
  s11 = 0;
  t3 = 0;
  t4 = 0;
  t5 = 0;
  t6 = 0;
}

-- `Uvm`; `root` is the address of its page table.
pub record Uvm : Type 0 where
  pub begin : ℕ
  pub size : ℕ
  pub root : ℕ

-- `Uvm::get_satp`
unfoldable pub get_satp : Uvm → Satp
get_satp uvm = record { mode = 1; asid = 0; ppn = uvm.root >> 12 }

-- `lock` is whether the mutex is held; the trapframe's box is modelled by what it holds.
pub record Process : Type 0 where
  pub id : ℕ
  pub pid : Option ℕ
  pub state : ProcState
  pub stack : ℕ
  pub parent : Option ℕ
  pub pagetable : Uvm
  pub context : Context
  pub xstatus : ℕ
  pub sleep_channel : Option ℕ
  pub trapframe : Trapframe
  pub lock : Bool
  pub quants : ℕ

-- `Process::new`, given the empty address space that `Uvm::new` returns.
unfoldable pub new : ℕ → Uvm → Process
unfolding kstack
new n uvm = record {
  id = n;
  pid = none;
  state = unused;
  stack = kstack n;
  parent = none;
  pagetable = uvm;
  context = zero_context;
  xstatus = 0;
  sleep_channel = none;
  trapframe = default_trapframe;
  lock = false;
  quants = 0;
}

-- `Box::new_in(…, &FRAME_ALLOCATOR)`, which aborts without memory; the flag says whether a page is
-- left.
abbrev pub new_box {ℓ} : {S : Type ℓ} → Bool → M S (Unit {0})
new_box true = done tt
new_box false = λ s. panic

-- `Process::free`. `fresh` is the address space that `Uvm::new` returns, or none where the call, the
-- drop of the old address space or the new box of the trapframe panics.
unfoldable pub free : Option Uvm → Process → M Hart Process
free fresh p = do
  uvm ← expect fresh
  pure record p {
    pid = none;
    state = unused;
    parent = none;
    pagetable = uvm;
    context = zero_context;
    xstatus = 0;
    sleep_channel = none;
    trapframe = default_trapframe;
  }

-- `IntMutex::lock_manual` on the lock of a process: a spin lock that is held never comes free,
-- since there is one hart and its interrupts are off.
unfoldable pub lock_manual : Process → M Hart Process
lock_manual p =
    λ h. let h' = after_push h in if p.lock then deadlock else done (record p { lock = true }) h'

abbrev pub unlocked : Process → Option Hart → M Hart Process
unlocked p none = λ h. panic
unlocked p (some h') = λ h. done (record p { lock = false }) h'

-- `IntMutex::unlock_manual`
unfoldable pub unlock_manual : Process → M Hart Process
unlock_manual p = λ h. unlocked p (pop_interrupt_off h) h
