-- ===== src/Kernel/Init.antt =====
-- `init` and `initproc` of `Kernel` in kernel/src/kernel.rs, on the machine. A slot of the process
-- table holds what its trapframe contains; the page of the trapframe's box is taken and cleared.
pub mod Rounds
pub mod Stacks
pub mod Whole
mod Tests
use rust_baremetal.Prelude.{ℕ, zero, suc, ◌+◌, Option, some, List, [], ◌∷◌, ◌++◌, length}
use rust_baremetal.Machine.{Machine, Cmd, zeros, add_usize}
use rust_baremetal.Machine.Outcome.{M, Run, done, pure, ◌>>=◌, ◌>>◌, ok_or, unwrap}
use rust_baremetal.Machine.Heap.{HeapAllocator, Layout}
use rust_baremetal.Machine.FrameAllocator.{allocate}
use rust_baremetal.Process.{Process, kstack}
use rust_baremetal.Process
use rust_baremetal.Virtmemory.Kvm.{init, alloc_kstack}
use rust_baremetal.Virtmemory.Uvm

-- `Trapframe` is 36 words.
abbrev pub trapframe_layout : Layout
trapframe_layout = record { size = 144; align = 4 }

module _ (H : HeapAllocator) where
  -- `Box::new_in(Trapframe::default(), &FRAME_ALLOCATOR)`; without memory it aborts.
  pub new_trapframe : Cmd H ℕ
  new_trapframe = do frame ← unwrap (allocate H trapframe_layout); zeros H frame.0 144; pure frame.0

  -- `Process::new`
  pub new_process : ℕ → Cmd H Process
  unfolding new_trapframe
  new_process n = do pagetable ← Uvm.new H; _ ← new_trapframe; pure (Process.new n pagetable)

  -- A round of the loop of `initproc`.
  pub add_process : (root i : ℕ) → Cmd H Process
  unfolding new_process
  add_process root i = do proc ← new_process i; alloc_kstack H root (kstack i); pure proc

  pub initproc_loop : ℕ → (root i : ℕ) → List Process → Cmd H (List Process)
  unfolding add_process
  initproc_loop zero root i table = pure table
  initproc_loop (suc n) root i table = do
    proc ← add_process root i
    initproc_loop n root (i + 1) (table ++ (proc ∷ []))

  -- `initproc`, on the root of `kvm` and the process table.
  pub initproc : ℕ → (kvm : Option ℕ) → List Process → Cmd H (List Process)
  unfolding initproc_loop
  initproc n kvm table = do
    root ← ok_or kvm
    _ ← add_usize (length table) n
    initproc_loop n root (length table) table

  -- `Kernel::init`: the field `kvm` that it sets.
  abbrev pub kernel_init : (end_text trampoline_text : ℕ) → Cmd H (Option ℕ)
  kernel_init end_text trampoline_text = do kvm ← init H end_text trampoline_text; pure (some kvm)
