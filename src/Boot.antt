-- ===== src/Boot.antt =====
-- The start of the kernel: `main` of kernel/src/main.rs up to the switch to the kernel's address space,
-- and `init_trap` of kernel/src/trap.rs.
pub mod Booted
mod Tests
use rust_baremetal.Prelude.{ℕ, Option, none, some, List, [], bit_or}
use rust_baremetal.Machine.{Machine, Cmd, lock, unlock}
use rust_baremetal.Machine.Outcome.{M, Run, done, pure, ◌>>=◌, ◌>>◌, expect, unwrap, within}
use rust_baremetal.Machine.Heap.{HeapAllocator}
use rust_baremetal.Machine.Memory.{Mem}
use rust_baremetal.Process.{Process}
use rust_baremetal.Virtmemory.Pte.{ram_end}
use rust_baremetal.Virtmemory.Kvm.{sub_usize, start_kvm}
use rust_baremetal.Kernel.Init.{kernel_init, initproc}

abbrev pub sie_seie : ℕ
sie_seie = 512

abbrev pub sie_stie : ℕ
sie_stie = 32

-- The addresses that the linker gives.
pub record Addresses : Type 0 where
  pub ekernel : ℕ
  pub end_text : ℕ
  pub trampoline_text : ℕ
  pub kernelvec : ℕ

-- The machine with the csrs that the start writes, and `KERNEL`, which is built there.
pub record Start (H : HeapAllocator) : Type 0 where
  pub machine : Machine H
  pub stvec : ℕ
  pub sie : ℕ
  pub satp : ℕ
  pub kvm : Option ℕ
  pub process_table : List Process
  pub pid : ℕ

-- `init_heap` is `Heap::init` of the crate buddy_system_allocator.
module _ (H : HeapAllocator) (init_heap : (start size : ℕ) → H.State → Mem → H.State × Mem) where
  -- A command on the machine.
  abbrev pub on_machine : {A : Type 0} → Cmd H A → M (Start H) A
  on_machine c = λ s. within (λ m. record s { machine = m }) (c s.machine)

  -- `HEAP_ALLOCATOR.lock().init(ekernel, RAMEND - ekernel)`
  pub start_heap : (ekernel : ℕ) → Cmd H (Unit {0})
  start_heap ekernel = do
    lock H
    size ← sub_usize ram_end ekernel
    _ ← λ m.
        let (heap, mem) = init_heap ekernel size m.heap m.mem in
        done tt (record m { heap = heap; mem = mem })
    unlock H

  pub init_trap : (kernelvec : ℕ) → M (Start H) (Unit {0})
  init_trap kernelvec = do
    _ ← λ s. done tt (record s { stvec = kernelvec })
    λ s. done tt (record s { sie = bit_or (bit_or s.sie sie_seie) sie_stie })

  -- What `main` does with the kernel from `kernel.init` to `start_kvm`.
  pub start_kernel : Addresses → M (Start H) (Unit {0})
  start_kernel addresses = do
    kvm ← on_machine (unwrap (kernel_init H addresses.end_text addresses.trampoline_text))
    _ ← λ s. done tt (record s { kvm = kvm })
    table ← on_machine (unwrap (initproc H 4 kvm []))
    _ ← λ s. done tt (record s { process_table = table })
    root ← expect kvm
    λ s. done tt (record s { satp = start_kvm root })

  -- `main` from its first call to `start_kvm`, under the lock on `KERNEL`, which it keeps.
  pub main : Addresses → M (Start H) (Unit {0})
  unfolding start_heap init_trap start_kernel
  main addresses = do
    on_machine (start_heap addresses.ekernel)
    init_trap addresses.kernelvec
    _ ← λ s. done tt (record s { kvm = none; process_table = []; pid = 0 })
    on_machine (lock H)
    start_kernel addresses
