-- ===== src/Lifecycle/Fork.antt =====
-- `kfork` of kernel/src/process.rs, whole under the kernel's lock.
pub mod Slot
pub mod Outcome
mod Tests
use rust_baremetal.Prelude.{ℕ, Bool, Option, none, some, get_elem?, set}
use rust_baremetal.Hart.{Hart}
use rust_baremetal.Hart.Guard.{guarded}
use rust_baremetal.Machine.Outcome.{M, panic, pure, ◌>>=◌, ◌>>◌, expect}
use rust_baremetal.Process.{Process, Uvm, Trapframe, runnable, lock_manual, unlock_manual, new_box}
use rust_baremetal.Kernel.{Kernel, allocproc}

-- What follows on the clone of the address space, once it is mapped for the child.
pub fork_child : Uvm → ℕ → ℕ → Process → Process → Kernel → M Hart (Option ℕ × Kernel)
fork_child uvm self i p child k = do
  let child = record child { pagetable = uvm; trapframe = record child.trapframe { a0 = 0 } }
  pid ← expect child.pid
  let p = record p { trapframe = record p.trapframe { a0 = pid } }
  child ← unlock_manual child
  let child = record child { parent = p.pid }
  child ← lock_manual child
  let child = record child { state = runnable }
  child ← unlock_manual child
  pure (child.pid, record k { process_table = set (set k.process_table i child) self p })

-- What becomes of the child's address space: `init_proc` completes the clone; or it fails; or there
-- is a panic in `Uvm::clone`, or in the drop of a clone or of the address space that the slot had.
pub data ChildSpace : Type 0 where
  complete : Uvm → ChildSpace
  incomplete : ChildSpace
  broken : ChildSpace

-- The memory that `kfork` asks for: a page for the box of `allocproc`, one for the copy of the
-- trapframe, and the address space.
pub record Supplies : Type 0 where
  pub first_box : Bool
  pub second_box : Bool
  pub space : ChildSpace

-- What follows on `allocproc`.
pub fork_slot : Supplies → ℕ → ℕ → Kernel → M Hart (Option ℕ × Kernel)
unfolding fork_child
fork_slot supplies self i k = do
  p ← expect (get_elem? k.process_table self)
  child ← expect (get_elem? k.process_table i)
  new_box supplies.second_box
  let child = record child { trapframe = p.trapframe }
  elim supplies.space [
    | broken ↦ λ h. panic
    | incomplete ↦ pure (none, record k { process_table = set k.process_table i child })
    | complete uvm ↦ fork_child uvm self i p child k
  ]

-- The block under the kernel's lock; none stands for `Err(())`.
pub fork_block : (forkret : ℕ) → Supplies → ℕ → Kernel → M Hart (Option ℕ × Kernel)
unfolding fork_slot
fork_block forkret supplies self k = do
  (found, k) ← allocproc forkret supplies.first_box k
  elim found [ none ↦ pure (none, k) | some i ↦ fork_slot supplies self i k ]

pub kfork : (forkret : ℕ) → Supplies → ℕ → Kernel → M Hart (Option ℕ × Kernel)
unfolding fork_block
kfork forkret supplies self k = guarded (fork_block forkret supplies self k)
