-- ===== src/Lifecycle/Exec.antt =====
-- `kexec` of kernel/src/process.rs from the image on: a new address space with the image, a guard page
-- and a stack, and the arguments on the stack. The image is `len` bytes at `img` in the kernel's
-- memory.
pub mod Args
pub mod Built
pub mod Pages
mod BuiltTests
mod Tests
use rust_baremetal.Prelude.{
  ℕ, zero, suc, ◌+◌, ◌-◌, ◌*◌, List, [], ◌∷◌, ◌++◌, length, ltb, bit_and, bit_or, if◌then◌else◌,
}
use rust_baremetal.Prelude.Word.{word_mod}
use rust_baremetal.Machine.{Machine, Cmd, store}
use rust_baremetal.Machine.Outcome.{
  M, Run, done, err, panic, out_of_fuel, deadlock, pure, ◌>>=◌, ◌>>◌, ok_or, and_then, unwrap,
}
use rust_baremetal.Machine.Heap.{HeapAllocator}
use rust_baremetal.Process.{Process, Trapframe, Uvm}
use rust_baremetal.Virtmemory.Pte.{page_size, user_start, pte_r, pte_w, pte_x}
use rust_baremetal.Virtmemory.Copy.{walkaddr, copy_out_cont}
use rust_baremetal.Virtmemory.Kvm.{sub_usize}
use rust_baremetal.Virtmemory.PageTable
use rust_baremetal.Virtmemory.Uvm
use rust_baremetal.Virtmemory.Uvm.{Space, on_machine, uvm_end}

module _ (H : HeapAllocator) where
  -- The `for` over `argv`: each argument below the one before it. It returns the addresses and the new
  -- `sp`.
  pub push_args : (root stack_base sp : ℕ) → List (List ℕ) → Cmd H (List ℕ × ℕ)
  push_args root stack_base sp [] = pure ([], sp)
  push_args root stack_base sp (arg ∷ args) = do
    sp ← sub_usize sp (length arg)
    let sp = bit_and sp (word_mod - 8)
    _ ← λ s. if ltb sp stack_base then err s else done tt s
    copy_out_cont H root sp arg
    (ustack, last) ← push_args root stack_base sp args
    pure (sp ∷ ustack, last)

  -- The `for` of `copy_out_cont::<usize>`.
  abbrev pub write_words : List ℕ → ℕ → Cmd H (Unit {0})
  write_words [] p = pure tt
  write_words (x ∷ xs) p = do store H p x; write_words xs (p + 4)

  -- `copy_out_cont::<usize>`
  abbrev pub copy_out_words : ℕ → ℕ → List ℕ → Cmd H (Unit {0})
  copy_out_words root addr words = do
    found ← walkaddr H root addr
    user_addr ← ok_or found
    write_words words user_addr

  -- The stack of the new program: it returns the `sp`.
  abbrev pub push_stack : (root end : ℕ) → List (List ℕ) → Cmd H ℕ
  push_stack root end argv = do
    stack_base ← sub_usize end page_size
    (ustack, sp) ← push_args root stack_base end argv
    let ustack = ustack ++ 0 ∷ []
    sp ← sub_usize sp (length ustack * 4)
    _ ← λ s. if ltb sp stack_base then err s else done tt s
    copy_out_words root sp ustack
    pure sp

  -- The pages of the new address space: the image, a guard page and a stack. `trampoline_text` and
  -- `frame` are the addresses of the trampoline and of the process's trapframe.
  abbrev pub exec_pages : (trampoline_text frame img len : ℕ) → M (Space H) (Unit {0})
  exec_pages trampoline_text frame img len = do
    Uvm.init_proc H trampoline_text frame
    Uvm.alloc_uvm H len (bit_or (bit_or pte_r pte_w) pte_x)
    uvm ← λ s. done s.uvm s
    on_machine H (Uvm.load_image H uvm.root user_start img len)
    unwrap (Uvm.grow H page_size 0)
    unwrap (Uvm.grow H page_size (bit_or pte_w pte_r))

  -- What `kexec` does with the new address space until it is complete: it returns the `sp`.
  abbrev pub exec_space : (trampoline_text frame img len : ℕ) → List (List ℕ) → M (Space H) ℕ
  exec_space trampoline_text frame img len argv = do
    exec_pages trampoline_text frame img len
    uvm ← λ s. done s.uvm s
    end ← uvm_end uvm
    on_machine H (push_stack uvm.root end argv)

  -- The drop of an address space: `Uvm::drop`, then the drop of its table.
  abbrev pub drop_space : M (Space H) (Unit {0})
  drop_space = do Uvm.free H; uvm ← λ s. done s.uvm s; on_machine H (PageTable.free H uvm.root)

  -- The end of a run on an address space of its own.
  abbrev pub leave : {A : Type 0} → Run (Space H) A → Run (Machine H) (A × Uvm)
  leave (done a s) = done (a, s.uvm) s.machine
  leave (err s) = err s.machine
  leave panic = panic
  leave out_of_fuel = out_of_fuel
  leave deadlock = deadlock

  -- On `?` the new address space is dropped.
  abbrev pub or_drop : {A : Type 0} → Run (Space H) A → Run (Space H) A
  or_drop (done a s) = done a s
  or_drop (err s) = and_then (drop_space s) (λ _. err)
  or_drop panic = panic
  or_drop out_of_fuel = out_of_fuel
  or_drop deadlock = deadlock

  -- `kexec` behind the choice of the image.
  abbrev pub kexec : (trampoline_text frame img len : ℕ) → List (List ℕ) → Process → Cmd H Process
  kexec trampoline_text frame img len argv p = do
    uvm ← Uvm.new H
    (sp, pagetree) ← λ m. leave (
        or_drop (exec_space trampoline_text frame img len argv (record { machine = m; uvm = uvm })))
    let old = p.pagetable
    _ ← λ m. leave (drop_space (record { machine = m; uvm = old }))
    pure record p {
      pagetable = pagetree;
      trapframe = record p.trapframe { a0 = length argv; a1 = sp; sp = sp; epc = user_start };
    }
