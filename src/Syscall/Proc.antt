-- ===== src/Syscall/Proc.antt =====
-- The handlers of kernel/src/kernel/syscall/sys_proc.rs.
use rust_baremetal.Prelude.{
  ℕ, zero, suc, ◌+◌, ◌-◌, ◌<◌, ◌≡◌, ◌≢◌, refl, arith, Bool, true, false, Option, List, [], ◌∷◌,
  length, get_elem?, set, ltb, ◌==◌, if◌then◌else◌,
}
use rust_baremetal.Prelude.Word.{word_mod}
use rust_baremetal.Hart.{Hart}
use rust_baremetal.Machine.{Machine, Cmd, add_usize}
use rust_baremetal.Machine.Outcome.{M, done, out_of_fuel, pure, ◌>>=◌, expect, unwrap}
use rust_baremetal.Machine.Heap.{HeapAllocator}
use rust_baremetal.Process.{Process, Uvm}
use rust_baremetal.Kernel.{Kernel}
use rust_baremetal.Virtmemory.Copy.{copy_in, copy_in_str}
use rust_baremetal.Lifecycle.{kexit, kwait, Waited, reaped, no_kids, sleeps}
use rust_baremetal.Lifecycle.Fork.{Supplies, kfork}
use rust_baremetal.Lifecycle.Exec.{kexec}

abbrev pub sys_fork : (forkret : ℕ) → Supplies → (self : ℕ) → Kernel → M Hart Kernel
sys_fork forkret supplies self k = do
  (pid, k) ← kfork forkret supplies self k
  _ ← expect pid
  pure k

-- `ret as usize`; -1 is the largest word.
abbrev pub wait_result : Waited → Process → Process
wait_result (reaped pid status) p = record p { trapframe = record p.trapframe { a0 = pid } }
wait_result no_kids p = record p { trapframe = record p.trapframe { a0 = word_mod - 1 } }
wait_result sleeps p = p

-- A round of `kwait`, up to the return or to the switch.
abbrev pub sys_wait :
    Option Uvm → (copied : Bool) → (self : ℕ) → List Process → M Hart (Waited × List Process)
sys_wait fresh copied self table = do
  p ← expect (get_elem? table self)
  (result, table) ← kwait fresh p.trapframe.a0 copied self table
  p ← expect (get_elem? table self)
  pure (result, set table self (wait_result result p))

abbrev pub sys_exit : (self : ℕ) → List Process → M Hart (List Process)
sys_exit self table = do p ← expect (get_elem? table self); kexit self p.trapframe.a0 table

module _ (H : HeapAllocator) (from_utf8 : List ℕ → Bool) (text_fuel : ℕ) where
  -- The `loop` of `sys_exec`, on fuel.
  pub read_argv : ℕ → (root argv_addr : ℕ) → Cmd H (List (List ℕ))
  read_argv zero root argv_addr = λ s. out_of_fuel
  read_argv (suc fuel) root argv_addr = do
    arg_addr ← unwrap (copy_in H root argv_addr)
    let rest = (do
      arg_str ← unwrap (copy_in_str H from_utf8 text_fuel root arg_addr)
      argv_addr ← add_usize argv_addr 4
      argv ← read_argv fuel root argv_addr
      pure (arg_str ∷ argv))
    if arg_addr == 0 then pure [] else rest

  -- `image` is the image that `kexec` chooses for a path; it panics on an unknown one.
  abbrev pub sys_exec :
      (image : List ℕ → Option (ℕ × ℕ)) → (trampoline_text frame fuel : ℕ) → Process → Cmd H Process
  sys_exec image trampoline_text frame fuel proc = do
    let path_addr = proc.trapframe.a0
    let argv_addr = proc.trapframe.a1
    path ← unwrap (copy_in_str H from_utf8 text_fuel proc.pagetable.root path_addr)
    argv ← read_argv fuel proc.pagetable.root argv_addr
    img ← expect (image path)
    unwrap (kexec H trampoline_text frame img.0 img.1 argv proc)

  -- The array at `addr` in the program's memory: the addresses of the texts, and a zero behind them.
  abbrev pub IsArgv : Machine H → (root addr : ℕ) → List (List ℕ) → Type 0
  IsArgv s root addr [] = copy_in H root addr s ≡ done 0 s
  IsArgv s root addr (arg ∷ args) =
      ((p : ℕ) × (p ≢ 0)
        × (copy_in H root addr s ≡ done p s)
        × (copy_in_str H from_utf8 text_fuel root p s ≡ done arg s))
      × (addr + 4 < word_mod)
      × IsArgv s root (addr + 4) args

  -- The loop reads such an array to its end, and changes nothing.
  pub read_argv-IsArgv :
      (fuel root addr : ℕ) (args : List (List ℕ)) (s : Machine H)
      → length args < fuel
      → IsArgv s root addr args
      → read_argv fuel root addr s ≡ done args s
  unfolding read_argv
  read_argv-IsArgv zero root addr args s h argv = absurd (omega (arith, h))
  read_argv-IsArgv (suc fuel) root addr [] s h argv = rw argv refl
  read_argv-IsArgv (suc fuel) root addr (arg ∷ args) s h ((p, not_null, word, text), fits, argv) =
      let more : (p == 0) ≡ false = ground arith in
      let add : ltb (addr + 4) word_mod ≡ true = ground arith in
      rw (word, more, text, add, read_argv-IsArgv fuel root (addr + 4) args s (omega arith) argv)
        refl
